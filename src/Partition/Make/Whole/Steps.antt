-- ===== src/Partition/Make/Whole/Steps.antt =====
-- The steps of DataPartition::Make of cpp/arcae/data_partition.cc for a fixed result without selected
-- indices.
use casa_arrow.Base.{
  ℕ, zero, suc, ◌+◌, ◌-◌, ◌≤◌, ◌<◌, ◌≡◌, refl, ◌∙◌, sym, ap, ap₂, Bool, true, List, [], ◌∷◌, map,
  ◌++◌, length, iota, get_or, get_or-map, get_or-iota, length-iota, length-map, take, arith, ok,
  err, StatusCode,
}
use casa_arrow.Base.Int.{ℤ, pos}
use casa_arrow.Grid.Rank.{IsProper}
use casa_arrow.Sorting.{SortAlgorithm}
use casa_arrow.Shape.{IPosition, max_element}
use casa_arrow.Selection.{Selection, f_span_of}
use casa_arrow.Partition.{SpanPair, SpanPairs, disk_at}
use casa_arrow.Partition.SubSpans.{cut_at, cut_loop, make_sub_span, make_sub_spans, no_cut}
use casa_arrow.Partition.Product.{
  secondary_dimensions_contiguous, is_memory_contiguous, ascends_by_one, is_iota, row_spans,
}
use casa_arrow.Partition.Product.Choices.{choices}
use casa_arrow.Partition.Product.Contiguity.{AllInhabited}
use casa_arrow.Partition.Make.{get_span_pair, sub_spans_loop}

-- All the indices of a dimension, on disk and in memory.
abbrev pub whole : ℕ → SpanPair
whole n = record { disk = map pos (iota n 0); mem = iota n 0 }

take-iota : (n m start : ℕ) → n ≤ m → take n (iota m start) ≡ iota n start
take-iota zero m start h = refl
take-iota (suc n) zero start h = absurd (omega arith)
take-iota (suc n) (suc m) start h = ap (◌∷◌ start) (take-iota n m (suc start) (omega arith))

module _ {ℓ} {A : Type ℓ} where
  pub take-whole : (n : ℕ) (xs : List A) → length xs ≡ n → take n xs ≡ xs
  take-whole zero [] h = refl
  take-whole zero (x ∷ xs) h = absurd (omega arith)
  take-whole (suc n) [] h = refl
  take-whole (suc n) (x ∷ xs) h = ap (◌∷◌ x) (take-whole n xs (omega arith))

consecutive :
    (disk : List ℤ) (mem : List ℕ) (entire : Bool) (i : ℕ)
    → disk_at disk 0 ≡ pos 0
    → disk_at disk i ≡ pos i
    → disk_at disk (suc i) ≡ pos (suc i)
    → cut_at disk mem entire (suc i) no_cut ≡ ok no_cut
unfolding cut_at
consecutive disk mem entire i zeroth this next =
    let before : suc i - 1 ≡ i = omega arith in rw (next, zeroth, before, this) (ground arith)

module _ (n : ℕ) where
  pub disk_at-whole : (i : ℕ) → i < n → disk_at (map pos (iota n 0)) i ≡ pos i
  disk_at-whole i h =
      get_or-map (iota n 0) pos i 0 (pos 0) (omega (arith, length-iota n 0))
      ∙ ap pos (get_or-iota n 0 i 0 h ∙ omega arith)

  -- Nothing is cut off.
  cut_loop-whole :
      (entire : Bool) (rounds i : ℕ)
      → i + suc rounds ≡ n
      → cut_loop (map pos (iota n 0)) (iota n 0) entire rounds (suc i) no_cut ≡ ok no_cut
  unfolding cut_loop
  cut_loop-whole entire zero i h = refl
  cut_loop-whole entire (suc rounds) i h =
      rw
        (consecutive (map pos (iota n 0)) (iota n 0) entire i (disk_at-whole 0 (omega arith))
          (disk_at-whole i (omega arith)) (disk_at-whole (suc i) (omega arith)))
        (cut_loop-whole entire rounds (suc i) (omega arith))

  make_sub_spans-whole :
      (entire : Bool)
      → 0 < n
      → make_sub_spans (map pos (iota n 0)) (iota n 0) entire ≡ ok (whole n ∷ [])
  unfolding make_sub_spans make_sub_span
  make_sub_spans-whole entire h =
      let len : length (map pos (iota n 0)) ≡ n = length-map (iota n 0) pos ∙ length-iota n 0 in
      let size : n - 0 ≡ n = omega arith in
      rw (len, cut_loop-whole entire (n - 1) 0 (omega arith), size)
        (ap₂ (λ d m. ok (record { disk = d; mem = m } ∷ [])) (take-whole n (map pos (iota n 0)) len)
          (take-whole n (iota n 0) (length-iota n 0)))

-- A selection that has no indices for any dimension of the result.
abbrev pub SelectsNothing : Selection → ℕ → Type 0
SelectsNothing selection ndim =
    (fdim : ℕ) → fdim < ndim → (c : StatusCode) × (f_span_of selection fdim ndim ≡ err c)

pub get_span_pair-whole :
    (std : SortAlgorithm) (selection : Selection) (ndim max_size dim n : ℕ)
    → SelectsNothing selection ndim
    → dim < ndim
    → n ≤ max_size
    → get_span_pair std selection ndim max_size dim n ≡ whole n
unfolding get_span_pair
get_span_pair-whole std selection ndim max_size dim n none_selected lt fits =
    rw ((none_selected dim lt).1, get_span_pair)
      (ap (λ mem. record { disk = map pos mem; mem = mem }) (take-iota n max_size 0 fits))

-- One span for every dimension.
abbrev pub whole_dims : IPosition → List SpanPairs
whole_dims shape = map (λ n. whole n ∷ []) shape

pub sub_spans_loop-whole :
    (pair_of : ℕ → ℕ → SpanPair) (entire : ℕ → Bool) (before shape : IPosition) (d : ℕ)
    → ((k : ℕ) → k < length shape → pair_of (d + k) (get_or shape k 0) ≡ whole (get_or shape k 0))
    → ((k : ℕ) → get_or before (d + k) 0 ≡ get_or shape k 0)
    → IsProper shape
    → sub_spans_loop pair_of entire before (length shape) d ≡ ok (whole_dims shape)
unfolding sub_spans_loop
sub_spans_loop-whole pair_of entire before [] d pairs same proper = refl
sub_spans_loop-whole pair_of entire before (n ∷ shape) d pairs same proper =
    let e : d + 0 ≡ d = omega arith in
    let size : get_or before d 0 ≡ n = ap (λ k. get_or before k 0) (sym e) ∙ same 0 in
    let pair : pair_of d n ≡ whole n = ap (λ k. pair_of k n) (sym e) ∙ pairs 0 (omega arith) in
    let shift : (k : ℕ) → d + suc k ≡ d + 1 + k = λ k. omega arith in
    rw
      (
        size,
        pair,
        make_sub_spans-whole n (entire d) proper.0,
        sub_spans_loop-whole pair_of entire before shape (d + 1)
            (λ k h.
              ap (λ j. pair_of j (get_or shape k 0)) (sym (shift k)) ∙ pairs (suc k) (omega arith))
            (λ k. ap (λ j. get_or before j 0) (sym (shift k)) ∙ same (suc k)) proper.1,
      )
      refl

pub choices-whole : (shape : IPosition) → choices (whole_dims shape) ≡ map whole shape ∷ []
choices-whole [] = refl
choices-whole (n ∷ shape) = ap (λ c. map (λ t. whole n ∷ t) c ++ []) (choices-whole shape)

is_iota-whole : (n start : ℕ) → is_iota start (iota n start) ≡ true
unfolding is_iota
is_iota-whole zero start = refl
is_iota-whole (suc n) start =
    let next : start + 1 ≡ suc start = omega arith in
    let rest : is_iota (start + 1) (iota n (suc start)) ≡ true =
      ap (λ k. is_iota k (iota n (suc start))) next ∙ is_iota-whole n (suc start) in
    rw rest (ground arith)

ascends_by_one-whole : (n start : ℕ) → ascends_by_one (iota n start) ≡ true
unfolding ascends_by_one
ascends_by_one-whole zero start = refl
ascends_by_one-whole (suc zero) start = refl
ascends_by_one-whole (suc (suc n)) start =
    rw (ascends_by_one-whole (suc n) (suc start)) (ground arith)

pub secondary-whole :
    (shape : IPosition) → secondary_dimensions_contiguous (whole_dims shape) ≡ true
unfolding secondary_dimensions_contiguous
secondary-whole [] = refl
secondary-whole (n ∷ []) = refl
secondary-whole (n ∷ m ∷ shape) = rw (is_iota-whole n 0) (secondary-whole (m ∷ shape))

pub rows-whole :
    (shape : IPosition)
    → 0 < length shape
    → map is_memory_contiguous (row_spans (whole_dims shape)) ≡ true ∷ []
unfolding row_spans is_memory_contiguous
rows-whole [] h = absurd (omega arith)
rows-whole (n ∷ []) h = ap (λ b. b ∷ []) (ascends_by_one-whole n 0)
rows-whole (n ∷ m ∷ shape) h = rows-whole (m ∷ shape) (omega arith)

pub AllInhabited-whole : (shape : IPosition) → AllInhabited (whole_dims shape)
AllInhabited-whole [] = tt
AllInhabited-whole (n ∷ shape) = (omega arith, AllInhabited-whole shape)

pub get_or-max_element : (shape : IPosition) (k : ℕ) → get_or shape k 0 ≤ max_element shape
get_or-max_element [] k = omega arith
get_or-max_element (n ∷ shape) zero = omega arith
get_or-max_element (n ∷ shape) (suc k) = omega (arith, get_or-max_element shape k)
