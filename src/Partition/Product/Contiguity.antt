-- ===== src/Partition/Product/Contiguity.antt =====
-- What the contiguity flags of the product say.
use mathlib.Core.List.{append_assoc, append-nil}
use casa_arrow.Base.{
  ℕ, zero, suc, ◌+◌, ◌-◌, ◌*◌, ◌<◌, ◌≡◌, refl, ◌∙◌, sym, ap, ap₂, subst, Bool, true, false, List,
  [], ◌∷◌, ◌++◌, map, length, iota, replicate, get_or, set, length-append, arith, leb,
  get_or-append_right,
}
use casa_arrow.Partition.{SpanPair, SpanPairs}
use casa_arrow.Partition.Product.{
  no_span, first_span, is_iota, secondary_dimensions_contiguous, ascends_by_one,
  is_memory_contiguous, n_products, stride_loop, row_spans, and_range, rows_loop,
}
use casa_arrow.Partition.Product.Choices.{choices, pair_up}

-- The memory indices of a chunk that is one piece of the result: whole secondary dimensions in
-- order, and consecutive rows.
abbrev pub IsOnePiece : SpanPairs → Type 0
IsOnePiece [] = ⊥
IsOnePiece (row ∷ []) = (start : ℕ) × (row.mem ≡ iota (length row.mem) start)
IsOnePiece (p ∷ q ∷ ps) = (p.mem ≡ iota (length p.mem) 0) × IsOnePiece (q ∷ ps)

-- The chunk spans every secondary dimension of the shape.
abbrev pub IsWhole : List ℕ → SpanPairs → Type 0
IsWhole shape [] = Unit
IsWhole shape (row ∷ []) = Unit
IsWhole [] (p ∷ q ∷ ps) = ⊥
IsWhole (n ∷ shape) (p ∷ q ∷ ps) = (n ≡ length p.mem) × IsWhole shape (q ∷ ps)

-- The memory indices that the spans of a dimension have together.
abbrev pub n_indices : SpanPairs → ℕ
n_indices [] = 0
n_indices (p ∷ spans) = length p.mem + n_indices spans

-- No dimension is without a span.
abbrev pub AllInhabited : List SpanPairs → Type 0
AllInhabited [] = Unit
AllInhabited (spans ∷ dims) = (0 < length spans) × AllInhabited dims

pub is_iota-iota : (i : ℕ) (mem : List ℕ) → is_iota i mem ≡ true → mem ≡ iota (length mem) i
unfolding is_iota
is_iota-iota i [] h = refl
is_iota-iota i (m ∷ mem) h =
    let next : i + 1 ≡ suc i = omega arith in
    let rest : is_iota (suc i) mem ≡ true = subst (λ k. is_iota k mem ≡ true) next (ground arith) in
    ap₂ ◌∷◌ (ground arith) (is_iota-iota (suc i) mem rest)

pub ascends_by_one-iota :
    (m : ℕ) (mem : List ℕ) → ascends_by_one (m ∷ mem) ≡ true → m ∷ mem ≡ iota (length (m ∷ mem)) m
unfolding ascends_by_one
ascends_by_one-iota m [] h = refl
ascends_by_one-iota m (n ∷ mem) h =
    let e : n ≡ suc m = ground arith in
    let rest : ascends_by_one (n ∷ mem) ≡ true = ground arith in
    ap (◌∷◌ m) (ascends_by_one-iota n mem rest ∙ ap (λ k. iota (length (n ∷ mem)) k) e)

-- The row span of a chunk.
abbrev pub row_of : SpanPairs → SpanPair
row_of [] = no_span
row_of (row ∷ []) = row
row_of (p ∷ q ∷ ps) = row_of (q ∷ ps)

-- The first span of every secondary dimension, with a row span behind them.
abbrev pub only_rows : List SpanPairs → SpanPair → SpanPairs
only_rows [] r = r ∷ []
only_rows (row ∷ []) r = r ∷ []
only_rows (spans ∷ next ∷ dims) r = first_span spans ∷ only_rows (next ∷ dims) r

is_one :
    (spans : SpanPairs)
    → 0 < length spans
    → leb 2 (length spans) ≡ false
    → spans ≡ first_span spans ∷ []
is_one [] h k = absurd (omega arith)
is_one (p ∷ []) h k = refl
is_one (p ∷ q ∷ spans) h k = absurd (ground arith)

choices-row : (row : SpanPairs) → choices (row ∷ []) ≡ map (λ r. r ∷ []) row
choices-row [] = refl
choices-row (r ∷ row) = ap (◌∷◌ (r ∷ [])) (choices-row row)

map-only_rows :
    (p : SpanPair) (f : SpanPair → SpanPairs) (rows : SpanPairs)
    → map (λ t. p ∷ t) (map f rows) ≡ map (λ r. p ∷ f r) rows
map-only_rows p f [] = refl
map-only_rows p f (r ∷ rows) = ap (◌∷◌ (p ∷ f r)) (map-only_rows p f rows)

module _ (spans next : SpanPairs) (dims : List SpanPairs) where
  one_first :
      AllInhabited (spans ∷ next ∷ dims)
      → secondary_dimensions_contiguous (spans ∷ next ∷ dims) ≡ true
      → spans ≡ first_span spans ∷ []
  unfolding secondary_dimensions_contiguous
  one_first inh c = is_one spans inh.0 (ground arith)

  pub contiguous_rest :
      secondary_dimensions_contiguous (spans ∷ next ∷ dims) ≡ true
      → ((first_span spans).mem ≡ iota (length (first_span spans).mem) 0)
        × (secondary_dimensions_contiguous (next ∷ dims) ≡ true)
  unfolding secondary_dimensions_contiguous
  contiguous_rest c = (is_iota-iota 0 (first_span spans).mem (ground arith), ground arith)

  pub one_first-n_indices :
      AllInhabited (spans ∷ next ∷ dims)
      → secondary_dimensions_contiguous (spans ∷ next ∷ dims) ≡ true
      → n_indices spans ≡ length (first_span spans).mem
  one_first-n_indices inh c = omega (arith, ap n_indices (one_first inh c))

-- With contiguous secondary dimensions there is a chunk for each row span, and no other.
pub choices-only_rows :
    (dims : List SpanPairs)
    → 0 < length dims
    → AllInhabited dims
    → secondary_dimensions_contiguous dims ≡ true
    → choices dims ≡ map (only_rows dims) (row_spans dims)
unfolding row_spans
choices-only_rows [] h inh c = absurd (omega arith)
choices-only_rows (row ∷ []) h inh c = choices-row row
choices-only_rows (spans ∷ next ∷ dims) h inh c =
    let rest = contiguous_rest spans next dims c in
    let p = first_span spans in
    ap (λ s. pair_up s (choices (next ∷ dims))) (one_first spans next dims inh c)
    ∙ append-nil (map (λ t. p ∷ t) (choices (next ∷ dims)))
    ∙ ap (map (λ t. p ∷ t)) (choices-only_rows (next ∷ dims) (omega arith) inh.1 rest.1)
    ∙ map-only_rows p (only_rows (next ∷ dims)) (row_spans (next ∷ dims))

pub n_products-rows :
    (dims : List SpanPairs)
    → 0 < length dims
    → AllInhabited dims
    → secondary_dimensions_contiguous dims ≡ true
    → n_products dims ≡ length (row_spans dims)
unfolding row_spans n_products
n_products-rows [] h inh c = absurd (omega arith)
n_products-rows (row ∷ []) h inh c = omega arith
n_products-rows (spans ∷ next ∷ dims) h inh c =
    let rest = contiguous_rest spans next dims c in
    let len : length spans ≡ 1 = ap length (one_first spans next dims inh c) in
    omega (
      arith,
      ap (λ (n : ℕ). n * n_products (next ∷ dims)) len,
      n_products-rows (next ∷ dims) (omega arith) inh.1 rest.1,
    )

pub stride_loop-one :
    (dims : List SpanPairs) (stride : ℕ)
    → AllInhabited dims
    → secondary_dimensions_contiguous dims ≡ true
    → stride_loop stride dims ≡ stride
unfolding stride_loop
stride_loop-one [] stride inh c = refl
stride_loop-one (row ∷ []) stride inh c = refl
stride_loop-one (spans ∷ next ∷ dims) stride inh c =
    let rest = contiguous_rest spans next dims c in
    let len : length spans ≡ 1 = ap length (one_first spans next dims inh c) in
    stride_loop-one (next ∷ dims) (stride * length spans) inh.1 rest.1
    ∙ omega (arith, ap (λ (n : ℕ). stride * n) len)

set-append :
    (done rest : List Bool) (b v : Bool) → set (done ++ b ∷ rest) (length done) v ≡ done ++ v ∷ rest
set-append [] rest b v = refl
set-append (x ∷ done) rest b v = ap (◌∷◌ x) (set-append done rest b v)

pub rows_loop-flags :
    (rows : SpanPairs) (done : List Bool)
    → rows_loop 1 (length done) rows (done ++ replicate (length rows) true)
      ≡ done ++ map is_memory_contiguous rows
unfolding rows_loop and_range
rows_loop-flags [] done = refl
rows_loop-flags (row ∷ rows) done =
    let k = length done in
    let b = is_memory_contiguous row in
    let rest = replicate (length rows) true in
    let rounds : (k + 1) * 1 - k * 1 ≡ suc zero = omega arith in
    let first : k * 1 ≡ k = omega arith in
    let here : get_or (done ++ true ∷ rest) k false ≡ true =
      let e : k ≡ k + 0 = omega arith in
      ap (λ i. get_or (done ++ true ∷ rest) i false) e
      ∙ get_or-append_right done (true ∷ rest) 0 false in
    let size : k + 1 ≡ length (done ++ b ∷ []) = omega (arith, length-append done (b ∷ [])) in
    let moved : done ++ b ∷ rest ≡ (done ++ b ∷ []) ++ rest =
      sym (append_assoc done (b ∷ []) rest) in
    rw (rounds, first, here, set-append done rest true b, size, moved)
      (rows_loop-flags rows (done ++ b ∷ [])
        ∙ append_assoc done (b ∷ []) (map is_memory_contiguous rows))
