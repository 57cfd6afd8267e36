-- ===== src/Partition/Chunks/Slices.antt =====
-- The slices of the shared vectors in cpp/arcae/data_partition.h.
use mathlib.Core.List.{append_assoc, append-nil}
use casa_arrow.Base.{
  ℕ, zero, suc, ◌+◌, ◌*◌, ◌<◌, ◌≡◌, refl, ◌∙◌, ap, List, [], ◌∷◌, ◌++◌, map, length, take, drop,
  get_or, arith, ok,
}
use casa_arrow.Shape.{ResultShapeData, flat_offset}
use casa_arrow.Partition.{SpanPairs, subspan, concat}
use casa_arrow.Partition.Chunks.{
  make_buffer_strides, strides, min_span, mem_lengths, Filled, chunk_loop,
}

module _ {ℓ} {A : Type ℓ} where
  -- Every list has n elements.
  abbrev pub AllOfLength : ℕ → List (List A) → Type 0
  AllOfLength n [] = Unit
  AllOfLength n (row ∷ rows) = (length row ≡ n) × AllOfLength n rows

  drop-append : (xs ys : List A) (k : ℕ) → drop (length xs + k) (xs ++ ys) ≡ drop k ys
  drop-append [] ys k = let e : 0 + k ≡ k = omega arith in ap (λ n. drop n ys) e
  drop-append (x ∷ xs) ys k =
      let e : suc (length xs) + k ≡ suc (length xs + k) = omega arith in
      ap (λ n. drop n (x ∷ xs ++ ys)) e ∙ drop-append xs ys k

  take-append : (xs ys : List A) → take (length xs) (xs ++ ys) ≡ xs
  take-append [] ys = refl
  take-append (x ∷ xs) ys = ap (◌∷◌ x) (take-append xs ys)

  -- The c-th slice of n of a concatenation of rows of n is its c-th row.
  pub subspan-concat :
      (n : ℕ) (rows : List (List A)) (c : ℕ)
      → AllOfLength n rows
      → c < length rows
      → subspan (concat rows) (c * n) n ≡ get_or rows c []
  subspan-concat n [] c h lt = absurd (omega arith)
  subspan-concat n (row ∷ rows) zero h lt =
      let e : 0 * n ≡ 0 = omega arith in rw (e, ← h.0) (take-append row (concat rows))
  subspan-concat n (row ∷ rows) (suc c) h lt =
      let e : suc c * n ≡ length row + c * n = omega arith in
      rw (e, drop-append row (concat rows) (c * n)) (subspan-concat n rows c h.1 (omega arith))

module _ (data_shape : ResultShapeData) (bs : SpanPairs → List ℕ) where
  -- The buffer strides of every chunk can be computed.
  abbrev pub AllStrided : List SpanPairs → Type 0
  AllStrided [] = Unit
  AllStrided (d ∷ dims) = (make_buffer_strides data_shape d ≡ ok (bs d)) × AllStrided dims

  abbrev pub strides_of : SpanPairs → List ℕ
  strides_of d = strides (length d) (mem_lengths d)

  pub chunk_loop-Filled :
      (dims : List SpanPairs) (f : Filled)
      → AllStrided dims
      → chunk_loop data_shape dims f
        ≡ ok (record {
          mins = f.mins ++ concat (map min_span dims);
          offsets = f.offsets ++ map (λ d. flat_offset data_shape (min_span d)) dims;
          buffer = f.buffer ++ concat (map bs dims);
          chunk = f.chunk ++ concat (map strides_of dims);
        })
  unfolding chunk_loop
  chunk_loop-Filled [] f h =
      rw (append-nil f.mins, append-nil f.offsets, append-nil f.buffer, append-nil f.chunk) refl
  chunk_loop-Filled (d ∷ dims) f h = rw h.0 (
      chunk_loop-Filled dims _ h.1
      ∙ rw
          (
            append_assoc f.mins (min_span d) (concat (map min_span dims)),
            append_assoc f.offsets (flat_offset data_shape (min_span d) ∷ [])
                (map (λ e. flat_offset data_shape (min_span e)) dims),
            append_assoc f.buffer (bs d) (concat (map bs dims)),
            append_assoc f.chunk (strides_of d) (concat (map strides_of dims)),
          )
          refl)
