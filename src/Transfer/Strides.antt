-- ===== src/Transfer/Strides.antt =====
-- The strides with which the loops of cpp/arcae/read_impl.cc and write_impl.cc find elements.
use casa_arrow.Base.{
  ℕ, zero, suc, ◌+◌, ◌-◌, ◌*◌, ◌≤◌, ◌<◌, ◌≡◌, refl, ◌∙◌, sym, ap, ap₂, List, [], ◌∷◌, length,
  get_or, product, arith, some,
}
use casa_arrow.Base.Words.{size_mod, wrap, wrap-lt, wrap-wrap, wrap-add_mul}
use casa_arrow.Grid.{InBox, rank}
use casa_arrow.Grid.Rank.{rank-lt-product, InBox-length}
use casa_arrow.Shape.{ResultShapeData, IPosition, flat_offset}
use casa_arrow.Shape.Offset.{flat_offset-rank, word_value}
use casa_arrow.Partition.{SpanPairs}
use casa_arrow.Partition.Chunks.{strides, stride_rounds, min_element, min_span}
use casa_arrow.Transfer.{chunk_index, buffer_index, mem_sizes}

pub chunk_index-rounds :
    (i c p : ℕ) (pos : List ℕ) (n : ℕ) (sizes : List ℕ)
    → length pos ≡ length sizes
    → wrap (chunk_index i (p ∷ pos) (c ∷ stride_rounds (length pos) c (n ∷ sizes)))
      ≡ wrap (i + c * rank (n ∷ sizes) (p ∷ pos))
unfolding chunk_index stride_rounds rank
chunk_index-rounds i c p [] n [] e = wrap-wrap (i + p * c) ∙ ap wrap (omega arith)
chunk_index-rounds i c p [] n (m ∷ sizes) e = absurd (omega arith)
chunk_index-rounds i c p (q ∷ pos) n [] e = absurd (omega arith)
chunk_index-rounds i c p (q ∷ pos) n (m ∷ sizes) e =
    let c' = wrap (c * n) in
    let r = rank (m ∷ sizes) (q ∷ pos) in
    let one : 1 * c' ≡ c' = omega arith in
    let stride : wrap (1 * c') ≡ c' = ap wrap one ∙ wrap-wrap (c * n) in
    let regroup : i + p * c + c * n * r ≡ i + c * (p + n * r) = omega arith in
    ap
      (λ s.
        wrap (
          chunk_index (wrap (i + p * c)) (q ∷ pos) (s ∷ stride_rounds (length pos) c' (m ∷ sizes))))
      stride
    ∙ chunk_index-rounds (wrap (i + p * c)) c' q pos m sizes (omega arith)
    ∙ wrap-add_mul (i + p * c) (c * n) r
    ∙ ap wrap regroup

chunk_index-lt : (i : ℕ) (pos ss : List ℕ) → i < size_mod → chunk_index i pos ss < size_mod
unfolding chunk_index
chunk_index-lt i [] ss h = h
chunk_index-lt i (p ∷ pos) [] h = h
chunk_index-lt i (p ∷ pos) (s ∷ ss) h =
    chunk_index-lt (wrap (i + p * s)) pos ss (wrap-lt (i + p * s))

-- The index of a position in a box whose elements a size_t can count.
pub chunk_index-rank :
    (sizes pos : List ℕ)
    → InBox sizes pos
    → product sizes ≤ size_mod
    → chunk_index 0 pos (strides (length sizes) sizes) ≡ rank sizes pos
unfolding chunk_index strides rank
chunk_index-rank [] [] h small = refl
chunk_index-rank [] (p ∷ pos) h small = absurd h
chunk_index-rank (n ∷ sizes) [] h small = absurd h
chunk_index-rank (n ∷ sizes) (p ∷ pos) h small =
    let len = InBox-length sizes pos h.1 in
    word_value (chunk_index 0 (p ∷ pos) (1 ∷ stride_rounds (length sizes) 1 (n ∷ sizes)))
      (p + n * rank sizes pos)
      (chunk_index-lt 0 (p ∷ pos) (1 ∷ stride_rounds (length sizes) 1 (n ∷ sizes)) (omega arith))
      (omega (arith, rank-lt-product (n ∷ sizes) (p ∷ pos) h))
      (ap (λ l. wrap (chunk_index 0 (p ∷ pos) (1 ∷ stride_rounds l 1 (n ∷ sizes)))) (sym len)
        ∙ chunk_index-rounds 0 1 p pos n sizes len
        ∙ ap wrap (omega arith))

-- The memory index of the element at a position of a chunk.
abbrev pub memory_index : SpanPairs → List ℕ → List ℕ
memory_index (span ∷ spans) (p ∷ pos) = get_or span.mem p 0 ∷ memory_index spans pos
memory_index _ _ = []

-- Its distance from the least one, in every dimension.
abbrev distances : SpanPairs → List ℕ → List ℕ
distances (span ∷ spans) (p ∷ pos) =
    (get_or span.mem p 0 - min_element span.mem) ∷ distances spans pos
distances _ _ = []

distances-length :
    (spans : SpanPairs) (pos : List ℕ)
    → InBox (mem_sizes spans) pos
    → length (distances spans pos) ≡ length spans
distances-length [] [] h = refl
distances-length [] (p ∷ pos) h = absurd h
distances-length (s ∷ spans) [] h = absurd h
distances-length (s ∷ spans) (p ∷ pos) h = ap suc (distances-length spans pos h.1)

buffer_index-chunk_index :
    (o : ℕ) (spans : SpanPairs) (pos ss : List ℕ)
    → InBox (mem_sizes spans) pos
    → buffer_index o spans pos (min_span spans) ss ≡ chunk_index o (distances spans pos) ss
unfolding buffer_index chunk_index min_span
buffer_index-chunk_index o [] [] ss h = refl
buffer_index-chunk_index o [] (p ∷ pos) ss h = absurd h
buffer_index-chunk_index o (span ∷ spans) [] ss h = absurd h
buffer_index-chunk_index o (span ∷ spans) (p ∷ pos) [] h = refl
buffer_index-chunk_index o (span ∷ spans) (p ∷ pos) (s ∷ ss) h =
    buffer_index-chunk_index (wrap (o + (get_or span.mem p 0 - min_element span.mem) * s)) spans pos
      ss h.1

pub min_element-le : (mem : List ℕ) (p : ℕ) → p < length mem → min_element mem ≤ get_or mem p 0
unfolding min_element
min_element-le [] p h = absurd (omega arith)
min_element-le (m ∷ []) zero h = omega arith
min_element-le (m ∷ []) (suc p) h = absurd (omega arith)
min_element-le (m ∷ n ∷ mem) zero h = omega arith
min_element-le (m ∷ n ∷ mem) (suc p) h = omega (arith, min_element-le (n ∷ mem) p (omega arith))

-- The least index and the distance from it make up the memory index.
rank-distances :
    (spans : SpanPairs) (pos : List ℕ) (shape : IPosition)
    → InBox (mem_sizes spans) pos
    → InBox shape (memory_index spans pos)
    → (rank shape (min_span spans) + rank shape (distances spans pos)
        ≡ rank shape (memory_index spans pos))
      × InBox shape (min_span spans)
      × InBox shape (distances spans pos)
unfolding rank min_span
rank-distances [] [] [] h k = (refl, tt, tt)
rank-distances [] [] (n ∷ shape) h k = absurd k
rank-distances [] (p ∷ pos) shape h k = absurd h
rank-distances (span ∷ spans) [] shape h k = absurd h
rank-distances (span ∷ spans) (p ∷ pos) [] h k = absurd k
rank-distances (span ∷ spans) (p ∷ pos) (n ∷ shape) h k =
    let (e, mins, ds) = rank-distances spans pos shape h.1 k.1 in
    let le = min_element-le span.mem p h.0 in
    (
      omega (arith, le, ap (λ (t : ℕ). n * t) e),
      (omega (arith, le, k.0), mins),
      (omega (arith, le, k.0), ds),
    )

module _ (result : ResultShapeData) (shape : IPosition) (fixed : result.shape ≡ some shape) where
  -- In a result of fixed shape, whose elements a size_t can count, the transpose looks for the
  -- element at a position of a chunk at FlatOffset of its memory index: the offset of the chunk,
  -- which is FlatOffset of its least indices, and the sum over the buffer strides make it up, where
  -- that memory index lies in the shape.
  pub buffer_index-flat_offset :
      (spans : SpanPairs) (pos : List ℕ)
      → length shape ≡ result.ndim
      → product shape ≤ size_mod
      → InBox (mem_sizes spans) pos
      → InBox shape (memory_index spans pos)
      → flat_offset result (min_span spans)
          + buffer_index 0 spans pos (min_span spans) (strides (length spans) shape)
        ≡ flat_offset result (memory_index spans pos)
  buffer_index-flat_offset spans pos dims small h k =
      let (e, mins, ds) = rank-distances spans pos shape h k in
      let len : length spans ≡ length shape =
        sym (distances-length spans pos h) ∙ InBox-length shape (distances spans pos) ds in
      ap₂ ◌+◌ (flat_offset-rank result shape fixed (min_span spans) dims small mins) (
        buffer_index-chunk_index 0 spans pos (strides (length spans) shape) h
        ∙ ap (λ n. chunk_index 0 (distances spans pos) (strides n shape)) len
        ∙ chunk_index-rank shape (distances spans pos) ds small)
      ∙ e
      ∙ sym (flat_offset-rank result shape fixed (memory_index spans pos) dims small k)
