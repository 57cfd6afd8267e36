-- ===== src/Transfer/Contiguous.antt =====
-- The contiguous branches of DoRead and DoWrite in cpp/arcae/read_impl.cc and write_impl.cc against
-- their transposes.
use casa_arrow.Base.{
  ℕ, zero, suc, ◌+◌, ◌-◌, ◌*◌, ◌≤◌, ◌<◌, ◌≡◌, refl, ◌∙◌, sym, ap, ap₂, subst, Option, some, none,
  List, [], ◌∷◌, map, length, get_or, product, arith, drop, take, iota, get_or-iota, length-map,
  length-replicate, replicate,
}
use casa_arrow.Base.Words.{size_mod, wrap}
use casa_arrow.Grid.{InBox, rank, origin}
use casa_arrow.Grid.Rank.{IsProper, origin-InBox, rank-origin}
use casa_arrow.Shape.{IPosition}
use casa_arrow.Partition.{SpanPair, SpanPairs}
use casa_arrow.Partition.Product.Contiguity.{IsOnePiece, IsWhole}
use casa_arrow.Partition.Chunks.{strides, stride_rounds, min_element, min_span, mem_lengths}
use casa_arrow.Transfer.{
  chunk_index, buffer_index, mem_sizes, disk_sizes, ChunkView, transfer_loop, read_transposed,
  read_contiguous, write_transposed, write_contiguous, copy_block, view_block,
}
use casa_arrow.Transfer.Blocks.{transfer_loop-copy_block, transfer_loop-view_block, behind}
use casa_arrow.Transfer.Strides.{chunk_index-rank}

pub min_element-iota : (n start : ℕ) → min_element (iota (suc n) start) ≡ start
unfolding min_element
min_element-iota zero start = refl
min_element-iota (suc n) start = omega (arith, min_element-iota n (suc start))

-- In consecutive indices, the distance from the least is the place.
iota_distance : (n start p : ℕ) → p < n → get_or (iota n start) p 0 - min_element (iota n start) ≡ p
iota_distance zero start p h = absurd (omega arith)
iota_distance (suc n) start p h =
    omega (arith, min_element-iota n start, get_or-iota (suc n) start p 0 h)

mem_distance :
    (mem : List ℕ) (start p : ℕ)
    → mem ≡ iota (length mem) start
    → p < length mem
    → get_or mem p 0 - min_element mem ≡ p
mem_distance mem start p e h =
    subst (λ m. get_or m p 0 - min_element m ≡ p) (sym e) (iota_distance (length mem) start p h)

buffer_index-IsOnePiece :
    (o : ℕ) (spans : SpanPairs) (pos ss : List ℕ)
    → IsOnePiece spans
    → InBox (mem_sizes spans) pos
    → buffer_index o spans pos (min_span spans) ss ≡ chunk_index o pos ss
unfolding buffer_index chunk_index min_span
buffer_index-IsOnePiece o [] pos ss one h = absurd one
buffer_index-IsOnePiece o (row ∷ []) [] ss one h = absurd h
buffer_index-IsOnePiece o (row ∷ []) (p ∷ q ∷ pos) ss one h = absurd h.1
buffer_index-IsOnePiece o (row ∷ []) (p ∷ []) [] one h = refl
buffer_index-IsOnePiece o (row ∷ []) (p ∷ []) (s ∷ ss) one h =
    rw (mem_distance row.mem one.0 p one.1 h.0) refl
buffer_index-IsOnePiece o (span ∷ next ∷ spans) [] ss one h = absurd h
buffer_index-IsOnePiece o (span ∷ next ∷ spans) (p ∷ pos) [] one h = refl
buffer_index-IsOnePiece o (span ∷ next ∷ spans) (p ∷ pos) (s ∷ ss) one h =
    ap (λ d. buffer_index (wrap (o + d * s)) (next ∷ spans) pos (min_span (next ∷ spans)) ss)
      (mem_distance span.mem 0 p one.0 h.0)
    ∙ buffer_index-IsOnePiece (wrap (o + p * s)) (next ∷ spans) pos ss one.1 h.1

stride_rounds-IsWhole :
    (c : ℕ) (shape : IPosition) (p : SpanPair) (spans : SpanPairs)
    → IsWhole shape (p ∷ spans)
    → stride_rounds (length spans) c shape
      ≡ stride_rounds (length spans) c (mem_lengths (p ∷ spans))
unfolding stride_rounds
stride_rounds-IsWhole c shape p [] w = refl
stride_rounds-IsWhole c [] p (q ∷ spans) w = absurd w
stride_rounds-IsWhole c (n ∷ shape) p (q ∷ spans) w = rw w.0 (
    ap (◌∷◌ (wrap (1 * wrap (c * length p.mem))))
      (stride_rounds-IsWhole (wrap (c * length p.mem)) shape q spans w.1))

strides-IsWhole :
    (shape : IPosition) (spans : SpanPairs)
    → IsWhole shape spans
    → strides (length spans) shape ≡ strides (length spans) (mem_lengths spans)
unfolding strides
strides-IsWhole shape [] w = refl
strides-IsWhole shape (p ∷ spans) w = ap (◌∷◌ 1) (stride_rounds-IsWhole 1 shape p spans w)

start-origin : (spans : SpanPairs) → map (λ (p : SpanPair). 0) spans ≡ origin (mem_sizes spans)
unfolding origin
start-origin [] = refl
start-origin (p ∷ spans) = ap (◌∷◌ 0) (start-origin spans)

-- What MakeDataChunks stores for a chunk of a result, with the offset left open.
pub record IsViewOf (shape : IPosition) (chunk : ChunkView) : Type 0 where
  pub least : chunk.min_mem ≡ min_span chunk.spans
  pub in_chunk : chunk.chunk_strides ≡ strides (length chunk.spans) (mem_lengths chunk.spans)
  pub in_buffer : chunk.buffer_strides ≡ strides (length chunk.spans) shape

module _ (shape : IPosition) (chunk : ChunkView) (view : IsViewOf shape chunk)
    (one : IsOnePiece chunk.spans) (whole : IsWhole shape chunk.spans)
    (proper : IsProper (mem_sizes chunk.spans))
    (small : product (mem_sizes chunk.spans) ≤ size_mod) where
  in_chunk-rank :
      (pos : List ℕ)
      → InBox (mem_sizes chunk.spans) pos
      → chunk_index 0 pos chunk.chunk_strides ≡ rank (mem_sizes chunk.spans) pos
  in_chunk-rank pos h =
      ap (chunk_index 0 pos) view.in_chunk
      ∙ ap (λ n. chunk_index 0 pos (strides n (mem_sizes chunk.spans)))
          (sym (length-map chunk.spans (λ (p : SpanPair). length p.mem)))
      ∙ chunk_index-rank (mem_sizes chunk.spans) pos h small

  in_buffer-rank :
      (pos : List ℕ)
      → InBox (mem_sizes chunk.spans) pos
      → chunk.offset + buffer_index 0 chunk.spans pos chunk.min_mem chunk.buffer_strides
        ≡ chunk.offset + rank (mem_sizes chunk.spans) pos
  in_buffer-rank pos h =
      ap (λ i. chunk.offset + i)
        (ap₂ (buffer_index 0 chunk.spans pos) view.least
            (view.in_buffer ∙ strides-IsWhole shape chunk.spans whole ∙ sym view.in_chunk)
          ∙ buffer_index-IsOnePiece 0 chunk.spans pos chunk.chunk_strides one h
          ∙ in_chunk-rank pos h)

  start_inside : InBox (mem_sizes chunk.spans) (map (λ (p : SpanPair). 0) chunk.spans)
  start_inside =
      subst (InBox (mem_sizes chunk.spans)) (sym (start-origin chunk.spans))
        (origin-InBox (mem_sizes chunk.spans) proper)

  start_rank : rank (mem_sizes chunk.spans) (map (λ (p : SpanPair). 0) chunk.spans) ≡ 0
  start_rank =
      ap (rank (mem_sizes chunk.spans)) (start-origin chunk.spans)
      ∙ rank-origin (mem_sizes chunk.spans)

  module _ {ℓ} {A : Type ℓ} where
    -- For a chunk that is one piece of the result and spans its secondary dimensions, with no size
    -- zero, no more elements than a size_t counts, and the strides that MakeDataChunks gives it, the
    -- transpose of DoRead and its contiguous branch
    -- have the same effect on every buffer, where as many cells are read as the chunk has
    -- elements, and the fuel is at least their number.
    pub read_contiguous-read_transposed :
        (fuel : ℕ) (cells buffer : List A)
        → length cells ≡ product (mem_sizes chunk.spans)
        → product (mem_sizes chunk.spans) ≤ fuel
        → read_contiguous chunk cells buffer ≡ read_transposed fuel chunk cells buffer
    unfolding read_contiguous read_transposed
    read_contiguous-read_transposed fuel cells buffer len enough =
        let sizes = mem_sizes chunk.spans in
        let start = map (λ (p : SpanPair). 0) chunk.spans in
        let at : chunk.offset + rank sizes start ≡ chunk.offset = omega (arith, start_rank) in
        sym (
          transfer_loop-copy_block sizes (λ pos. chunk_index 0 pos chunk.chunk_strides)
            (λ pos.
              chunk.offset + buffer_index 0 chunk.spans pos chunk.min_mem chunk.buffer_strides)
            cells chunk.offset in_chunk-rank in_buffer-rank len fuel start buffer start_inside
            (omega arith)
          ∙ ap (λ a. copy_block a (drop (rank sizes start) cells) buffer) at
          ∙ ap (λ r. copy_block chunk.offset (drop r cells) buffer) start_rank)

    -- For a chunk that is one piece of the result and spans its secondary dimensions, with the
    -- strides that MakeDataChunks gives it, no size zero, no more elements than a size_t counts, and
    -- as many disk as memory indices in each dimension, the
    -- transpose of DoWrite and its contiguous branch hand the same elements to casacore, where the
    -- fuel is at least their number.
    pub write_contiguous-write_transposed :
        (fuel : ℕ) (empty : A) (buffer : List A)
        → disk_sizes chunk.spans ≡ mem_sizes chunk.spans
        → product (mem_sizes chunk.spans) ≤ fuel
        → write_contiguous chunk buffer ≡ write_transposed fuel chunk empty buffer
    unfolding write_contiguous write_transposed
    write_contiguous-write_transposed fuel empty buffer same enough =
        let sizes = mem_sizes chunk.spans in
        let start = map (λ (p : SpanPair). 0) chunk.spans in
        let n = product sizes in
        let at : chunk.offset + rank sizes start ≡ chunk.offset = omega (arith, start_rank) in
        let from = λ (pos : List ℕ).
          chunk.offset + buffer_index 0 chunk.spans pos chunk.min_mem chunk.buffer_strides in
        let to = λ (pos : List ℕ). chunk_index 0 pos chunk.chunk_strides in
        sym (
          ap (λ d. transfer_loop fuel sizes from to buffer start (replicate (product d) empty)) same
          ∙ transfer_loop-view_block sizes from to buffer chunk.offset in_buffer-rank in_chunk-rank
              fuel n start (replicate n empty) start_inside (length-replicate n empty)
              (omega (arith, start_rank)) enough
          ∙ ap (λ a. behind (take (rank sizes start) (replicate n empty)) (view_block a n buffer))
              at
          ∙ ap (λ r. behind (take r (replicate n empty)) (view_block chunk.offset n buffer))
              start_rank
          ∙ behind-nil (view_block chunk.offset n buffer)
          ∙ ap (λ d. view_block chunk.offset (product d) buffer) (sym same))
      where
        behind-nil : (o : Option (List A)) → behind [] o ≡ o
        behind-nil none = refl
        behind-nil (some rest) = refl
