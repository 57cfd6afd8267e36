-- ===== src/Partition/Chunks/Made.antt =====
-- What MakeDataChunks of cpp/arcae/data_partition.cc returns.
use casa_arrow.Base.{
  ℕ, zero, suc, ◌+◌, ◌*◌, ◌≤◌, ◌<◌, ◌≡◌, refl, ◌∙◌, sym, ap, subst, List, [], ◌∷◌, map, length,
  get_or, iota, Bool, false, get_or-map, length-map, arith, ok,
}
use casa_arrow.Base.Words.{wrap}
use casa_arrow.Shape.{ResultShapeData, flat_offset}
use casa_arrow.Partition.{SpanPair, SpanPairs, subspan, concat}
use casa_arrow.Partition.Chunks.{
  SharedChunkData, DataChunk, dimension_spans, min_mem_index_of, chunk_strides_of,
  buffer_strides_of, flat_offset_of, is_contiguous, strides, stride_rounds, min_span, mem_lengths,
  make_data_chunks,
}
use casa_arrow.Partition.Chunks.Slices.{AllOfLength, AllStrided, subspan-concat, chunk_loop-Filled}

length-stride_rounds :
    (rounds product : ℕ) (sizes : List ℕ)
    → rounds ≤ length sizes
    → length (stride_rounds rounds product sizes) ≡ rounds
unfolding stride_rounds
length-stride_rounds zero product sizes h = refl
length-stride_rounds (suc rounds) product [] h = absurd (omega arith)
length-stride_rounds (suc rounds) product (n ∷ sizes) h =
    ap suc (length-stride_rounds rounds (wrap (product * n)) sizes (omega arith))

pub length-strides : (n : ℕ) (sizes : List ℕ) → n ≤ length sizes + 1 → length (strides n sizes) ≡ n
unfolding strides
length-strides zero sizes h = refl
length-strides (suc n) sizes h = ap suc (length-stride_rounds n 1 sizes (omega arith))

-- The values that a chunk has for its spans.
pub record IsChunkOf (data_shape : ResultShapeData) (bs : SpanPairs → List ℕ) (spans : SpanPairs)
    (flag : Bool) (chunk : DataChunk) : Type 0 where
  pub spans_kept : dimension_spans chunk ≡ spans
  pub least : min_mem_index_of chunk ≡ min_span spans
  pub in_chunk : chunk_strides_of chunk ≡ strides (length spans) (mem_lengths spans)
  pub in_buffer : buffer_strides_of chunk ≡ bs spans
  pub starts : flat_offset_of chunk ≡ flat_offset data_shape (min_span spans)
  pub flagged : is_contiguous chunk ≡ flag
  pub dimensions : chunk.shared.ndim ≡ length spans
  pub typed : chunk.shared.casa_dtype ≡ data_shape.dtype

AllOfLength-get_or :
    (n : ℕ) (dims : List SpanPairs) (c : ℕ)
    → AllOfLength n dims
    → c < length dims
    → length (get_or dims c []) ≡ n
AllOfLength-get_or n [] c h lt = absurd (omega arith)
AllOfLength-get_or n (d ∷ dims) zero h lt = h.0
AllOfLength-get_or n (d ∷ dims) (suc c) h lt = AllOfLength-get_or n dims c h.1 (omega arith)

AllOfLength-map :
    (n : ℕ) (f : SpanPairs → List ℕ) (dims : List SpanPairs)
    → ((d : SpanPairs) → length d ≡ n → length (f d) ≡ n)
    → AllOfLength n dims
    → AllOfLength n (map f dims)
AllOfLength-map n f [] k h = tt
AllOfLength-map n f (d ∷ dims) k h = (k d h.0, AllOfLength-map n f dims k h.1)

module _ (data_shape : ResultShapeData) (bs : SpanPairs → List ℕ) (flags : List Bool) (n : ℕ) where
  slice-map :
      (f : SpanPairs → List ℕ) (dims : List SpanPairs) (c : ℕ)
      → ((d : SpanPairs) → length d ≡ n → length (f d) ≡ n)
      → AllOfLength n dims
      → c < length dims
      → subspan (concat (map f dims)) (c * n) n ≡ f (get_or dims c [])
  slice-map f dims c k h lt =
      subspan-concat n (map f dims) c (AllOfLength-map n f dims k h)
        (omega (arith, length-map dims f))
      ∙ get_or-map dims f c [] [] lt

  length-strides_of : (e : SpanPairs) → length (strides (length e) (mem_lengths e)) ≡ length e
  length-strides_of e =
      length-strides (length e) (mem_lengths e)
        (omega (arith, length-map e (λ (p : SpanPair). length p.mem)))

  abbrev strides_of : SpanPairs → List ℕ
  strides_of e = strides (length e) (mem_lengths e)

  -- For chunks of n dimensions whose buffer strides can be computed, MakeDataChunks succeeds with
  -- one chunk for each, in order, and each chunk reads back from the shared vectors its spans,
  -- the least memory index in every dimension, its strides, its offset and its flag, and has their
  -- number of dimensions and the data type of the result.
  pub make_data_chunks-IsChunkOf :
      (dims : List SpanPairs)
      → 0 < length dims
      → AllOfLength n dims
      → AllStrided data_shape bs dims
      → ((d : SpanPairs) → length d ≡ n → length (bs d) ≡ n)
      → (s : SharedChunkData) × (make_data_chunks dims flags data_shape
          ≡ ok (map (λ c. record { chunk_id = c; shared = s }) (iota (length dims) 0)))
        × ((c : ℕ)
            → c < length dims
            → IsChunkOf data_shape bs
                (get_or dims c [])
                (get_or flags c false)
                (record { chunk_id = c; shared = s }))
  unfolding make_data_chunks dimension_spans min_mem_index_of chunk_strides_of buffer_strides_of
      flat_offset_of is_contiguous
  make_data_chunks-IsChunkOf [] some_dims h k b = absurd (omega arith)
  make_data_chunks-IsChunkOf (d ∷ dims) some_dims h k b =
      let all = d ∷ dims in
      let s : SharedChunkData = record {
        nchunks = length all;
        ndim = length d;
        casa_dtype = data_shape.dtype;
        dim_spans = all;
        min_mem_index = concat (map min_span all);
        flat_offsets = map (λ e. flat_offset data_shape (min_span e)) all;
        buffer_strides = concat (map bs all);
        chunk_strides = concat (map (λ e. strides (length e) (mem_lengths e)) all);
        contiguous = flags;
      } in
      (
        s,
        rw (chunk_loop-Filled data_shape bs all _ k) refl,
        λ c lt. record {
          spans_kept = refl;
          least =
              rw h.0 (slice-map min_span all c (λ e l. unfold min_span in length-map e _ ∙ l) h lt);
          in_chunk =
              subst (λ m. subspan s.chunk_strides (c * m) m ≡ strides_of (get_or all c []))
                (sym h.0)
                (slice-map (λ e. strides (length e) (mem_lengths e)) all c
                  (λ e l. length-strides_of e ∙ l) h lt);
          in_buffer = rw h.0 (slice-map bs all c b h lt);
          starts = get_or-map all (λ e. flat_offset data_shape (min_span e)) c [] 0 lt;
          flagged = refl;
          dimensions = h.0 ∙ sym (AllOfLength-get_or n all c h lt);
          typed = refl;
        },
      )
