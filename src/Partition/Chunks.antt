-- ===== src/Partition/Chunks.antt =====
-- SharedChunkData and DataChunk of cpp/arcae/data_partition.h, and MakeDataChunks of
-- cpp/arcae/data_partition.cc. The vectors of SharedChunkData hold the values of all chunks one
-- after the other; the loop fills them from front to back. The id cache, which only keeps the
-- values behind the spans alive, has no counterpart, nor has the scratch space of the transpose.
pub mod Slices
pub mod Made
use casa_arrow.Base.{
  ℕ, zero, suc, ◌+◌, ◌-◌, ◌*◌, min, Bool, true, false, List, [], ◌∷◌, ◌++◌, map, length, get_or,
  iota, if◌then◌else◌, ◌==◌, ◌||◌, Result, ok, err, invalid, ◌>>=◌,
}
use casa_arrow.Base.Int.{ℤ, pos, is_negative}
use casa_arrow.Base.Words.{wrap}
use casa_arrow.CasaType.{CasaType, casa_data_type_size}
use casa_arrow.Shape.{ResultShapeData, IPosition, is_fixed, get_shape, get_row_shape, flat_offset}
use casa_arrow.Partition.{SpanPair, SpanPairs, subspan, disk_at}
use casa_arrow.Partition.Product.{no_span}

pub record SharedChunkData : Type 0 where
  pub nchunks : ℕ
  pub ndim : ℕ
  pub casa_dtype : CasaType
  pub dim_spans : List SpanPairs
  pub min_mem_index : List ℕ
  pub flat_offsets : List ℕ
  pub buffer_strides : List ℕ
  pub chunk_strides : List ℕ
  pub contiguous : List Bool

pub record DataChunk : Type 0 where
  pub chunk_id : ℕ
  pub shared : SharedChunkData

-- The accessors of a chunk, which go through those of the shared data at its id.
unfoldable pub dimension_spans : DataChunk → SpanPairs
dimension_spans c = get_or c.shared.dim_spans c.chunk_id []

-- absl::MakeSpan(&values[chunk * ndim_], ndim_)
abbrev pub slice_of : DataChunk → List ℕ → List ℕ
slice_of c values = subspan values (c.chunk_id * c.shared.ndim) c.shared.ndim

unfoldable pub min_mem_index_of : DataChunk → List ℕ
min_mem_index_of c = slice_of c c.shared.min_mem_index

unfoldable pub chunk_strides_of : DataChunk → List ℕ
chunk_strides_of c = slice_of c c.shared.chunk_strides

unfoldable pub buffer_strides_of : DataChunk → List ℕ
buffer_strides_of c = slice_of c c.shared.buffer_strides

unfoldable pub flat_offset_of : DataChunk → ℕ
flat_offset_of c = get_or c.shared.flat_offsets c.chunk_id 0

unfoldable pub is_contiguous : DataChunk → Bool
is_contiguous c = get_or c.shared.contiguous c.chunk_id false

-- Disk and Mem at a dimension
unfoldable pub disk_span : DataChunk → ℕ → List ℤ
unfolding dimension_spans
disk_span c dim = (get_or (dimension_spans c) dim no_span).disk

unfoldable pub mem_span : DataChunk → ℕ → List ℕ
unfolding dimension_spans
mem_span c dim = (get_or (dimension_spans c) dim no_span).mem

-- std::accumulate with i * v.disk.size()
unfoldable pub accumulate_sizes : ℕ → SpanPairs → ℕ
accumulate_sizes i [] = i
accumulate_sizes i (v ∷ spans) = accumulate_sizes (wrap (i * length v.disk)) spans

unfoldable pub n_elements_of : DataChunk → ℕ
unfolding dimension_spans accumulate_sizes
n_elements_of c = accumulate_sizes 1 (dimension_spans c)

-- nBytes, with the size of a casacore::String
unfoldable pub n_bytes : ℕ → DataChunk → Result ℕ
unfolding n_elements_of
n_bytes string_size c = casa_data_type_size string_size c.shared.casa_dtype >>= λ nbytes.
    ok (wrap (nbytes * n_elements_of c))

unfoldable pub shape_of : DataChunk → IPosition
unfolding dimension_spans
shape_of c = map (λ (p : SpanPair). length p.disk) (dimension_spans c)

unfoldable pub any_negative : List ℤ → Bool
any_negative [] = false
any_negative (i ∷ disk) = if is_negative i then true else any_negative disk

unfoldable pub any_span_negative : SpanPairs → Bool
any_span_negative [] = false
any_span_negative (span ∷ spans) = if any_negative span.disk then true else any_span_negative spans

unfoldable pub is_empty_chunk : DataChunk → Bool
unfolding dimension_spans any_negative any_span_negative n_elements_of
is_empty_chunk c = if any_span_negative (dimension_spans c) then true else n_elements_of c == 0

-- A casacore Slicer with its first and last position in each dimension.
pub record Slicer : Type 0 where
  pub start : List ℤ
  pub end : List ℤ

abbrev pub last_disk : SpanPair → ℤ
last_disk p = disk_at p.disk (length p.disk - 1)

unfoldable pub row_slicer : DataChunk → Slicer
unfolding dimension_spans
row_slicer c =
    let row_span = get_or (dimension_spans c) (c.shared.ndim - 1) no_span in
    record { start = disk_at row_span.disk 0 ∷ []; end = last_disk row_span ∷ [] }

-- The rows of ReferenceRows
unfoldable pub reference_rows : DataChunk → List ℤ
unfolding dimension_spans
reference_rows c = (get_or (dimension_spans c) (c.shared.ndim - 1) no_span).disk

unfoldable pub section_slicer : DataChunk → Slicer
unfolding dimension_spans
section_slicer c =
    let spans = subspan (dimension_spans c) 0 (c.shared.ndim - 1) in
    record { start = map (λ (p : SpanPair). disk_at p.disk 0) spans; end = map last_disk spans }

-- The rounds of a stride loop: product *= sizes[d - 1]; strides[d] *= product, over ones.
unfoldable pub stride_rounds : ℕ → ℕ → List ℕ → List ℕ
stride_rounds zero product sizes = []
stride_rounds (suc rounds) product [] = []
stride_rounds (suc rounds) product (n ∷ sizes) =
    let product' = wrap (product * n) in wrap (1 * product') ∷ stride_rounds rounds product' sizes

unfoldable pub strides : ℕ → List ℕ → List ℕ
unfolding stride_rounds
strides zero sizes = []
strides (suc rounds) sizes = 1 ∷ stride_rounds rounds 1 sizes

-- The buffer strides of a chunk.
unfoldable pub make_buffer_strides : ResultShapeData → SpanPairs → Result (List ℕ)
unfolding strides
make_buffer_strides data_shape dim_span =
    let ndim = length dim_span in
    let row_span = (get_or dim_span (ndim - 1) no_span).mem in
    if is_fixed data_shape
    then ok (strides ndim (get_shape data_shape))
    else if length row_span == 1
    then ok (strides ndim (get_row_shape data_shape (get_or row_span 0 0)))
    else err invalid

-- *std::min_element, or 0
unfoldable pub min_element : List ℕ → ℕ
min_element [] = 0
min_element (m ∷ []) = m
min_element (m ∷ n ∷ mem) = min m (min_element (n ∷ mem))

abbrev pub mem_lengths : SpanPairs → List ℕ
mem_lengths dim_span = map (λ (p : SpanPair). length p.mem) dim_span

unfoldable pub min_span : SpanPairs → List ℕ
unfolding min_element
min_span dim_span = map (λ (p : SpanPair). min_element p.mem) dim_span

-- The vectors as far as they are filled.
pub record Filled : Type 0 where
  pub mins : List ℕ
  pub offsets : List ℕ
  pub buffer : List ℕ
  pub chunk : List ℕ

unfoldable pub chunk_loop : ResultShapeData → List SpanPairs → Filled → Result Filled
chunk_loop data_shape [] f = ok f
chunk_loop data_shape (dim_span ∷ dim_spans) f = do
  buffer ← make_buffer_strides data_shape dim_span
  chunk_loop data_shape dim_spans (record {
    mins = f.mins ++ min_span dim_span;
    offsets = f.offsets ++ flat_offset data_shape (min_span dim_span) ∷ [];
    buffer = f.buffer ++ buffer;
    chunk = f.chunk ++ strides (length dim_span) (mem_lengths dim_span);
  })

unfoldable pub make_data_chunks :
    List SpanPairs → List Bool → ResultShapeData → Result (List DataChunk)
unfolding make_buffer_strides min_span chunk_loop strides
make_data_chunks [] contiguous data_shape = ok []
make_data_chunks (first ∷ rest) contiguous data_shape = do
  f ←
      chunk_loop data_shape (first ∷ rest)
        (record { mins = []; offsets = []; buffer = []; chunk = [] })
  let nchunks = length (first ∷ rest)
  let shared : SharedChunkData = record {
    nchunks = nchunks;
    ndim = length first;
    casa_dtype = data_shape.dtype;
    dim_spans = first ∷ rest;
    min_mem_index = f.mins;
    flat_offsets = f.offsets;
    buffer_strides = f.buffer;
    chunk_strides = f.chunk;
    contiguous = contiguous;
  }
  ok (map (λ chunk. record { chunk_id = chunk; shared = shared }) (iota nchunks 0))
