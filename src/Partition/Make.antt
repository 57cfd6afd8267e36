-- ===== src/Partition/Make.antt =====
-- DataPartition::Make of cpp/arcae/data_partition.cc: the chunks of a selection and a result. The
-- id cache, which keeps the indices alive that the spans view, has no counterpart. A result has at
-- least one dimension: for none, `nDim() - 1` would wrap round in the source.
pub mod Whole
use casa_arrow.Base.Words.{wrap}
use casa_arrow.Base.{
  get_elem?, Option, ℕ, zero, suc, ◌+◌, ◌-◌, Bool, true, false, List, [], ◌∷◌, ◌++◌, map, length,
  get_or, iota, if◌then◌else◌, ◌==◌, Result, ok, err, invalid, ◌>>=◌,
}
use casa_arrow.Base.Int.{ℤ, pos}
use casa_arrow.CasaType.{CasaType}
use casa_arrow.Sorting.{SortAlgorithm}
use casa_arrow.Shape.{
  ResultShapeData, IPosition, is_fixed, get_shape, get_row_shape, max_dimension_size, n_rows,
}
use casa_arrow.Selection.{Selection, f_span_of}
use casa_arrow.Partition.{SpanPair, SpanPairs, subspan}
use casa_arrow.Partition.SortedIndices.{make_sorted_indices}
use casa_arrow.Partition.SubSpans.{make_sub_spans}
use casa_arrow.Partition.Product.{cartesian_product, CartesianProductResult}
use casa_arrow.Partition.Chunks.{DataChunk, n_elements_of, make_data_chunks}

pub record DataPartition : Type 0 where
  pub chunks : List DataChunk
  pub dtype : CasaType

-- nChunks, Chunk and nElements
unfoldable pub n_chunks : DataPartition → ℕ
n_chunks p = length p.chunks

unfoldable pub chunk_at : DataPartition → ℕ → Option DataChunk
chunk_at p index = get_elem? p.chunks index

-- The loop of std::accumulate.
unfoldable pub sum_elements : ℕ → List DataChunk → ℕ
sum_elements i [] = i
sum_elements i (v ∷ chunks) = sum_elements (wrap (i + n_elements_of v)) chunks

unfoldable pub n_partition_elements : DataPartition → ℕ
unfolding sum_elements
n_partition_elements p = sum_elements 0 p.chunks

-- GetSpanPair: the sorted selection indices, or the first `dim_size` of the monotonic ones.
unfoldable pub get_span_pair : SortAlgorithm → Selection → ℕ → ℕ → ℕ → ℕ → SpanPair
get_span_pair std selection ndim max_size dim dim_size =
    let monotonic_ids = iota max_size 0 in
    elim (f_span_of selection dim ndim) [
      | ok ids ↦
          let sorted = make_sorted_indices std ids in
          record { disk = sorted.disk; mem = sorted.mem }
      | err e ↦ record {
        disk = map pos (subspan monotonic_ids 0 dim_size);
        mem = subspan monotonic_ids 0 dim_size;
      }
    ]

-- The sub-spans of the dimensions from `d` on, for the rounds that are left.
unfoldable pub sub_spans_loop :
    (ℕ → ℕ → SpanPair) → (ℕ → Bool) → IPosition → ℕ → ℕ → Result (List SpanPairs)
sub_spans_loop pair_of entire shape zero d = ok []
sub_spans_loop pair_of entire shape (suc rounds) d = do
  let pair = pair_of d (get_or shape d 0)
  spans ← make_sub_spans pair.disk pair.mem (entire d)
  dim_subspans ← sub_spans_loop pair_of entire shape rounds (d + 1)
  ok (spans ∷ dim_subspans)

-- A DataPartition of the products so far.
unfoldable pub partition_of : List SpanPairs → List Bool → ResultShapeData → Result DataPartition
partition_of dim_spans contiguous result_shape = do
  chunks ← make_data_chunks dim_spans contiguous result_shape
  ok (record { chunks = chunks; dtype = result_shape.dtype })

unfoldable pub make_fixed : (ℕ → ℕ → SpanPair) → ResultShapeData → Result DataPartition
make_fixed pair_of result_shape = do
  let row_dim = result_shape.ndim - 1
  dim_subspans ←
      sub_spans_loop pair_of (λ d. d == row_dim) (get_shape result_shape) result_shape.ndim 0
  let product = cartesian_product dim_subspans
  partition_of product.dim_spans product.contiguous result_shape

-- The loop over the rows from `r` on. A row's shape is looked up at its place in the row span.
unfoldable pub varying_loop :
    (ℕ → ℕ → SpanPair) → ResultShapeData → SpanPair → ℕ → ℕ → Result CartesianProductResult
varying_loop pair_of result_shape row zero r = ok (record { dim_spans = []; contiguous = [] })
varying_loop pair_of result_shape row (suc rounds) r = do
  let row_dim = result_shape.ndim - 1
  secondary ← sub_spans_loop pair_of (λ d. false) (get_row_shape result_shape r) row_dim 0
  let this_row : SpanPair = record { disk = subspan row.disk r 1; mem = subspan row.mem r 1 }
  let product = cartesian_product (secondary ++ (this_row ∷ []) ∷ [])
  rest ← varying_loop pair_of result_shape row rounds (r + 1)
  ok (record {
    dim_spans = product.dim_spans ++ rest.dim_spans;
    contiguous = product.contiguous ++ rest.contiguous;
  })

unfoldable pub make_varying : (ℕ → ℕ → SpanPair) → ResultShapeData → Result DataPartition
make_varying pair_of result_shape = do
  let nrows = n_rows result_shape
  let row = pair_of (result_shape.ndim - 1) nrows
  product ← varying_loop pair_of result_shape row nrows 0
  if length product.dim_spans == 0
      then err invalid
      else partition_of product.dim_spans product.contiguous result_shape

unfoldable pub make : SortAlgorithm → Selection → ResultShapeData → Result DataPartition
unfolding get_span_pair sub_spans_loop partition_of make_fixed varying_loop make_varying
make std selection result_shape =
    let pair_of = get_span_pair std selection result_shape.ndim (max_dimension_size result_shape) in
    if is_fixed result_shape
    then make_fixed pair_of result_shape
    else make_varying pair_of result_shape
