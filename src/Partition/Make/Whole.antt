-- ===== src/Partition/Make/Whole.antt =====
-- DataPartition::Make of cpp/arcae/data_partition.cc for a fixed result without selected indices.
pub mod Steps
use casa_arrow.Base.{
  ℕ, ◌+◌, ◌-◌, ◌<◌, ◌≡◌, refl, ◌∙◌, sym, ap, ap₂, true, some, List, [], ◌∷◌, map, length, get_or,
  length-map, arith, if◌then◌else◌, ◌==◌, Result, ok, ◌>>=◌,
}
use casa_arrow.Grid.Rank.{IsProper}
use casa_arrow.Sorting.{SortAlgorithm}
use casa_arrow.Shape.{
  ResultShapeData, IPosition, is_fixed, get_shape, max_dimension_size, max_element,
}
use casa_arrow.Selection.{Selection}
use casa_arrow.Partition.{SpanPair}
use casa_arrow.Partition.Product.{cartesian_product}
use casa_arrow.Partition.Product.Choices.{cartesian_product-choices}
use casa_arrow.Partition.Product.Flags.{flags-rows}
use casa_arrow.Partition.Chunks.{DataChunk, SharedChunkData, make_buffer_strides, strides}
use casa_arrow.Partition.Chunks.Made.{IsChunkOf, make_data_chunks-IsChunkOf, length-strides}
use casa_arrow.Partition.Make.{
  DataPartition, get_span_pair, sub_spans_loop, partition_of, make_fixed, make_varying, make,
}
use casa_arrow.Partition.Make.Whole.Steps.{
  whole, SelectsNothing, get_span_pair-whole, whole_dims, sub_spans_loop-whole, choices-whole,
  secondary-whole, get_or-max_element, rows-whole, AllInhabited-whole,
}

module _ (std : SortAlgorithm) (selection : Selection) (result : ResultShapeData)
    (shape : IPosition) (fixed : result.shape ≡ some shape) (dims : length shape ≡ result.ndim)
    (some_dims : 0 < length shape) (proper : IsProper shape)
    (none_selected : SelectsNothing selection result.ndim) where
  product-whole :
      ((cartesian_product (whole_dims shape)).dim_spans ≡ map whole shape ∷ [])
      × ((cartesian_product (whole_dims shape)).contiguous ≡ true ∷ [])
  product-whole =
      let h : 0 < length (whole_dims shape) = omega (arith, length-map shape (λ n. whole n ∷ [])) in
      (
        cartesian_product-choices (whole_dims shape) ∙ choices-whole shape,
        flags-rows (whole_dims shape) h (AllInhabited-whole shape) (secondary-whole shape)
            ∙ rows-whole shape some_dims,
      )

  strided : make_buffer_strides result (map whole shape) ≡ ok (strides (length shape) shape)
  unfolding make_buffer_strides is_fixed
  strided = rw (fixed, length-map shape whole) refl

  max_element-size : max_dimension_size result ≡ max_element shape
  unfolding max_dimension_size is_fixed
  max_element-size = rw fixed refl

  get_shape-fixed : get_shape result ≡ shape
  get_shape-fixed = rw fixed refl

  is_fixed-fixed : is_fixed result ≡ true
  unfolding is_fixed
  is_fixed-fixed = rw fixed refl

  abbrev pair_of : ℕ → ℕ → SpanPair
  pair_of = get_span_pair std selection result.ndim (max_dimension_size result)

  sub_spans-whole :
      sub_spans_loop pair_of (λ d. d == result.ndim - 1) (get_shape result) result.ndim 0
      ≡ ok (whole_dims shape)
  sub_spans-whole =
      let entire = λ (d : ℕ). d == result.ndim - 1 in
      ap₂ (λ sh n. sub_spans_loop pair_of entire sh n 0) get_shape-fixed (sym dims)
      ∙ sub_spans_loop-whole pair_of entire shape shape 0
          (λ k h.
            get_span_pair-whole std selection result.ndim (max_dimension_size result) (0 + k)
              (get_or shape k 0) none_selected (omega arith)
              (omega (arith, max_element-size, get_or-max_element shape k)))
          (λ k. let e : 0 + k ≡ k = omega arith in ap (λ j. get_or shape j 0) e) proper

  make-partition_of :
      make std selection result ≡ partition_of (map whole shape ∷ []) (true ∷ []) result
  unfolding make make_fixed
  make-partition_of =
      ap (λ b. if b then make_fixed pair_of result else make_varying pair_of result) is_fixed-fixed
      ∙ ap
          (λ r. r >>= λ dim_subspans.
            partition_of (cartesian_product dim_subspans).dim_spans
              (cartesian_product dim_subspans).contiguous result)
          sub_spans-whole
      ∙ ap₂ (λ d c. partition_of d c result) product-whole.0 product-whole.1

  -- Where nothing is selected from a result of fixed shape with no empty dimension, Make returns
  -- one chunk, flagged contiguous, that holds all the indices of every dimension.
  pub make-whole :
      (s : SharedChunkData) × (make std selection result
        ≡ ok (record { chunks = record { chunk_id = 0; shared = s } ∷ []; dtype = result.dtype }))
      × IsChunkOf result
          (λ d. strides (length shape) shape)
          (map whole shape)
          true
          (record { chunk_id = 0; shared = s })
  unfolding partition_of
  make-whole =
      let (s, made, each) =
        make_data_chunks-IsChunkOf result (λ d. strides (length shape) shape) (true ∷ [])
          (length shape) (map whole shape ∷ []) (omega arith) (length-map shape whole, tt)
          (strided, tt) (λ d l. length-strides (length shape) shape (omega arith)) in
      let finish = λ (r : Result (List DataChunk)). r >>= λ chunks. ok (finished chunks) in
      (s, make-partition_of ∙ ap finish made, each 0 (omega arith))
    where
      finished : List DataChunk → DataPartition
      finished chunks = record { chunks = chunks; dtype = result.dtype }
