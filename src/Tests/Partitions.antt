-- ===== src/Tests/Partitions.antt =====
-- Runs of cpp/arcae/data_partition.cc and cpp/arcae/selection.h.
use casa_arrow.Base.{
  ℕ, zero, suc, ◌<◌, ◌≡◌, refl, true, false, some, none, List, [], ◌∷◌, map, length, iota, get_or,
  arith, ok, index_error,
}
use casa_arrow.Base.Int.{ℤ, pos, negsuc}
use casa_arrow.CasaType.{tp_int}
use casa_arrow.Sorting.Insertion.{by_insertion}
use casa_arrow.Selection.{
  Index, Selection, Ids, borrowed_ids, converted_ids, c_span, f_span, from_args, from_init, size,
}
use casa_arrow.Selection.Lookup.{
  found, c_span-from_init, f_span-from_args, c_span-eq-f_span, f_span_of-none,
}
use casa_arrow.Shape.{ResultShapeData, IPosition, is_fixed}
use casa_arrow.Partition.{SpanPair, SpanPairs}
use casa_arrow.Partition.SortedIndices.{
  IsArgsort, make_sorted_indices, make_sorted_indices-IsArgsort,
}
use casa_arrow.Partition.SubSpans.{make_sub_spans}
use casa_arrow.Partition.SubSpans.Runs.{Ascends, HasDuplicate}
use casa_arrow.Partition.SubSpans.Outcome.{Outcome, IsPartitioned, make_sub_spans-IsPartitioned}
use casa_arrow.Partition.Product.{
  cartesian_product, n_products, secondary_dimensions_contiguous, is_iota, is_memory_contiguous,
  ascends_by_one, row_spans, stride_loop, rows_loop, and_range, extend_product, product_loop,
}
use casa_arrow.Partition.Product.Choices.{choices, cartesian_product-choices}
use casa_arrow.Partition.Product.Contiguity.{IsOnePiece, IsWhole, n_indices}
use casa_arrow.Partition.Product.Flags.{cartesian_product-length, cartesian_product-IsOnePiece}
use casa_arrow.Partition.Chunks.{
  SharedChunkData, make_data_chunks, make_buffer_strides, strides, stride_rounds,
}
use casa_arrow.Partition.Chunks.Made.{IsChunkOf, make_data_chunks-IsChunkOf}
use casa_arrow.Partition.Make.{make}
use casa_arrow.Partition.Make.Whole.{make-whole}
use casa_arrow.Partition.Make.Whole.Steps.{whole}

abbrev ids : List ℤ
ids = negsuc 0 ∷ pos 2 ∷ pos 3 ∷ []

ids-Ascends : Ascends ids
ids-Ascends zero zero h lt = omega arith
ids-Ascends zero (suc zero) h lt = omega arith
ids-Ascends zero (suc (suc zero)) h lt = omega arith
ids-Ascends (suc zero) (suc zero) h lt = omega arith
ids-Ascends (suc zero) (suc (suc zero)) h lt = omega arith
ids-Ascends (suc (suc zero)) (suc (suc zero)) h lt = omega arith
ids-Ascends (suc i) zero h lt = absurd (omega arith)
ids-Ascends (suc (suc i)) (suc zero) h lt = absurd (omega arith)
ids-Ascends i (suc (suc (suc j))) h lt = absurd (omega arith)
ids-Ascends (suc (suc (suc i))) (suc (suc zero)) h lt = absurd (omega arith)

make_sub_spans-IsPartitioned_example :
    Outcome
      (IsPartitioned false ids (2 ∷ 0 ∷ 1 ∷ []))
      (HasDuplicate ids)
      (make_sub_spans ids (2 ∷ 0 ∷ 1 ∷ []) false)
make_sub_spans-IsPartitioned_example =
    make_sub_spans-IsPartitioned false ids (2 ∷ 0 ∷ 1 ∷ []) ids-Ascends refl (omega arith)

abbrev unsorted : List ℤ
unsorted = pos 5 ∷ negsuc 0 ∷ pos 2 ∷ []

make_sorted_indices-IsArgsort_example :
    IsArgsort unsorted (make_sorted_indices by_insertion unsorted)
make_sorted_indices-IsArgsort_example = make_sorted_indices-IsArgsort by_insertion unsorted

-- Two rows apart, each with the whole of one secondary dimension.
abbrev far_row : SpanPair
far_row = record { disk = pos 5 ∷ []; mem = 2 ∷ [] }

abbrev two_dims : List SpanPairs
two_dims = (whole 3 ∷ []) ∷ (whole 2 ∷ far_row ∷ []) ∷ []

cartesian_product-choices_example : (cartesian_product two_dims).dim_spans ≡ choices two_dims
cartesian_product-choices_example = cartesian_product-choices two_dims

cartesian_product-length_example :
    (length (cartesian_product two_dims).dim_spans ≡ n_products two_dims)
    × (length (cartesian_product two_dims).contiguous ≡ n_products two_dims)
cartesian_product-length_example =
    cartesian_product-length two_dims (omega arith) (omega arith, (omega arith, tt))

second_chunk : 1 < length (cartesian_product two_dims).dim_spans
unfolding cartesian_product extend_product product_loop n_products stride_loop row_spans and_range
    rows_loop secondary_dimensions_contiguous is_memory_contiguous is_iota ascends_by_one
second_chunk = omega arith

second_flag : get_or (cartesian_product two_dims).contiguous 1 false ≡ true
unfolding cartesian_product extend_product product_loop n_products stride_loop row_spans and_range
    rows_loop secondary_dimensions_contiguous is_memory_contiguous is_iota ascends_by_one
second_flag = refl

cartesian_product-IsOnePiece_example :
    IsOnePiece (get_or (cartesian_product two_dims).dim_spans 1 [])
    × IsWhole (map n_indices two_dims) (get_or (cartesian_product two_dims).dim_spans 1 [])
cartesian_product-IsOnePiece_example =
    cartesian_product-IsOnePiece two_dims (omega arith) (omega arith, (omega arith, tt)) 1
      second_chunk second_flag

abbrev shape : IPosition
shape = 3 ∷ 4 ∷ []

abbrev whole_result : ResultShapeData
whole_result = record {
  column_name = "DATA";
  shape = some shape;
  ndim = 2;
  dtype = tp_int;
  row_shapes = none;
}

abbrev chunk_dims : List SpanPairs
chunk_dims = (whole 3 ∷ whole 2 ∷ []) ∷ (whole 3 ∷ far_row ∷ []) ∷ []

abbrev shape_strides : SpanPairs → List ℕ
shape_strides d = strides 2 shape

first_strided : make_buffer_strides whole_result (whole 3 ∷ whole 2 ∷ []) ≡ ok (strides 2 shape)
unfolding make_buffer_strides is_fixed
first_strided = refl

second_strided : make_buffer_strides whole_result (whole 3 ∷ far_row ∷ []) ≡ ok (strides 2 shape)
unfolding make_buffer_strides is_fixed
second_strided = refl

two_strides : (d : SpanPairs) → length d ≡ 2 → length (strides 2 shape) ≡ 2
unfolding strides stride_rounds
two_strides d h = refl

make_data_chunks-IsChunkOf_example :
    (s : SharedChunkData) × (make_data_chunks chunk_dims (true ∷ true ∷ []) whole_result
      ≡ ok (map (λ c. record { chunk_id = c; shared = s }) (iota (length chunk_dims) 0)))
    × ((c : ℕ)
        → c < length chunk_dims
        → IsChunkOf whole_result shape_strides
            (get_or chunk_dims c [])
            (get_or (true ∷ true ∷ []) c false)
            (record { chunk_id = c; shared = s }))
make_data_chunks-IsChunkOf_example =
    make_data_chunks-IsChunkOf whole_result shape_strides (true ∷ true ∷ []) 2 chunk_dims
      (omega arith) (refl, (refl, tt)) (first_strided, (second_strided, tt)) two_strides

abbrev no_selection : Selection
no_selection = record { indices = []; spans = [] }

make-whole_example :
    (s : SharedChunkData) × (make by_insertion no_selection whole_result
      ≡ ok (record { chunks = record { chunk_id = 0; shared = s } ∷ []; dtype = tp_int }))
    × IsChunkOf whole_result
        (λ d. strides (length shape) shape)
        (map whole shape)
        true
        (record { chunk_id = 0; shared = s })
make-whole_example =
    make-whole by_insertion no_selection whole_result shape refl refl (omega arith)
      (omega arith, (omega arith, tt))
      λ fdim lt. (index_error, f_span_of-none no_selection fdim 2 (omega arith))

abbrev two_lists : List Index
two_lists = (pos 0 ∷ pos 3 ∷ []) ∷ (pos 1 ∷ []) ∷ []

c_span-from_init_example : c_span (from_init two_lists) 1 ≡ found (pos 1 ∷ [])
c_span-from_init_example = c_span-from_init two_lists 1 (omega arith)

abbrev two_args : List Ids
two_args = borrowed_ids (pos 0 ∷ pos 3 ∷ []) ∷ converted_ids (pos 1 ∷ []) ∷ []

f_span-from_args_example : f_span (from_args two_args) 1 ≡ found (pos 1 ∷ [])
f_span-from_args_example = f_span-from_args two_args 1 (omega arith)

abbrev two_spans : Selection
two_spans = record { indices = []; spans = two_lists }

c_span-eq-f_span_example : c_span two_spans 0 ≡ f_span two_spans 1
c_span-eq-f_span_example = c_span-eq-f_span two_spans 0 1 (unfold size in refl)
