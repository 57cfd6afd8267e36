-- ===== src/Reading/Whole.antt =====
-- The read of a column of fixed shape of which nothing is selected, from MakeRead of
-- cpp/arcae/result_shape.cc over DataPartition::Make to MakeArray of cpp/arcae/read_impl.cc.
pub mod Chunk
pub mod Steps
use casa_arrow.Base.{
  or_fault, ℕ, zero, suc, ◌+◌, ◌-◌, ◌*◌, ◌^◌, ◌≤◌, ◌<◌, ◌≡◌, refl, ◌∙◌, sym, ap, ap₂, subst, Bool,
  true, false, not, Option, some, none, List, [], ◌∷◌, ◌++◌, map, length, ◌||◌, length-append,
  length-map, iota, take, product, arith, if◌then◌else◌, leb, ◌==◌, Result, ok, err, ◌>>=◌,
  not_implemented,
}
use casa_arrow.Base.Int.{ℤ, pos}
use casa_arrow.Base.Words.{size_mod, wrap, wrap_small}
use casa_arrow.CasaType.{
  CasaType, ArrowType, arrow_data_type, casa_data_type_size, is_string, is_primitive_type,
}
use casa_arrow.Arrow.{Buffer, ArrowArray, array_length, contents}
use casa_arrow.Grid.{origin}
use casa_arrow.Grid.Rank.{IsProper, product-pos, origin-InBox, rank-origin}
use casa_arrow.Selection.{Selection, has_row_span}
use casa_arrow.Shape.{ResultShapeData, IPosition, flat_offset}
use casa_arrow.Shape.Offset.{flat_offset-rank}
use casa_arrow.Shape.Arrays.{get_result_shape_data}
use casa_arrow.Shape.Read.{
  TableColumn, clip_shape, make_read, check_row_number_limit, array_shape, n_selected_rows,
  fixed_result, check_shape_matches_result,
}
use casa_arrow.Shape.Read.WellFormed.{IsFixedResult}
use casa_arrow.Partition.{SpanPairs}
use casa_arrow.Partition.Chunks.{
  DataChunk, SharedChunkData, Slicer, dimension_spans, any_span_negative, accumulate_sizes,
  n_elements_of, is_empty_chunk, shape_of, reference_rows, section_slicer, strides, min_span,
  flat_offset_of, is_contiguous,
}
use casa_arrow.Partition.Chunks.Made.{IsChunkOf}
use casa_arrow.Partition.Make.{DataPartition, sum_elements, n_partition_elements, make}
use casa_arrow.Partition.Make.Whole.{make-whole}
use casa_arrow.Partition.Make.Whole.Steps.{whole, SelectsNothing}
use casa_arrow.Proxy.{Outcome, returned, guarded}
use casa_arrow.Transfer.{read_contiguous, read_transposed, copy_block, mem_sizes}
use casa_arrow.Reading.{
  ColumnReader, ReadContext, view_of, is_handled, cells_of, do_read, read_chunk, read_chunks,
  column_exists, allocate_for, get_result_buffer_or_allocate, read_partition, read_impl,
}
use casa_arrow.Reading.Assembly.{fixed_lists, get_convert_strategy, make_array}
use casa_arrow.Reading.Nesting.{fixed_fields, make_array-get_result_shape_data}
use casa_arrow.Reading.Nesting.Lists.{MakesLists}
use casa_arrow.Reading.Whole.Steps.{
  clip_shape-whole, copy_block-fills, any_span_negative-whole, accumulate_sizes-whole,
  min_span-whole, whole_section, reference_rows-whole, section_slicer-whole,
}
use casa_arrow.Reading.Whole.Chunk.{
  all_cells, n_elements_of-whole, flat_offset_of-whole, read_chunks-whole,
}

pub arrow_data_type-handled :
    (d : CasaType) (t : ArrowType) → arrow_data_type d ≡ ok t → is_handled d ≡ true
unfolding arrow_data_type
arrow_data_type-handled d t e = ground arith

-- Nothing is selected of a column of fixed shape, none of whose dimensions is empty, and whose rows
-- and elements can be counted.
pub record IsWhole (column : TableColumn) (selection : Selection) (secondary : IPosition)
    : Type 0 where
  pub fixed : column.fixed_shape ≡ some secondary
  pub few_rows : column.nrow ≤ 2 ^ 63 - 1
  pub no_row_span : has_row_span selection ≡ false
  pub none_selected : SelectsNothing selection (length secondary + 1)
  pub proper_cell : IsProper secondary
  pub proper : IsProper (secondary ++ column.nrow ∷ [])
  pub few_elements : product (secondary ++ column.nrow ∷ []) < size_mod

module _ (column : TableColumn) (selection : Selection) (secondary : IPosition)
    (is : IsWhole column selection secondary) where
  abbrev pub shape : IPosition
  shape = secondary ++ column.nrow ∷ []

  abbrev pub whole_result : ResultShapeData
  whole_result = fixed_fields column.name column.data_type shape

  pub make_read-whole : (V : Type 0) → make_read {V = V} column selection none ≡ ok whole_result
  unfolding make_read array_shape n_selected_rows fixed_result check_row_number_limit
      check_shape_matches_result
  make_read-whole V =
      let few : leb column.nrow (2 ^ 63 - 1) ≡ true = ground (arith, is.few_rows) in
      rw (few, is.fixed, clip_shape-whole selection secondary is.none_selected, is.no_row_span) refl

  module _ {V : Type 0} (context : ReadContext V) (buffer : Buffer V) (t : ArrowType)
      (element_size : ℕ) where
    -- The proxy is open, the type of the column is handled and is no string, the configuration asks for lists of fixed
    -- size, which Arrow makes, and Arrow allocates a buffer with room for the elements.
    pub record CanRead : Type 0 where
      pub is_open : context.check_closed ≡ ok tt
      pub typed : arrow_data_type column.data_type ≡ ok t
      pub sized : casa_data_type_size context.string_size column.data_type ≡ ok element_size
      pub no_string : is_string column.data_type ≡ false
      pub primitive : is_primitive_type context.arrow.is_numeric column.data_type ≡ true
      pub strategy : get_convert_strategy context.config ≡ ok fixed_lists
      pub makes_lists : MakesLists context.arrow
      pub allocated :
          context.allocate (wrap (product shape * element_size)) element_size ≡ ok buffer
      pub has_room : length buffer.values ≡ product shape

    module _ (can : CanRead) (reader : ColumnReader V) (cells : List V)
        (all_there : length cells ≡ product shape)
        (reads : all_cells reader secondary column.nrow ≡ returned (ok cells)) where
      buffer-whole :
          (partition : DataPartition)
          → n_partition_elements partition ≡ product shape
          → partition.dtype ≡ column.data_type
          → get_result_buffer_or_allocate context
              (n_partition_elements partition)
              partition.dtype
              none
            ≡ ok buffer
      unfolding get_result_buffer_or_allocate allocate_for
      buffer-whole partition count typed =
          rw (count, typed, can.sized, can.allocated, can.primitive) refl

      read_partition-whole :
          (s : SharedChunkData)
          → IsChunkOf whole_result
              (λ d. strides (length shape) shape)
              (map whole shape)
              true
              (record { chunk_id = 0; shared = s })
          → (array : ArrowArray V) × (read_partition context reader whole_result none (record {
            chunks = record { chunk_id = 0; shared = s } ∷ [];
            dtype = column.data_type;
          })
              ≡ ok array)
            × (get_result_shape_data column.name column.data_type (some array) ≡ ok whole_result)
            × (array_length array ≡ column.nrow)
            × (contents array ≡ some (record buffer { values = cells }))
      unfolding read_partition n_partition_elements sum_elements
      read_partition-whole s chunk_is =
          let chunk : DataChunk = record { chunk_id = 0; shared = s } in
          let partition : DataPartition = record {
            chunks = chunk ∷ [];
            dtype = column.data_type;
          } in
          let count : wrap (0 + n_elements_of chunk) ≡ product shape =
            let e =
              n_elements_of-whole secondary column.nrow whole_result bs chunk chunk_is is.proper
                is.few_elements in
            let none_before : 0 + n_elements_of chunk ≡ product shape = omega (arith, e) in
            ap wrap none_before ∙ wrap_small is.few_elements in
          let filled =
            read_chunks-whole secondary column.nrow whole_result bs chunk chunk_is is.proper
              is.few_elements reader cells reads buffer.values (can.has_room ∙ sym all_there)
              (ap is_handled chunk_is.typed ∙ arrow_data_type-handled column.data_type t can.typed)
              (flat_offset_of-whole secondary column.nrow whole_result bs chunk chunk_is is.proper
                is.few_elements refl refl)
              is.proper_cell in
          let (array, made, shaped, rows, held) =
            make_array-get_result_shape_data context.arrow context.config whole_result column.nrow
              (record buffer { values = cells }) t
              (record {
                secondary = secondary;
                whole_shape = refl;
                dimensions = refl;
                no_rows = refl;
              })
              can.makes_lists can.strategy can.typed can.no_string can.primitive is.proper_cell
              is.few_elements in
          (
            array,
            ap
                  (λ b.
                    b >>= λ buffer. read_chunks reader (chunk ∷ []) buffer.values >>= finish buffer)
                  (buffer-whole partition count refl)
                ∙ ap (λ v. v >>= finish buffer) filled
                ∙ made,
            shaped,
            rows,
            held,
          )
        where
          bs : SpanPairs → List ℕ
          bs d = strides (length shape) shape

          finish : Buffer V → List V → Result (ArrowArray V)
          finish b values =
              make_array context.arrow context.config whole_result (record b { values = values })

      -- A read of such a column returns an array over the buffer that was allocated, filled with the
      -- cells that casacore returns for all rows, in their order; the array has the rows of the
      -- column, and GetResultShapeData reads the shape that MakeRead gave back from it.
      pub read_impl-whole :
          (array : ArrowArray V) × (read_impl context (some (column, reader)) selection none
            ≡ ok array)
          × (make_read {V = V} column selection none
              ≡ get_result_shape_data column.name column.data_type (some array))
          × (array_length array ≡ column.nrow)
          × (contents array ≡ some (record buffer { values = cells }))
      unfolding read_impl column_exists
      read_impl-whole =
          let dims : length secondary + 1 ≡ length shape =
            omega (arith, length-append secondary (column.nrow ∷ [])) in
          let (s, partitioned, chunk_is) =
            make-whole context.std selection whole_result shape refl refl (omega arith) is.proper
              (subst (SelectsNothing selection) dims is.none_selected) in
          let (array, made, shaped, rows, held) = read_partition-whole s chunk_is in
          (
            array,
            ap
                  (λ s. s >>= λ u. make_read {V = V} column selection none >>= λ result.
                    make context.std selection result >>= λ partition.
                    read_partition context reader result none partition)
                  can.is_open
                ∙ ap
                    (λ r. r >>= λ result. make context.std selection result >>= λ partition.
                      read_partition context reader result none partition)
                    (make_read-whole V)
                ∙ ap
                    (λ p.
                      p >>= λ partition. read_partition context reader whole_result none partition)
                    partitioned
                ∙ made,
            make_read-whole V ∙ sym shaped,
            rows,
            held,
          )
