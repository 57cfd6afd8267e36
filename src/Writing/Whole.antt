-- ===== src/Writing/Whole.antt =====
-- The write of an array to all of a column of fixed shape, from MakeWrite of
-- cpp/arcae/result_shape.cc over DataPartition::Make to the chunks of cpp/arcae/write_impl.cc.
pub mod Steps
use casa_arrow.Base.{
  ℕ, ◌+◌, ◌-◌, ◌*◌, ◌≡◌, refl, ◌∙◌, ap, subst, Bool, true, Option, some, List, [], ◌∷◌, ◌++◌, map,
  length, length-append, product, arith, if◌then◌else◌, Result, ok, Status, ◌>>=◌, ◌>>◌,
}
use casa_arrow.Base.Words.{wrap, wrap_small}
use casa_arrow.CasaType.{ArrowType, arrow_data_type, is_complex, is_primitive_type, same_type}
use casa_arrow.Arrow.{Buffer, FlatArray, ArrowArray}
use casa_arrow.Selection.{Selection}
use casa_arrow.Shape.{ResultShapeData, IPosition}
use casa_arrow.Shape.Read.{TableColumn}
use casa_arrow.Partition.{SpanPairs}
use casa_arrow.Partition.Chunks.{DataChunk, n_elements_of, strides}
use casa_arrow.Partition.Chunks.Made.{IsChunkOf}
use casa_arrow.Partition.Make.{sum_elements, n_partition_elements}
use casa_arrow.Partition.Make.Whole.{make-whole}
use casa_arrow.Partition.Make.Whole.Steps.{whole, SelectsNothing}
use casa_arrow.Proxy.{Outcome, guarded}
use casa_arrow.Reading.{is_handled}
use casa_arrow.Reading.Whole.{IsWhole, whole_result, arrow_data_type-handled}
use casa_arrow.Reading.Whole.Chunk.{n_elements_of-whole, flat_offset_of-whole}
use casa_arrow.Writing.{
  get_flat_array, WriteContext, Stored, cast_values, extract_buffer_or_copy_values, check_elements,
  prepare_write, write_prepared, write_partition, if_open, write_column, write_impl,
}
use casa_arrow.Writing.Whole.Steps.{put_all, FitsColumn, make_write-whole, write_chunks-whole}

-- What the write of all cells comes to.
abbrev pub written :
    {S : Type 0} → TableColumn → S × Outcome (Unit {0}) → Option (Stored S) × Result Bool
written column p = (some (record { column = column; cells = p.0 }), guarded p.1 >>= λ u. ok true)

module _ {V S : Type 0} (context : WriteContext V S) (table : Stored S) (selection : Selection)
    (secondary : IPosition) (is : IsWhole table.column selection secondary) (array : ArrowArray V)
    (a : FlatArray V) (t : ArrowType) (buffer : Buffer V) where
  -- The proxy is open, and the array has the shape of the column, no nulls that are known of, as many values as the column,
  -- twice as many for complex values, and the type of the column, so that no cast is needed.
  pub record CanWrite : Type 0 where
    pub is_open : context.check_closed ≡ ok tt
    pub fits : FitsColumn table.column selection secondary is array
    pub flattened : get_flat_array array ≡ ok a
    pub counted : a.n_values ≡ (
        if is_complex table.column.data_type
        then wrap (product (secondary ++ table.column.nrow ∷ []) * 2)
        else product (secondary ++ table.column.nrow ∷ []))
    pub typed : arrow_data_type table.column.data_type ≡ ok t
    pub primitive : is_primitive_type context.is_numeric table.column.data_type ≡ true
    pub no_cast : same_type t a.arrow_type ≡ true
    pub held : a.buffer ≡ some buffer
    pub filled : length buffer.values ≡ product (secondary ++ table.column.nrow ∷ [])

  module _ (can : CanWrite) where
    abbrev bs : SpanPairs → List ℕ
    bs d =
        strides (length (secondary ++ table.column.nrow ∷ [])) (secondary ++ table.column.nrow ∷ [])

    abbrev result : ResultShapeData
    result = whole_result table.column selection secondary is

    checked :
        check_elements context a table.column.data_type
          (product (secondary ++ table.column.nrow ∷ []))
        ≡ ok tt
    unfolding check_elements
    checked = rw can.counted (ground arith)

    extracted : extract_buffer_or_copy_values context a table.column.data_type ≡ ok (some buffer)
    unfolding extract_buffer_or_copy_values cast_values
    extracted = rw (can.primitive, can.typed, can.no_cast, can.held) refl

    prepare_write-whole :
        (chunk : DataChunk)
        → IsChunkOf result bs (map whole (secondary ++ table.column.nrow ∷ [])) true chunk
        → prepare_write context array
            (record { chunks = chunk ∷ []; dtype = table.column.data_type })
          ≡ ok (chunk ∷ [], some buffer)
    unfolding prepare_write n_partition_elements sum_elements
    prepare_write-whole chunk chunk_is =
        let cell = secondary ++ table.column.nrow ∷ [] in
        let e =
          n_elements_of-whole secondary table.column.nrow result bs chunk chunk_is is.proper
            is.few_elements in
        let none_before : 0 + n_elements_of chunk ≡ product cell = omega (arith, e) in
        let count : wrap (0 + n_elements_of chunk) ≡ product cell =
          ap wrap none_before ∙ wrap_small is.few_elements in
        rw (can.flattened, count, checked, extracted) refl

    -- A write of such an array to all of a column hands the values of its buffer to casacore at
    -- once, for all rows in their order and all elements of the cells; what casacore makes of it is
    -- the outcome.
    pub write_impl-whole :
        write_impl context (some table) (some array) selection
        ≡ written table.column
            (put_all context.writer secondary table.column.nrow buffer.values table.cells)
    unfolding write_impl if_open write_column write_partition write_prepared
    write_impl-whole =
        let cell = secondary ++ table.column.nrow ∷ [] in
        let dims : length secondary + 1 ≡ length cell =
          omega (arith, length-append secondary (table.column.nrow ∷ [])) in
        let (s, partitioned, chunk_is) =
          make-whole context.std selection result cell refl refl (omega arith) is.proper
            (subst (SelectsNothing selection) dims is.none_selected) in
        let chunk : DataChunk = record { chunk_id = 0; shared = s } in
        let start =
          flat_offset_of-whole secondary table.column.nrow result bs chunk chunk_is is.proper
            is.few_elements refl refl in
        let handled =
          ap is_handled chunk_is.typed
          ∙ arrow_data_type-handled table.column.data_type t can.typed in
        ap (λ s. if_open s (some table) (write_column context (some table) (some array) selection))
          can.is_open
        ∙ ap after_shape
            (make_write-whole table.column selection secondary is array context.set_shape can.fits)
        ∙ ap (λ p. stored (write_prepared context (p >>= prepare_write context array) table.cells))
            partitioned
        ∙ ap (λ p. stored (write_prepared context p table.cells))
            (prepare_write-whole chunk chunk_is)
        ∙ ap (λ (p : S × Status). stored (p.0, p.1 >>= λ u. ok true))
            (write_chunks-whole secondary table.column.nrow result bs chunk chunk_is is.proper
              is.few_elements context buffer table.cells can.filled handled start is.proper_cell)
      where
        stored : S × Result Bool → Option (Stored S) × Result Bool
        stored p = (some (record { column = table.column; cells = p.0 }), p.1)

        after_shape : TableColumn × Result ResultShapeData → Option (Stored S) × Result Bool
        after_shape p =
            let q = write_partition context (some array) selection p.1 table.cells in
            (some (record { column = p.0; cells = q.0 }), q.1)
