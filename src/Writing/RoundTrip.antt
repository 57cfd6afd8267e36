-- ===== src/Writing/RoundTrip.antt =====
-- A read of cpp/arcae/read_impl.cc behind a write of cpp/arcae/write_impl.cc, both of all of a column
-- of fixed shape.
use casa_arrow.Base.{
  ℕ, true, ◌≡◌, ◌∙◌, sym, ap, some, none, List, [], ◌∷◌, ◌++◌, length, product, ok,
}
use casa_arrow.CasaType.{ArrowType}
use casa_arrow.Arrow.{Buffer, FlatArray, ArrowArray, contents}
use casa_arrow.Selection.{Selection}
use casa_arrow.Shape.{IPosition}
use casa_arrow.Shape.Arrays.{get_result_shape_data}
use casa_arrow.Proxy.{returned, guarded}
use casa_arrow.Reading.{ColumnReader, ReadContext, read_impl}
use casa_arrow.Reading.Whole.{IsWhole, CanRead, read_impl-whole, make_read-whole}
use casa_arrow.Reading.Whole.Chunk.{all_cells}
use casa_arrow.Writing.{ColumnWriter, WriteContext, Stored, write_impl}
use casa_arrow.Writing.Whole.{written, CanWrite, write_impl-whole}
use casa_arrow.Writing.Whole.Steps.{put_all}

-- casacore keeps the cells that it is given: when all cells were put, they are what is read.
pub record KeepsCells {V S : Type 0} (writer : ColumnWriter V S) (reader_of : S → ColumnReader V)
    (secondary : IPosition) (n : ℕ) : Type 0 where
  pub accepts :
      (cells : List V) (stored : S)
      → length cells ≡ product (secondary ++ n ∷ [])
      → (put_all writer secondary n cells stored).1 ≡ returned (ok tt)
  pub keeps :
      (cells : List V) (stored : S)
      → length cells ≡ product (secondary ++ n ∷ [])
      → all_cells (reader_of (put_all writer secondary n cells stored).0) secondary n
        ≡ returned (ok cells)

module _ {V S : Type 0} (context : WriteContext V S) (reader_of : S → ColumnReader V)
    (table : Stored S) (selection : Selection) (secondary : IPosition)
    (is : IsWhole table.column selection secondary)
    (keeps : KeepsCells context.writer reader_of secondary table.column.nrow) where
  -- A write of an array to all of a column succeeds, and a read of all of the column behind it
  -- returns an array of the same shape over the values that were written, if casacore keeps them.
  pub read_impl-write_impl :
      (array : ArrowArray V) (a : FlatArray V) (t u : ArrowType) (buffer new_buffer : Buffer V)
      (read_context : ReadContext V) (element_size : ℕ)
      → CanWrite context table selection secondary is array a t buffer
      → CanRead table.column selection secondary is read_context new_buffer u element_size
      → (stored : S) × (found : ArrowArray V) × (write_impl context
            (some table)
            (some array)
            selection
          ≡ (some (record { column = table.column; cells = stored }), ok true))
        × (read_impl read_context (some (table.column, reader_of stored)) selection none ≡ ok found)
        × (get_result_shape_data table.column.name table.column.data_type (some found)
            ≡ get_result_shape_data table.column.name table.column.data_type (some array))
        × (contents found ≡ some (record new_buffer { values = buffer.values }))
  unfolding guarded
  read_impl-write_impl array a t u buffer new_buffer read_context element_size write read =
      let put = put_all context.writer secondary table.column.nrow buffer.values table.cells in
      let fine = keeps.accepts buffer.values table.cells write.filled in
      let (found, reads, shaped, rows, held) =
        read_impl-whole table.column selection secondary is read_context new_buffer u element_size
          read (reader_of put.0) buffer.values write.filled
          (keeps.keeps buffer.values table.cells write.filled) in
      (
        put.0,
        found,
        write_impl-whole context table selection secondary is array a t buffer write
            ∙ ap (λ o. written table.column (put.0, o)) fine,
        reads,
        sym shaped ∙ make_read-whole table.column selection secondary is V ∙ sym write.fits.shaped,
        held,
      )
