-- ===== src/Writing.antt =====
-- cpp/arcae/write_impl.cc: the write of an Arrow array to a column. The copy loops are those of
-- Transfer. What casacore stores, the cast of Arrow and its string arrays are arguments; the column
-- and what is stored are passed on. The table is taken to be writable: reopening it is a call of
-- casacore.
pub mod RoundTrip
pub mod Whole
use casa_arrow.Base.{
  or_fault, ℕ, zero, suc, ◌+◌, ◌-◌, ◌*◌, Bool, true, false, not, Option, some, none, List, [], ◌∷◌,
  length, product, if◌then◌else◌, ◌==◌, Result, ok, err, Status, invalid, not_implemented,
  type_error, fault, ◌>>=◌, ◌>>◌,
}
use casa_arrow.Base.Int.{ℤ, pos, ltb_ℤ}
use casa_arrow.Base.Words.{wrap}
use casa_arrow.CasaType.{
  CasaType, ArrowType, utf8, arrow_data_type, is_complex, is_string, is_primitive_type, same_type,
}
use casa_arrow.Arrow.{Buffer, FlatArray, ArrowArray, flat, nested, is_value_type}
use casa_arrow.Sorting.{SortAlgorithm}
use casa_arrow.Selection.{Selection}
use casa_arrow.Shape.{ResultShapeData, IPosition}
use casa_arrow.Shape.Read.{TableColumn}
use casa_arrow.Shape.Write.{make_write}
use casa_arrow.Partition.Chunks.{
  DataChunk, dimension_spans, is_contiguous, is_empty_chunk, Slicer, reference_rows, section_slicer,
  shape_of,
}
use casa_arrow.Partition.Make.{DataPartition, n_partition_elements, make}
use casa_arrow.Proxy.{Outcome, guarded}
use casa_arrow.Reading.{view_of, is_handled, column_exists}
use casa_arrow.Transfer.{mem_sizes, write_contiguous, write_transposed}

-- GetFlatArray, with no nulls allowed.
unfoldable pub get_flat_array : {V : Type 0} → ArrowArray V → Result (FlatArray V)
unfolding is_value_type
get_flat_array (flat a) = if is_value_type a.arrow_type then ok a else err not_implemented
get_flat_array (nested kind view values) =
    let child = get_flat_array values in
    if ltb_ℤ (pos 0) view.known_nulls then err invalid else child

-- putColumnCells of a ScalarColumn and of an ArrayColumn, on what is stored: the rows, the section
-- and the cells in FORTRAN order.
pub record ColumnWriter (V S : Type 0) : Type 0 where
  pub put_scalar_cells : List ℤ → List V → S → S × Outcome (Unit {0})
  pub put_array_cells : List ℤ → Slicer → List V → S → S × Outcome (Unit {0})

-- What the write takes from its surroundings: Cast and AllocateBuffer of Arrow, the strings of a
-- string array, the size of a casacore::String, the elements of a new casacore array, isNumeric, std::sort, setShape,
-- the writer of the column, and what CheckClosed of the proxy returns, which is taken to stay the
-- same during a write.
pub record WriteContext (V S : Type 0) : Type 0 where
  pub cast : FlatArray V → ArrowType → Result (FlatArray V)
  pub allocate : ℕ → ℕ → Status
  pub strings : FlatArray V → List V
  pub string_size : ℕ
  pub empty : V
  pub is_numeric : CasaType → Bool
  pub std : SortAlgorithm
  pub set_shape : TableColumn → ℕ → IPosition → TableColumn
  pub writer : ColumnWriter V S
  pub check_closed : Status

-- A column and what is stored.
pub record Stored (S : Type 0) : Type 0 where
  pub column : TableColumn
  pub cells : S

-- What RunAsync does of a proxy that CheckClosed refuses or not.
unfoldable pub if_open : {A : Type 0} → Status → A → A × Result Bool → A × Result Bool
if_open (err c) stored written = (stored, err c)
if_open (ok u) stored written = written

-- One chunk after the other; the first error ends the write, behind what is stored already.
unfoldable pub write_next : {S : Type 0} → (S → S × Status) → S × Status → S × Status
write_next next (stored, err c) = (stored, err c)
write_next next (stored, ok u) = next stored

module _ {V S : Type 0} (context : WriteContext V S) where
  -- The strings, copied to a buffer of casacore strings.
  unfoldable pub copy_strings : FlatArray V → Result (Option (Buffer V))
  copy_strings a =
      if same_type a.arrow_type utf8
      then context.allocate (wrap (context.string_size * a.n_values)) context.string_size
        >> ok (
            some (record {
              n_bytes = wrap (context.string_size * a.n_values);
              values = context.strings a;
            }))
      else err invalid

  -- The buffer that the write reads, which may be missing.
  -- The buffer of an array that has the type already, or of its cast.
  unfoldable pub cast_values : FlatArray V → ArrowType → Result (Option (Buffer V))
  cast_values a dtype =
      if same_type dtype a.arrow_type
      then ok (a.buffer)
      else context.cast a dtype >>= λ datum. ok (datum.buffer)

  unfoldable pub extract_buffer_or_copy_values : FlatArray V → CasaType → Result (Option (Buffer V))
  unfolding is_primitive_type arrow_data_type copy_strings cast_values
  extract_buffer_or_copy_values a casa_dtype =
      if is_primitive_type context.is_numeric casa_dtype
      then arrow_data_type casa_dtype >>= cast_values a
      else if is_string casa_dtype
      then copy_strings a
      else err type_error

  -- What a chunk hands over: a view of the buffer, or a transposed copy. A buffer that is missing
  -- is read through a null pointer.
  unfoldable pub chunk_cells : DataChunk → Option (Buffer V) → Result (List V)
  unfolding is_contiguous
  chunk_cells chunk none = err fault
  chunk_cells chunk (some buffer) = or_fault (
      if is_contiguous chunk
      then write_contiguous (view_of chunk) buffer.values
      else write_transposed (product (mem_sizes (dimension_spans chunk))) (view_of chunk)
          (context.empty) buffer.values)

  unfoldable pub put_cells : DataChunk → List V → S → S × Outcome (Unit {0})
  unfolding shape_of reference_rows section_slicer
  put_cells chunk cells stored =
      if length (shape_of chunk) == 1
      then (context.writer).put_scalar_cells (reference_rows chunk) cells stored
      else (context.writer).put_array_cells (reference_rows chunk) (section_slicer chunk) cells
          stored

  -- DoWrite, for the cells that the chunk hands over
  unfoldable pub do_write : DataChunk → Result (List V) → S → S × Status
  unfolding put_cells guarded
  do_write chunk (err c) stored = (stored, err c)
  do_write chunk (ok cells) stored =
      let (stored', outcome) = put_cells chunk cells stored in (stored', guarded outcome)

  -- operator() for a chunk
  unfoldable pub write_chunk : Option (Buffer V) → DataChunk → S → S × Status
  unfolding chunk_cells do_write is_empty_chunk
  write_chunk buffer chunk stored =
      if is_empty_chunk chunk
      then (stored, ok tt)
      else if is_handled chunk.shared.casa_dtype
      then do_write chunk (chunk_cells chunk buffer) stored
      else (stored, err not_implemented)

  unfoldable pub write_chunks : Option (Buffer V) → List DataChunk → S → S × Status
  unfolding write_chunk write_next
  write_chunks buffer [] stored = (stored, ok tt)
  write_chunks buffer (chunk ∷ chunks) stored =
      write_next (write_chunks buffer chunks) (write_chunk buffer chunk stored)

  -- Has the array the values of the partition, two for each complex value?
  unfoldable pub check_elements : FlatArray V → CasaType → ℕ → Status
  unfolding is_complex
  check_elements flat_array casa_dtype n =
      let nelements = if is_complex casa_dtype then wrap (n * 2) else n in
      if not (flat_array.n_values == nelements) then err invalid else ok tt

  -- What is written: the chunks, and the buffer behind them.
  unfoldable pub prepare_write :
      ArrowArray V → DataPartition → Result (List DataChunk × Option (Buffer V))
  unfolding n_partition_elements check_elements get_flat_array extract_buffer_or_copy_values
  prepare_write data' partition = do
    flat_array ← get_flat_array data'
    _ ← check_elements flat_array partition.dtype (n_partition_elements partition)
    buffer ← extract_buffer_or_copy_values flat_array (partition.dtype)
    ok (partition.chunks, buffer)

  unfoldable pub write_prepared : Result (List DataChunk × Option (Buffer V)) → S → S × Result Bool
  unfolding write_chunks
  write_prepared (err c) stored = (stored, err c)
  write_prepared (ok (chunks, buffer)) stored =
      let (stored', status) = write_chunks buffer chunks stored in
      (stored', status >>= λ u. ok true)

  unfoldable pub write_partition :
      Option (ArrowArray V) → Selection → Result ResultShapeData → S → S × Result Bool
  unfolding prepare_write write_prepared make
  write_partition none selection shape stored = (stored, err invalid)
  write_partition (some data') selection shape stored =
      write_prepared (shape >>= make context.std selection >>= prepare_write data') stored

  -- What WriteImpl does behind CheckClosed, to a column that the table has or has not.
  unfoldable pub write_column :
      Option (Stored S) → Option (ArrowArray V) → Selection → Option (Stored S) × Result Bool
  unfolding make_write write_partition
  write_column none data' selection = (none, err invalid)
  write_column (some table) data' selection =
      let (column', shape) = make_write (context.set_shape) (table.column) data' selection in
      let (cells', result) = write_partition data' selection shape (table.cells) in
      (some (record { column = column'; cells = cells' }), result)

  unfoldable pub write_impl :
      Option (Stored S) → Option (ArrowArray V) → Selection → Option (Stored S) × Result Bool
  unfolding if_open write_column
  write_impl table data' selection =
      if_open context.check_closed table (write_column table data' selection)
