-- ===== src/Reading.antt =====
-- cpp/arcae/read_impl.cc: the read of a column, from its shape to the Arrow array. The copy loops are
-- those of Transfer. What casacore reads, and the functions of Arrow that allocate buffers and make
-- arrays, are arguments. The steps are taken one after the other, as the futures are chained; the
-- chunks are read in their order, since the generator that is collected asks for the next chunk
-- when it has the result of the last.
pub mod Assembly
pub mod Nesting
pub mod Whole
use Prim.Native.String.{String}
use casa_arrow.Base.{
  ℕ, zero, suc, ◌+◌, ◌-◌, ◌*◌, Bool, true, false, Option, some, none, List, [], ◌∷◌, map, length,
  take, product, if◌then◌else◌, ltb, ◌==◌, Result, ok, err, Status, invalid, not_implemented,
  type_error, index_error, fault, or_fault, ◌>>=◌, ◌>>◌, ◌||◌, not,
}
use casa_arrow.Base.Int.{ℤ}
use casa_arrow.Base.Words.{wrap}
use casa_arrow.CasaType.{
  CasaType, tp_other, tp_string, casa_data_type_size, is_primitive_type, is_string, ArrowType, utf8,
  unsupported,
}
use casa_arrow.Arrow.{Buffer, FlatArray, ArrowArray, flat, nested}
use casa_arrow.Configuration.{KvMap}
use casa_arrow.Sorting.{SortAlgorithm}
use casa_arrow.Selection.{Selection, size}
use casa_arrow.Shape.{ResultShapeData}
use casa_arrow.Shape.Read.{TableColumn, make_read}
use casa_arrow.Partition.Chunks.{
  DataChunk, dimension_spans, min_mem_index_of, chunk_strides_of, buffer_strides_of, flat_offset_of,
  is_contiguous, is_empty_chunk, Slicer, reference_rows, section_slicer, shape_of,
}
use casa_arrow.Partition.Make.{DataPartition, n_partition_elements, make}
use casa_arrow.Proxy.{Outcome, guarded}
use casa_arrow.Transfer.{ChunkView, mem_sizes, read_contiguous, read_transposed}
use casa_arrow.Reading.Assembly.{ArrayMaker, make_array}

-- What the loops read from a chunk.
abbrev pub view_of : DataChunk → ChunkView
view_of chunk = record {
  spans = dimension_spans chunk;
  min_mem = min_mem_index_of chunk;
  chunk_strides = chunk_strides_of chunk;
  buffer_strides = buffer_strides_of chunk;
  offset = flat_offset_of chunk;
}

-- operator() handles every type of casacore that it names.
abbrev pub is_handled : CasaType → Bool
is_handled tp_other = false
is_handled _ = true

-- getColumnCells of a ScalarColumn and of an ArrayColumn: the cells in FORTRAN order.
pub record ColumnReader (V : Type 0) : Type 0 where
  pub get_scalar_cells : List ℤ → Outcome (List V)
  pub get_array_cells : List ℤ → Slicer → Outcome (List V)

-- What the read takes from its surroundings: the size of a casacore::String, AllocateBuffer for a
-- number of bytes and an alignment, the functions of MakeArray, std::sort, the configuration, and
-- what CheckClosed of the proxy returns, which is taken to stay the same during a read.
pub record ReadContext (V : Type 0) : Type 0 where
  pub string_size : ℕ
  pub allocate : ℕ → ℕ → Result (Buffer V)
  pub arrow : ArrayMaker V
  pub std : SortAlgorithm
  pub config : KvMap
  pub check_closed : Status

abbrev pub is_numeric_type : ArrowType → Bool
is_numeric_type utf8 = false
is_numeric_type unsupported = false
is_numeric_type _ = true

-- ColumnExists, for what the table has under the name of the column.
unfoldable pub column_exists {ℓ} : {A : Type ℓ} → Option A → Result A
column_exists none = err invalid
column_exists (some column) = ok column

unfoldable pub check_columns {ℓ} : {A : Type ℓ} → (String → Option A) → List String → Status
unfolding column_exists
check_columns table [] = ok tt
check_columns table (name ∷ names) =
    column_exists (table name) >>= λ column. check_columns table names

module _ {V : Type 0} where
  unfoldable pub cells_of : ColumnReader V → DataChunk → Result (List V)
  unfolding guarded shape_of reference_rows section_slicer
  cells_of reader chunk = guarded (
      if length (shape_of chunk) == 1
      then reader.get_scalar_cells (reference_rows chunk)
      else reader.get_array_cells (reference_rows chunk) (section_slicer chunk))

  -- DoRead: the buffer behind it. The transpose takes a round for each element.
  unfoldable pub do_read : ColumnReader V → DataChunk → List V → Result (List V)
  unfolding cells_of
  do_read reader chunk buffer = cells_of reader chunk >>= λ cells. or_fault (
      if is_contiguous chunk
      then read_contiguous (view_of chunk) cells buffer
      else read_transposed (product (mem_sizes (dimension_spans chunk))) (view_of chunk) cells
          buffer)

  -- operator() for a chunk: the buffer behind it, in place of `true`.
  unfoldable pub read_chunk : ColumnReader V → DataChunk → List V → Result (List V)
  unfolding do_read is_empty_chunk
  read_chunk reader chunk buffer =
      if is_empty_chunk chunk
      then ok buffer
      else if is_handled chunk.shared.casa_dtype
      then do_read reader chunk buffer
      else err not_implemented

  -- One chunk after the other; the first error ends the read.
  unfoldable pub read_chunks : ColumnReader V → List DataChunk → List V → Result (List V)
  unfolding read_chunk
  read_chunks reader [] buffer = ok buffer
  read_chunks reader (chunk ∷ chunks) buffer =
      read_chunk reader chunk buffer >>= λ next. read_chunks reader chunks next

  abbrev pub sized_buffer : ℕ → Option (Buffer V) → Result (Buffer V)
  sized_buffer nbytes none = err invalid
  sized_buffer nbytes (some buffer) =
      if not (buffer.n_bytes == nbytes) then err invalid else ok buffer

  -- GetResultBuffer of an array that is there. An array of lists has its child.
  unfoldable pub get_result_buffer : ArrowArray V → ℕ → Result (Buffer V)
  get_result_buffer (flat a) nbytes =
      if is_numeric_type a.arrow_type then sized_buffer nbytes a.buffer else err not_implemented
  get_result_buffer (nested kind view values) nbytes = get_result_buffer values nbytes

  unfoldable pub allocate_for : ReadContext V → CasaType → ℕ → ℕ → Result (Buffer V)
  unfolding is_primitive_type
  allocate_for context casa_type nbytes size = context.allocate nbytes size >>= λ allocation.
      if is_primitive_type context.arrow.is_numeric casa_type || is_string casa_type
      then ok allocation
      else err type_error

  unfoldable pub get_result_buffer_or_allocate :
      ReadContext V → ℕ → CasaType → Option (ArrowArray V) → Result (Buffer V)
  unfolding casa_data_type_size get_result_buffer allocate_for
  get_result_buffer_or_allocate context nelements casa_type none =
      casa_data_type_size context.string_size casa_type >>= λ size.
      allocate_for context casa_type (wrap (nelements * size)) size
  get_result_buffer_or_allocate context nelements casa_type (some result) =
      casa_data_type_size context.string_size casa_type >>= λ size.
      get_result_buffer result (wrap (nelements * size))

  -- The last step: the chunks are read into the buffer, and the array is made over it.
  unfoldable pub read_partition :
      ReadContext V
      → ColumnReader V
      → ResultShapeData
      → Option (ArrowArray V)
      → DataPartition
      → Result (ArrowArray V)
  unfolding n_partition_elements get_result_buffer_or_allocate read_chunks make_array
  read_partition context reader shape result partition = do
    buffer ←
        get_result_buffer_or_allocate context (n_partition_elements partition) partition.dtype
          result
    values ← read_chunks reader partition.chunks buffer.values
    make_array context.arrow context.config shape (record buffer { values = values })

  -- ReadImpl of a column, if the table has it, with what casacore reads from it.
  unfoldable pub read_impl :
      ReadContext V
      → Option (TableColumn × ColumnReader V)
      → Selection
      → Option (ArrowArray V)
      → Result (ArrowArray V)
  unfolding column_exists make_read make read_partition
  read_impl context column selection result = do
    _ ← context.check_closed
    found ← column_exists column
    shape ← make_read found.0 selection result
    partition ← make context.std selection shape
    read_partition context found.1 shape result partition

  -- The loop over the array results: a column whose read failed is left out.
  unfoldable pub keep_read :
      String → Result (ArrowArray V) → List (String × ArrowArray V) → List (String × ArrowArray V)
  keep_read name (err c) columns = columns
  keep_read name (ok array) columns = (name, array) ∷ columns

  unfoldable pub read_columns :
      (String → Result (ArrowArray V)) → List String → List (String × ArrowArray V)
  unfolding keep_read
  read_columns read [] = []
  read_columns read (name ∷ names) = keep_read name (read name) (read_columns read names)

  -- ReadTableImpl: the names of the columns and their arrays. The descriptors that are attached to
  -- them as JSON are left out.
  unfoldable pub read_table_impl :
      ReadContext V
      → List String
      → (String → Option (TableColumn × ColumnReader V))
      → List String
      → Selection
      → Result (List (String × ArrowArray V))
  unfolding size check_columns read_columns read_impl
  read_table_impl context all_columns table columns selection =
      let names = if length columns == 0 then all_columns else columns in
      if ltb 1 (size selection)
      then err index_error
      else context.check_closed
        >> check_columns table names
        >> ok (read_columns (λ name. read_impl context (table name) selection none) names)
