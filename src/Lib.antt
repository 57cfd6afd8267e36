-- ===== src/Lib.antt =====
-- The core of arcae, which reads and writes the columns of casacore tables as Arrow arrays:
-- selections, the shapes of results, the partition of a result into chunks, the loops that copy
-- the chunks, the Arrow arrays that are read and written, the proxy through which tables are
-- reached, the table descriptors, the merge of sorted partitions, and the configuration.
--
-- A read or a write goes through these parts in turn. A Selection gives indices for some
-- dimensions. ResultShapeData::MakeRead finds the shape of the result from the column and the
-- selection. DataPartition::Make sorts the indices of each dimension, cuts them into spans of
-- consecutive disk indices, and makes one chunk of each choice of spans. ReadCallback and
-- WriteCallback move the elements of each chunk between casacore and one buffer, as a block where
-- the chunk is one piece of the result, and else element by element. MakeArray then nests the
-- buffer of a read in lists. A write starts from an Arrow array: GetResultShapeData finds its
-- shape, and MakeWrite checks it against the column and the selection. Every access to a table
-- runs in a pool of the IsolatedTableProxy.
--
-- Base                the shared names, lists, results, integers and words (size_t is wrapped)
-- Grid                positions in a box and their FORTRAN order: a reference, not code
-- Arrow               what is asked of an Arrow array
-- CasaType            cpp/arcae/type_traits.h, type_traits.cc and table_utils.cc
-- Selection           cpp/arcae/selection.h; Lookup: what the spans of a selection are
-- Shape               cpp/arcae/result_shape.h and result_shape.cc: ResultShapeData;
--   Offset, Varying   FlatOffset of fixed and varying shapes
--   Offsets           GetOffsets; Levels, Sizes and its Sums: its theorem
--   Arrays            GetRowShapes, GetArrowResultShapeData, GetResultShapeData; Levels and its
--                     Rows: their theorem
--   Read              MakeRead and what it calls; Clip, WellFormed: their theorems
--   Write             MakeWrite; Fits with Dimensions, Accepted: its theorems
-- Sorting             std::sort, as a parameter; Insertion: a sort that meets it
-- Partition           cpp/arcae/data_partition.h and data_partition.cc:
--   SortedIndices     MakeSortedIndices
--   SubSpans          MakeSubSpans; Cuts, Runs, Outcome: its theorem
--   Product           CartesianProduct; Choices, Contiguity, Flags: its theorems
--   Chunks            SharedChunkData, DataChunk, MakeDataChunks; Slices, Made: its theorem
--   Make              DataPartition::Make; Whole and its Steps: its theorem
-- Transfer            the loops of cpp/arcae/read_impl.cc and write_impl.cc;
--   Steps, Effect     one step, and what the loop does to a buffer
--   Blocks, Contiguous   the loop as the copy of a block
--   Flagged           the chunks that CartesianProduct flags
--   Strides           strides and FlatOffset
-- Reading             cpp/arcae/read_impl.cc around its loop: ReadCallback, ReadImpl, ReadTableImpl;
--   Assembly          GetConvertStrategy and MakeArray; Nesting and its Lists: its theorem
--   Whole             the read of a whole column; Steps, Chunk: its steps
-- Writing             cpp/arcae/write_impl.cc around its loop: WriteCallback, WriteImpl;
--   Whole, RoundTrip  the write of a whole column, its Steps, and a read behind it
-- Proxy               cpp/arcae/isolated_table_proxy.h and isolated_table_proxy.cc;
--   Dependents        Then and Spawn
--   Instances, Closing, Spawning, Refusal   the theorems
-- Descriptor          cpp/arcae/descriptor.cc; Names, Merging: its theorems
-- Configuration       cpp/arcae/configuration.h and configuration.cc; Entries: its theorem
-- Merge               src/arcae/lib/merge_sort.cc; Rows, Order, Sorted: its theorems
-- Tests               the theorems at concrete inputs
--
-- A record stands for each struct, with the fields of the source; a span, a vector and an IPosition
-- are lists. Errors are status codes. Indices of a selection are integers, which may be negative;
-- memory indices are numbers. Sums and products of size_t are taken modulo 2 ^ 64 where the source
-- computes strides, offsets and counts of elements. Loops recur on a list or on the rounds that are
-- left; the copy loop, which the source writes as while (true), has fuel, for which the number of
-- elements of the chunk is enough, and so has the merge, which is given one more than all rows. An
-- access outside a buffer is none.
--
-- Parameters: std::sort, std::priority_queue, the size of a casacore string, casacore's isNumeric
-- and its table descriptors, the TableColumn of a read or a write with its setShape, what
-- getColumnCells and putColumnCells do, the functions of Arrow that allocate buffers, cast arrays
-- and make lists and strings, the functors that a proxy runs, and
-- what CheckClosed returns during a read or a write. A status code `fault` stands for
-- the end of the process, or for what C++ leaves undefined.
--
-- Not modelled: the table factory, the closing of a proxy that Spawn made, the threads of Arrow,
-- which run the tasks of a pool in order, and JSON; nor the casacore calls and the Python bindings, which are
-- glue.
pub mod Arrow
pub mod Base
pub mod Grid
pub mod CasaType
pub mod Shape
pub mod Sorting
pub mod Selection
pub mod Partition
pub mod Transfer
pub mod Proxy
pub mod Merge
pub mod Configuration
pub mod Descriptor
pub mod Reading
pub mod Writing
mod Tests
