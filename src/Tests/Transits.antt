-- ===== src/Tests/Transits.antt =====
-- Runs of cpp/arcae/read_impl.cc and cpp/arcae/write_impl.cc, with numbers for the values of a column
-- and a casacore that keeps the cells it is given.
use native.Mathlib.Nat.{mul-div_cancel}
use casa_arrow.Base.{
  ℕ, ◌*◌, ◌/◌, ◌<◌, ◌≡◌, refl, ◌∙◌, ap, true, some, none, List, [], ◌∷◌, arith, ok, err, invalid,
  index_error,
}
use casa_arrow.Base.Int.{pos}
use casa_arrow.CasaType.{
  tp_int, int32, arrow_data_type, casa_data_type_size, is_primitive_type, is_complex,
}
use casa_arrow.Arrow.{
  fixed_size_list, ListView, Buffer, FlatArray, ArrowArray, flat, nested, array_length, contents,
  is_value_type,
}
use casa_arrow.Configuration.{get_default, get_key}
use casa_arrow.Sorting.Insertion.{by_insertion}
use casa_arrow.Selection.{Selection, size, has_row_span}
use casa_arrow.Shape.{ResultShapeData, IPosition}
use casa_arrow.Shape.Arrays.{
  get_result_shape_data, get_arrow_result_shape_data, shape_loop, maybe_update_shape_and_ndim,
  arrow_shape_of,
}
use casa_arrow.Selection.Lookup.{f_span_of-none}
use casa_arrow.Shape.Read.{TableColumn, make_read}
use casa_arrow.Shape.Read.WellFormed.{IsFixedResult}
use casa_arrow.Proxy.{returned}
use casa_arrow.Reading.{ColumnReader, ReadContext, read_impl}
use casa_arrow.Reading.Assembly.{fixed_lists, get_convert_strategy, ArrayMaker, make_array}
use casa_arrow.Reading.Nesting.{make_array-get_result_shape_data}
use casa_arrow.Reading.Nesting.Lists.{MakesLists}
use casa_arrow.Reading.Whole.{IsWhole, CanRead, read_impl-whole}
use casa_arrow.Writing.{get_flat_array, ColumnWriter, WriteContext, Stored, write_impl}
use casa_arrow.Writing.Whole.{written, CanWrite, write_impl-whole}
use casa_arrow.Writing.Whole.Steps.{put_all, FitsColumn}
use casa_arrow.Writing.RoundTrip.{KeepsCells, read_impl-write_impl}

-- k lists of n values.
abbrev lists_view : ℕ → ℕ → ListView
lists_view k n = record {
  null_count = 0;
  known_nulls = pos 0;
  list_length = k;
  value_length = λ i. n;
  value_offset = λ i. i * n;
}

abbrev maker : ArrayMaker ℕ
maker = record {
  fixed_size_lists =
      λ values n. ok (nested fixed_size_list (lists_view (array_length values / n) n) values);
  lists = λ offsets values. err invalid;
  build_strings = λ values. err invalid;
  is_numeric = λ t. true;
}

divided :
    (values : ArrowArray ℕ) (n k : ℕ)
    → 0 < n
    → array_length values ≡ k * n
    → array_length values / n ≡ k
divided values n k positive e = ap (λ l. l / n) e ∙ mul-div_cancel k positive

maker-MakesLists : MakesLists maker
maker-MakesLists = record {
  lists_of = λ values n k positive e. (
    lists_view (array_length values / n) n,
    refl,
    refl,
    divided values n k positive e,
    λ i. refl,
  );
}

abbrev two_rows : TableColumn
two_rows = record {
  name = "DATA";
  nrow = 2;
  data_type = tp_int;
  n_dims = pos 1;
  fixed_shape = some (3 ∷ []);
  is_defined = λ r. true;
  cell_shape = λ r. 3 ∷ [];
}

abbrev cell : IPosition
cell = 3 ∷ []

abbrev no_selection : Selection
no_selection = record { indices = []; spans = [] }

two_rows-IsWhole : IsWhole two_rows no_selection cell
unfolding has_row_span size
two_rows-IsWhole = record {
  fixed = refl;
  few_rows = omega arith;
  no_row_span = refl;
  none_selected = λ fdim lt. (index_error, f_span_of-none no_selection fdim 2 (omega arith));
  proper_cell = (omega arith, tt);
  proper = (omega arith, (omega arith, tt));
  few_elements = omega arith;
}

-- An empty configuration.
fixed_by_default : get_convert_strategy [] ≡ ok fixed_lists
unfolding get_convert_strategy get_default get_key
fixed_by_default = refl

abbrev values : List ℕ
values = 10 ∷ 11 ∷ 12 ∷ 20 ∷ 21 ∷ 22 ∷ []

abbrev new_buffer : Buffer ℕ
new_buffer = record { n_bytes = 24; values = 0 ∷ 0 ∷ 0 ∷ 0 ∷ 0 ∷ 0 ∷ [] }

abbrev read_context : ReadContext ℕ
read_context = record {
  string_size = 32;
  allocate = λ nbytes size. ok new_buffer;
  arrow = maker;
  std = by_insertion;
  config = [];
  check_closed = ok tt;
}

can_read : CanRead two_rows no_selection cell two_rows-IsWhole read_context new_buffer int32 4
unfolding arrow_data_type casa_data_type_size is_primitive_type
can_read = record {
  is_open = refl;
  typed = refl;
  sized = refl;
  no_string = refl;
  primitive = refl;
  strategy = fixed_by_default;
  makes_lists = maker-MakesLists;
  allocated = refl;
  has_room = refl;
}

-- What is stored is the list of all the cells.
abbrev reader_of : List ℕ → ColumnReader ℕ
reader_of stored = record {
  get_scalar_cells = λ rows. returned (ok stored);
  get_array_cells = λ rows section. returned (ok stored);
}

read_impl-whole_example :
    (array : ArrowArray ℕ) × (read_impl read_context
        (some (two_rows, reader_of values))
        no_selection
        none
      ≡ ok array)
    × (make_read {V = ℕ} two_rows no_selection none
        ≡ get_result_shape_data "DATA" tp_int (some array))
    × (array_length array ≡ 2)
    × (contents array ≡ some (record { n_bytes = 24; values = values }))
read_impl-whole_example =
    read_impl-whole two_rows no_selection cell two_rows-IsWhole read_context new_buffer int32 4
      can_read (reader_of values) values refl refl

abbrev whole_shape : ResultShapeData
whole_shape = record {
  column_name = "DATA";
  shape = some (3 ∷ 2 ∷ []);
  ndim = 2;
  dtype = tp_int;
  row_shapes = none;
}

abbrev whole_shape-IsFixedResult : IsFixedResult 2 whole_shape
whole_shape-IsFixedResult = record {
  secondary = cell;
  whole_shape = refl;
  dimensions = refl;
  no_rows = refl;
}

make_array-get_result_shape_data_example :
    (array : ArrowArray ℕ) × (make_array maker [] whole_shape new_buffer ≡ ok array)
    × (get_result_shape_data "DATA" tp_int (some array) ≡ ok whole_shape)
    × (array_length array ≡ 2)
    × (contents array ≡ some new_buffer)
unfolding arrow_data_type is_primitive_type
make_array-get_result_shape_data_example =
    make_array-get_result_shape_data maker [] whole_shape 2 new_buffer int32
      whole_shape-IsFixedResult maker-MakesLists fixed_by_default refl refl refl (omega arith, tt)
      (omega arith)

abbrev writer : ColumnWriter ℕ (List ℕ)
writer = record {
  put_scalar_cells = λ rows cells stored. (cells, returned (ok tt));
  put_array_cells = λ rows section cells stored. (cells, returned (ok tt));
}

abbrev write_context : WriteContext ℕ (List ℕ)
write_context = record {
  cast = λ a t. err invalid;
  allocate = λ nbytes size. ok tt;
  strings = λ a. [];
  string_size = 32;
  empty = 0;
  is_numeric = λ t. true;
  std = by_insertion;
  set_shape = λ c r s. c;
  writer = writer;
  check_closed = ok tt;
}

abbrev flat_values : FlatArray ℕ
flat_values = record {
  arrow_type = int32;
  n_values = 6;
  buffer = some (record { n_bytes = 24; values = values });
}

abbrev array : ArrowArray ℕ
array = nested fixed_size_list (lists_view 2 3) (flat flat_values)

abbrev table : Stored (List ℕ)
table = record { column = two_rows; cells = [] }

array-FitsColumn : FitsColumn two_rows no_selection cell two_rows-IsWhole array
unfolding get_result_shape_data get_arrow_result_shape_data shape_loop maybe_update_shape_and_ndim
    arrow_shape_of is_complex is_value_type
array-FitsColumn = record { shaped = refl; n_dims = refl }

can_write :
    CanWrite write_context table no_selection cell two_rows-IsWhole array flat_values int32
      (record { n_bytes = 24; values = values })
unfolding get_flat_array is_value_type is_complex arrow_data_type is_primitive_type
can_write = record {
  is_open = refl;
  fits = array-FitsColumn;
  flattened = refl;
  counted = refl;
  typed = refl;
  primitive = refl;
  no_cast = refl;
  held = refl;
  filled = refl;
}

write_impl-whole_example :
    write_impl write_context (some table) (some array) no_selection
    ≡ written two_rows (put_all writer cell 2 values [])
write_impl-whole_example =
    write_impl-whole write_context table no_selection cell two_rows-IsWhole array flat_values int32
      (record { n_bytes = 24; values = values }) can_write

writer-KeepsCells : KeepsCells writer reader_of cell 2
writer-KeepsCells = record { accepts = λ cells stored len. refl; keeps = λ cells stored len. refl }

read_impl-write_impl_example :
    (stored : List ℕ) × (found : ArrowArray ℕ) × (write_impl write_context
        (some table)
        (some array)
        no_selection
      ≡ (some (record { column = two_rows; cells = stored }), ok true))
    × (read_impl read_context (some (two_rows, reader_of stored)) no_selection none ≡ ok found)
    × (get_result_shape_data "DATA" tp_int (some found)
        ≡ get_result_shape_data "DATA" tp_int (some array))
    × (contents found ≡ some (record { n_bytes = 24; values = values }))
read_impl-write_impl_example =
    read_impl-write_impl write_context reader_of table no_selection cell two_rows-IsWhole
      writer-KeepsCells array flat_values int32 int32 (record { n_bytes = 24; values = values })
      new_buffer read_context 4 can_write can_read
