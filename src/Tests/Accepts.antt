-- ===== src/Tests/Accepts.antt =====
-- Runs of GetResultShapeData and MakeWrite of cpp/arcae/result_shape.cc.
use casa_arrow.Base.{
  ℕ, ◌*◌, ◌<◌, ◌≡◌, refl, ◌||◌, some, none, [], ◌∷◌, ◌==◌, if◌then◌else◌, arith, ok,
}
use casa_arrow.Base.Int.{pos}
use casa_arrow.CasaType.{tp_int, int32, is_complex}
use casa_arrow.Arrow.{fixed_size_list, ArrowArray, flat, nested, is_value_type}
use casa_arrow.Selection.{Selection, f_span_of, span_at_signed, size, has_row_span}
use casa_arrow.Shape.{ResultShapeData, IPosition}
use casa_arrow.Shape.Arrays.{
  get_result_shape_data, get_arrow_result_shape_data, shape_loop, maybe_update_shape_and_ndim,
  arrow_shape_of,
}
use casa_arrow.Shape.Arrays.Levels.{get_result_shape_data-HasRows}
use casa_arrow.Shape.Arrays.Levels.Rows.{HasRows}
use casa_arrow.Shape.Read.{TableColumn, exceeds, selected_rows, check_row_number_limit}
use casa_arrow.Shape.Write.{
  check_selection_against, dimension_of, check_dimension, check_dimensions, cover, grow_dimension,
  grow_shape, cell_shape_of_data, visit_cell, visit_row, go_on, visit_rows, check_row_span,
  check_ndim, accept_data, check_secondary, finish_write, check_accepted, make_write,
}
use casa_arrow.Shape.Write.Fits.{SetsShape}
use casa_arrow.Shape.Write.Accepted.{RowsInside, CellsFit, make_write-CellsFit}

abbrev values : ArrowArray ℕ
values = flat (record { arrow_type = int32; n_values = 6; buffer = none })

-- Two rows of three values.
abbrev three_each : ArrowArray ℕ
three_each =
    nested fixed_size_list
      (record {
        null_count = 0;
        known_nulls = pos 0;
        list_length = 2;
        value_length = λ i. 3;
        value_offset = λ i. i * 3;
      })
      values

abbrev three_each_shape : ResultShapeData
three_each_shape = record {
  column_name = "DATA";
  shape = some (3 ∷ 2 ∷ []);
  ndim = 2;
  dtype = tp_int;
  row_shapes = none;
}

three_each_shaped : get_result_shape_data "DATA" tp_int (some three_each) ≡ ok three_each_shape
unfolding get_result_shape_data get_arrow_result_shape_data shape_loop maybe_update_shape_and_ndim
    arrow_shape_of is_complex is_value_type
three_each_shaped = refl

get_result_shape_data-HasRows_example : HasRows 2 1 three_each_shape
unfolding is_complex
get_result_shape_data-HasRows_example =
    get_result_shape_data-HasRows "DATA" tp_int three_each three_each_shape 1 refl three_each_shaped

-- A casacore that gives cells their shape.
abbrev set_shape : TableColumn → ℕ → IPosition → TableColumn
set_shape c r s = record c {
  is_defined = λ q. q == r || c.is_defined q;
  cell_shape = λ q. if q == r then s else c.cell_shape q;
}

set_shape-SetsShape : SetsShape set_shape
set_shape-SetsShape = record {
  defined = λ c r s. ground arith;
  shaped = λ c r s. ground arith;
  others_defined = λ c r q s other. ground arith;
  others_shaped = λ c r q s other. ground arith;
}

-- The cell of row 1 is not there.
abbrev free_column : TableColumn
free_column = record {
  name = "DATA";
  nrow = 2;
  data_type = tp_int;
  n_dims = pos 1;
  fixed_shape = none;
  is_defined = λ r. r == 0;
  cell_shape = λ r. 5 ∷ [];
}

-- The places 0 and 3 of the cells of all rows.
abbrev two_places : Selection
two_places = record { indices = []; spans = (pos 0 ∷ pos 3 ∷ []) ∷ [] ∷ [] }

-- The new cell has room for place 3.
abbrev grown_column : TableColumn
grown_column = set_shape free_column 1 (4 ∷ [])

three_each_accepted :
    make_write set_shape free_column (some three_each) two_places
    ≡ (grown_column, ok three_each_shape)
unfolding make_write accept_data check_accepted check_secondary finish_write visit_rows visit_row
    visit_cell go_on check_row_number_limit check_ndim check_row_span check_dimensions
    check_dimension dimension_of check_selection_against exceeds cell_shape_of_data grow_shape
    grow_dimension cover selected_rows f_span_of span_at_signed size has_row_span
    get_result_shape_data get_arrow_result_shape_data shape_loop maybe_update_shape_and_ndim
    arrow_shape_of is_complex is_value_type
three_each_accepted = refl

make_write-CellsFit_example :
    HasRows 2 1 three_each_shape
    × RowsInside free_column two_places
    × (1 < 2 → CellsFit two_places 2 none grown_column (selected_rows free_column two_places))
unfolding is_complex
make_write-CellsFit_example =
    make_write-CellsFit set_shape free_column three_each two_places 1 grown_column three_each_shape
      set_shape-SetsShape refl three_each_accepted
