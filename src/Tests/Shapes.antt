-- ===== src/Tests/Shapes.antt =====
-- Runs of cpp/arcae/result_shape.cc.
use casa_arrow.Base.{
  ℕ, true, ◌+◌, ◌<◌, ◌≡◌, refl, ◌⊎◌, some, none, List, [], ◌∷◌, map, iota, length, take, arith, ok,
  ◌-◌,
}
use casa_arrow.Base.Int.{pos}
use casa_arrow.CasaType.{tp_int}
use casa_arrow.Grid.{rank}
use casa_arrow.Selection.{Selection, size, f_span_of, has_row_span, get_row_span, span_at_signed}
use casa_arrow.Shape.{ResultShapeData, IPosition, is_fixed, n_rows, flat_offset, n_elements}
use casa_arrow.Shape.Offset.{flat_offset-rank, total}
use casa_arrow.Shape.Varying.{flat_offset-varying}
use casa_arrow.Shape.Offsets.{get_offsets}
use casa_arrow.Shape.Offsets.Levels.{AreListOffsets, HasAllDimensions}
use casa_arrow.Shape.Offsets.Sizes.{shape_at, get_offsets-level_sizes}
use casa_arrow.Shape.Offsets.Sizes.Sums.{offsets_of, level_sizes}
use casa_arrow.Shape.Read.{
  TableColumn, clip_shape, make_read, n_selected_rows, check_row_number_limit, array_shape,
  clip_loop, clip_dimension, exceeds, fixed_result, check_shape_matches_result,
}
use casa_arrow.Shape.Read.Clip.{ClipOutcome, clip_shape-ClipOutcome}
use casa_arrow.Shape.Read.WellFormed.{IsFixedResult, IsVaryingResult, make_read-cases}

abbrev shape : IPosition
shape = 3 ∷ 4 ∷ []

abbrev whole_result : ResultShapeData
whole_result = record {
  column_name = "DATA";
  shape = some shape;
  ndim = 2;
  dtype = tp_int;
  row_shapes = none;
}

flat_offset-rank_example : flat_offset whole_result (2 ∷ 1 ∷ []) ≡ rank shape (2 ∷ 1 ∷ [])
flat_offset-rank_example =
    flat_offset-rank whole_result shape refl (2 ∷ 1 ∷ []) refl (omega arith)
      (omega arith, (omega arith, tt))

abbrev two_shapes : List IPosition
two_shapes = (2 ∷ 2 ∷ []) ∷ (3 ∷ 1 ∷ []) ∷ []

abbrev row_result : ResultShapeData
row_result = record {
  column_name = "VAR";
  shape = none;
  ndim = 3;
  dtype = tp_int;
  row_shapes = some two_shapes;
}

flat_offset-varying_example :
    (flat_offset row_result (2 ∷ 0 ∷ 1 ∷ [])
      ≡ total (take 1 two_shapes) + rank (3 ∷ 1 ∷ []) (2 ∷ 0 ∷ []))
    × (flat_offset row_result (2 ∷ 0 ∷ 1 ∷ []) < n_elements row_result)
flat_offset-varying_example =
    flat_offset-varying row_result two_shapes refl refl (2 ∷ 0 ∷ []) 1 (omega arith)
      (omega arith, (omega arith, tt)) refl (omega arith)

whole-HasAllDimensions : HasAllDimensions whole_result
unfolding is_fixed
whole-HasAllDimensions row lt = omega arith

get_offsets-level_sizes_example :
    (get_offsets whole_result
      ≡ map offsets_of (
          level_sizes
            (whole_result.ndim - 1)
            (map (shape_at whole_result) (iota (n_rows whole_result) 0))))
    × AreListOffsets (n_rows whole_result) (get_offsets whole_result)
get_offsets-level_sizes_example = get_offsets-level_sizes whole_result whole-HasAllDimensions

abbrev selection : Selection
selection = record { indices = []; spans = (pos 0 ∷ pos 3 ∷ []) ∷ (pos 1 ∷ []) ∷ [] }

two_dimensions : 1 < size selection
unfolding size
two_dimensions = omega arith

abbrev row_cell : IPosition
row_cell = 4 ∷ []

clip_shape-ClipOutcome_example :
    ClipOutcome selection (length row_cell + 1) 0 row_cell (clip_shape selection row_cell)
clip_shape-ClipOutcome_example = clip_shape-ClipOutcome selection row_cell two_dimensions

abbrev column : TableColumn
column = record {
  name = "DATA";
  nrow = 5;
  data_type = tp_int;
  n_dims = pos 1;
  fixed_shape = some (4 ∷ []);
  is_defined = λ r. true;
  cell_shape = λ r. 4 ∷ [];
}

abbrev selected_result : ResultShapeData
selected_result = record {
  column_name = "DATA";
  shape = some (2 ∷ 1 ∷ []);
  ndim = 2;
  dtype = tp_int;
  row_shapes = none;
}

selected_read : make_read {V = ℕ} column selection none ≡ ok selected_result
unfolding make_read check_row_number_limit array_shape clip_shape n_selected_rows fixed_result
    check_shape_matches_result clip_loop clip_dimension exceeds size f_span_of span_at_signed
    has_row_span get_row_span
selected_read = refl

make_read-cases_example :
    IsFixedResult (n_selected_rows column selection) selected_result
    ⊎ IsVaryingResult (n_selected_rows column selection) selected_result
make_read-cases_example =
    make_read-cases {V = ℕ} column selection none selected_result selected_read
