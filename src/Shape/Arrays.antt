-- ===== src/Shape/Arrays.antt =====
-- GetRowShapes, GetArrowResultShapeData and GetResultShapeData of cpp/arcae/result_shape.cc: the
-- shape that an Arrow array has, as data of a column. Of the description of the column the name and
-- the data type are read.
pub mod Levels
use Prim.Native.String.{String}
use mathlib.Core.List.{reverse}
use casa_arrow.Base.{
  ℕ, zero, suc, ◌+◌, ◌-◌, Bool, true, false, not, ◌&&◌, Option, some, none, List, [], ◌∷◌, ◌++◌,
  length, iota, if◌then◌else◌, ltb, ◌==◌, Result, ok, err, invalid, not_implemented, ◌>>=◌,
  map_result,
}
use casa_arrow.CasaType.{CasaType, is_complex}
use casa_arrow.Arrow.{
  ListKind, is_fixed_size, ListView, FlatArray, ArrowArray, flat, nested, array_length,
  is_value_type,
}
use casa_arrow.Shape.{ResultShapeData, IPosition, RowShapes}

-- Does the length of one of `rounds` lists, from the i-th on, differ from dim_size?
unfoldable pub differs : ListView → ℕ → ℕ → ℕ → Bool
differs view dim_size i zero = false
differs view dim_size i (suc rounds) =
    if not (dim_size == view.value_length i) then true else differs view dim_size (i + 1) rounds

-- SetRowShape, with the loop around it: the lists from `start` to `end'` are those of one row, and
-- `shape` is what the levels above gave.
unfoldable pub row_shape_loop : {V : Type 0} → ArrowArray V → ℕ → ℕ → IPosition → Result IPosition
unfolding differs is_value_type
row_shape_loop (flat a) start end' shape =
    if is_value_type a.arrow_type then ok shape else err not_implemented
row_shape_loop (nested kind view values) start end' shape =
    let dim_size = view.value_length start in
    let next =
      row_shape_loop values (view.value_offset start) (view.value_offset end')
        (shape ++ dim_size ∷ []) in
    if ltb 0 view.null_count
    then err not_implemented
    else if not (is_fixed_size kind) && differs view dim_size (start + 1) (end' - (start + 1))
    then err invalid
    else next

unfoldable pub get_row_shapes : {V : Type 0} → ArrowArray V → Result RowShapes
unfolding row_shape_loop
get_row_shapes array =
    map_result (λ r. row_shape_loop array r (r + 1) []) (iota (array_length array) 0)

-- What the loop of GetArrowResultShapeData keeps: the shape is in the order of the levels.
pub record ShapeState : Type 0 where
  pub fixed_shape : Bool
  pub shape : IPosition
  pub ndim : ℕ

unfoldable pub maybe_update_shape_and_ndim : ListKind → ListView → ShapeState → Result ShapeState
unfolding differs
maybe_update_shape_and_ndim kind view s =
    let dim_size = view.value_length 0 in
    if ltb 0 view.null_count
    then err not_implemented
    else if not s.fixed_shape
    then ok (record s { ndim = s.ndim + 1 })
    else if not (is_fixed_size kind) && differs view dim_size 0 view.list_length
    then ok (record s { ndim = s.ndim + 1; fixed_shape = false })
    else ok (record s { ndim = s.ndim + 1; shape = s.shape ++ dim_size ∷ [] })

unfoldable pub shape_loop : {V : Type 0} → ArrowArray V → ShapeState → Result ShapeState
unfolding maybe_update_shape_and_ndim is_value_type
shape_loop (flat a) s = if is_value_type a.arrow_type then ok s else err not_implemented
shape_loop (nested kind view values) s =
    maybe_update_shape_and_ndim kind view s >>= λ t. shape_loop values t

abbrev pub fixed_data : String → CasaType → ShapeState → ResultShapeData
fixed_data name dtype s = record {
  column_name = name;
  shape = some (reverse s.shape);
  ndim = s.ndim;
  dtype = dtype;
  row_shapes = none;
}

abbrev pub varying_data : String → CasaType → ℕ → RowShapes → ResultShapeData
varying_data name dtype ndim shapes = record {
  column_name = name;
  shape = none;
  ndim = ndim;
  dtype = dtype;
  row_shapes = some shapes;
}

unfoldable pub arrow_shape_of :
    {V : Type 0} → String → CasaType → ArrowArray V → ShapeState → Result ResultShapeData
unfolding get_row_shapes
arrow_shape_of name dtype array s =
    if s.fixed_shape
    then ok (fixed_data name dtype s)
    else get_row_shapes array >>= λ shapes. ok (varying_data name dtype s.ndim shapes)

abbrev pub start_state : ℕ → ShapeState
start_state n = record { fixed_shape = true; shape = n ∷ []; ndim = 1 }

unfoldable pub get_arrow_result_shape_data :
    {V : Type 0} → String → CasaType → Option (ArrowArray V) → Result ResultShapeData
unfolding shape_loop arrow_shape_of
get_arrow_result_shape_data name dtype none = err invalid
get_arrow_result_shape_data name dtype (some array) =
    shape_loop array (start_state (array_length array)) >>= arrow_shape_of name dtype array

-- The first dimension, which holds the pairs of a complex value, is left out.
unfoldable pub drop_pairs : IPosition → Result IPosition
drop_pairs [] = err invalid
drop_pairs (n ∷ shape) = if not (n == 2) then err invalid else ok shape

unfoldable pub drop_row_pairs : ResultShapeData → RowShapes → Result ResultShapeData
unfolding drop_pairs
drop_row_pairs shape_data shapes = map_result drop_pairs shapes >>= λ complex_shapes.
    ok (record shape_data { ndim = shape_data.ndim - 1; row_shapes = some complex_shapes })

-- The conversion of a fixed shape, or of the row shapes.
unfoldable pub to_complex :
    ResultShapeData → Option IPosition → Option RowShapes → Result ResultShapeData
unfolding drop_pairs drop_row_pairs
to_complex shape_data (some shape) row_shapes = drop_pairs shape >>= λ complex_shape.
    ok (record shape_data { shape = some complex_shape; ndim = length complex_shape })
to_complex shape_data none (some shapes) = drop_row_pairs shape_data shapes
to_complex shape_data none none = err invalid

unfoldable pub get_result_shape_data :
    {V : Type 0} → String → CasaType → Option (ArrowArray V) → Result ResultShapeData
unfolding get_arrow_result_shape_data is_complex to_complex
get_result_shape_data name dtype array =
    get_arrow_result_shape_data name dtype array >>= λ shape_data.
    if not (is_complex dtype)
    then ok shape_data
    else to_complex shape_data shape_data.shape shape_data.row_shapes
