-- ===== src/Shape/Read.antt =====
-- ResultShapeData::MakeRead of cpp/arcae/result_shape.cc and the functions it calls: the shape of
-- the result of a read, from the column, the selection and the result array, if one is given. The
-- column is a casacore object: the record holds what is asked of it.
pub mod Clip
pub mod WellFormed
use Prim.Native.String.{String}
use casa_arrow.Base.{
  ℕ, zero, suc, ◌+◌, ◌-◌, ◌^◌, Bool, true, false, not, ◌&&◌, ◌||◌, Option, some, none, List, [],
  ◌∷◌, ◌++◌, map, length, take, iota, if◌then◌else◌, leb, ◌==◌, Result, ok, err, Status,
  index_error, fault, invalid, not_implemented, ◌>>=◌, ◌>>◌, map_result,
}
use casa_arrow.Base.Int.{ℤ, pos, is_negative, to_ℕ, ltb_ℤ}
use casa_arrow.CasaType.{CasaType}
use casa_arrow.Arrow.{ArrowArray}
use casa_arrow.Selection.{Index, Selection, size, f_span_of, has_row_span, get_row_span}
use casa_arrow.Shape.{ResultShapeData, IPosition, RowShapes, is_fixed, get_shape}
use casa_arrow.Shape.Arrays.{get_result_shape_data}

-- What the program asks of a casacore TableColumn and its description.
pub record TableColumn : Type 0 where
  pub name : String
  pub nrow : ℕ
  pub data_type : CasaType
  -- ndim of the description, which is -1 where the number of dimensions is free
  pub n_dims : ℤ
  pub fixed_shape : Option IPosition
  pub is_defined : ℕ → Bool
  pub cell_shape : ℕ → IPosition

-- GetRowShape, at a row of the selection
unfoldable pub row_shape_of : TableColumn → Option IPosition → ℤ → Result IPosition
row_shape_of column result_shape r =
    if is_negative r
    then elim result_shape [
      | none ↦ err index_error
      -- `shape.size() - 1` of a shape without dimensions wraps round, and getFirst goes astray.
      | some shape ↦ if length shape == 0 then err fault else ok (take (length shape - 1) shape)
    ]
    else if leb column.nrow (to_ℕ r)
    then err index_error
    else if column.is_defined (to_ℕ r)
    then ok (column.cell_shape (to_ℕ r))
    else err index_error

-- Is one of the indices too large for the dimension?
unfoldable pub exceeds : Index → ℕ → Bool
exceeds [] n = false
exceeds (i ∷ span) n = if not (ltb_ℤ i (pos n)) then true else exceeds span n

unfoldable pub clip_dimension : Selection → ℕ → ℕ → ℕ → Result ℕ
unfolding exceeds
clip_dimension selection ndim dim n = elim (f_span_of selection dim ndim) [
  | ok span ↦ if exceeds span n then err index_error else ok (length span)
  | err c ↦ ok n
]

-- The loop of ClipShape, from `dim` on.
unfoldable pub clip_loop : Selection → ℕ → ℕ → IPosition → Result IPosition
unfolding clip_dimension
clip_loop selection ndim dim [] = ok []
clip_loop selection ndim dim (n ∷ shape) = do
  clipped ← clip_dimension selection ndim dim n
  rest ← clip_loop selection ndim (dim + 1) shape
  ok (clipped ∷ rest)

unfoldable pub clip_shape : Selection → IPosition → Result IPosition
unfolding clip_loop size
clip_shape selection shape =
    if leb (size selection) 1 then ok shape else clip_loop selection (length shape + 1) 0 shape

-- The rows that are read.
unfoldable pub selected_rows : TableColumn → Selection → Index
unfolding has_row_span get_row_span
selected_rows column selection =
    if has_row_span selection then get_row_span selection else map pos (iota column.nrow 0)

unfoldable pub make_row_data : TableColumn → Selection → Option IPosition → Result RowShapes
unfolding row_shape_of clip_shape selected_rows
make_row_data column selection result_shape =
    map_result (λ r. row_shape_of column result_shape r >>= clip_shape selection)
      (selected_rows column selection)

-- IPosition::operator==
unfoldable pub eq_shape : IPosition → IPosition → Bool
eq_shape [] [] = true
eq_shape (n ∷ shape) (m ∷ shape') = n == m && eq_shape shape shape'
eq_shape _ _ = false

unfoldable pub check_shape_matches_result : IPosition → Option IPosition → Status
unfolding eq_shape
check_shape_matches_result shape none = ok tt
check_shape_matches_result shape (some result_shape) =
    if not (length shape == length result_shape) || not (eq_shape shape result_shape)
    then err invalid
    else ok tt

unfoldable pub check_row_number_limit : ℕ → Status
check_row_number_limit nrows = if leb nrows (2 ^ 63 - 1) then ok tt else err index_error

-- The shape of the result array, if it is fixed.
unfoldable pub array_shape :
    {V : Type 0} → TableColumn → Option (ArrowArray V) → Result (Option IPosition)
unfolding is_fixed get_result_shape_data
array_shape column none = ok none
array_shape column (some result) = do
  result_data ← get_result_shape_data column.name column.data_type (some result)
  ok (if is_fixed result_data then some (get_shape result_data) else none)

-- The loop behind the first shape: are all shapes equal to it? `none` where the number of
-- dimensions varies.
unfoldable pub identify : IPosition → RowShapes → Bool → Option Bool
unfolding eq_shape
identify front [] shapes_equal = some shapes_equal
identify front (shape ∷ shapes) shapes_equal =
    let rest = identify front shapes (shapes_equal && eq_shape front shape) in
    if not (length front == length shape) then none else rest

unfoldable pub n_selected_rows : TableColumn → Selection → ℕ
unfolding has_row_span get_row_span
n_selected_rows column selection =
    if has_row_span selection then length (get_row_span selection) else column.nrow

-- A result of fixed shape, with the row dimension behind the others.
unfoldable pub fixed_result :
    TableColumn → ℕ → Option IPosition → IPosition → Result ResultShapeData
unfolding check_shape_matches_result
fixed_result column nselrow result_shape secondary = do
  let shape = secondary ++ nselrow ∷ []
  _ ← check_shape_matches_result shape result_shape
  ok (record {
    column_name = column.name;
    shape = some shape;
    ndim = length shape;
    dtype = column.data_type;
    row_shapes = none;
  })

unfoldable pub varying_result : TableColumn → IPosition → RowShapes → ResultShapeData
varying_result column front shapes = record {
  column_name = column.name;
  shape = none;
  ndim = length front + 1;
  dtype = column.data_type;
  row_shapes = some shapes;
}

-- What follows the row shapes of a column without a fixed shape.
unfoldable pub from_row_shapes :
    TableColumn → ℕ → Option IPosition → RowShapes → Result ResultShapeData
unfolding identify fixed_result varying_result
from_row_shapes column nselrow result_shape [] = err not_implemented
from_row_shapes column nselrow result_shape (front ∷ shapes) = elim (identify front shapes true) [
  | none ↦ err not_implemented
  | some shapes_equal ↦
      if shapes_equal
      then fixed_result column nselrow result_shape front
      else ok (varying_result column front (front ∷ shapes))
]

unfoldable pub make_read :
    {V : Type 0} → TableColumn → Selection → Option (ArrowArray V) → Result ResultShapeData
unfolding check_row_number_limit array_shape clip_shape make_row_data n_selected_rows
    from_row_shapes fixed_result
make_read column selection result = do
  _ ← check_row_number_limit column.nrow
  let nselrow = n_selected_rows column selection
  result_shape ← array_shape column result
  elim (column.fixed_shape) [
    | some shape ↦ clip_shape selection shape >>= fixed_result column nselrow result_shape
    | none ↦
        make_row_data column selection result_shape >>= from_row_shapes column nselrow result_shape
  ]
