-- ===== src/Shape.antt =====
-- cpp/arcae/result_shape.h, and the methods of ResultShapeData in cpp/arcae/result_shape.cc.
-- A casacore IPosition is the list of its lengths, in FORTRAN order: the first runs fastest.
pub mod Arrays
pub mod Offset
pub mod Offsets
pub mod Read
pub mod Varying
pub mod Write
use Prim.Native.String.{String}
use casa_arrow.Base.{
  ℕ, zero, suc, ◌+◌, ◌-◌, ◌*◌, max, Bool, true, false, Option, none, some, List, [], ◌∷◌, length,
  take, get_or, product, if◌then◌else◌,
}
use casa_arrow.Base.Words.{wrap}
use casa_arrow.CasaType.{CasaType}

abbrev pub IPosition : Type 0
IPosition = List ℕ

abbrev pub RowShapes : Type 0
RowShapes = List IPosition

pub record ResultShapeData : Type 0 where
  pub column_name : String
  pub shape : Option IPosition
  pub ndim : ℕ
  pub dtype : CasaType
  pub row_shapes : Option RowShapes

-- GetName, nDim and GetDataType are the fields `column_name`, `ndim` and `dtype`.
unfoldable pub is_fixed : ResultShapeData → Bool
is_fixed data' = elim (data'.shape) [ some _ ↦ true | none ↦ false ]

-- GetShape, which the source calls on fixed shapes only.
abbrev pub get_shape : ResultShapeData → IPosition
get_shape data' = elim (data'.shape) [ some shape ↦ shape | none ↦ [] ]

-- The row shapes, which the source reads on varying shapes only.
abbrev pub all_row_shapes : ResultShapeData → RowShapes
all_row_shapes data' = elim (data'.row_shapes) [ some shapes ↦ shapes | none ↦ [] ]

-- GetRowShape
abbrev pub get_row_shape : ResultShapeData → ℕ → IPosition
get_row_shape data' row = get_or (all_row_shapes data') row []

-- IPosition::last
abbrev pub last : IPosition → ℕ
last [] = 0
last (n ∷ []) = n
last (n ∷ m ∷ shape) = last (m ∷ shape)

unfoldable pub n_rows : ResultShapeData → ℕ
unfolding is_fixed
n_rows data' = if is_fixed data' then last (get_shape data') else length (all_row_shapes data')

-- *std::max_element, of the lengths of a shape that is not empty
abbrev pub max_element : IPosition → ℕ
max_element [] = 0
max_element (n ∷ shape) = max n (max_element shape)

-- The loop over the row shapes.
unfoldable pub max_over_rows : ℕ → RowShapes → ℕ
max_over_rows max_size [] = max_size
max_over_rows max_size (shape ∷ shapes) = max_over_rows (max max_size (max_element shape)) shapes

unfoldable pub max_dimension_size : ResultShapeData → ℕ
unfolding is_fixed max_over_rows n_rows
max_dimension_size data' =
    if is_fixed data'
    then max_element (get_shape data')
    else max_over_rows (n_rows data') (all_row_shapes data')

-- The loop of FlatOffset over the first `bound` dimensions, with `offset` and `product`.
unfoldable pub offset_loop : ℕ → ℕ → ℕ → List ℕ → IPosition → ℕ
offset_loop zero offset product index shape = offset
offset_loop (suc bound) offset product [] shape = offset
offset_loop (suc bound) offset product (i ∷ index) [] = offset
offset_loop (suc bound) offset product (i ∷ index) (n ∷ shape) =
    offset_loop bound (wrap (offset + i * product)) (wrap (product * n)) index shape

-- std::accumulate over the numbers of elements of row shapes
unfoldable pub sum_products : ℕ → RowShapes → ℕ
sum_products total [] = total
sum_products total (shape ∷ shapes) = sum_products (wrap (total + product shape)) shapes

-- Memory indices are not negative, so the index is a list of numbers.
unfoldable pub flat_offset : ResultShapeData → List ℕ → ℕ
unfolding is_fixed offset_loop sum_products
flat_offset data' index =
    if is_fixed data'
    then offset_loop data'.ndim 0 1 index (get_shape data')
    else let row = get_or index (data'.ndim - 1) 0 in
      let offset = offset_loop (data'.ndim - 1) 0 1 index (get_row_shape data' row) in
      sum_products offset (take row (all_row_shapes data'))

unfoldable pub n_elements : ResultShapeData → ℕ
unfolding is_fixed sum_products
n_elements data' =
    if is_fixed data'
    then wrap (product (get_shape data'))
    else sum_products 0 (all_row_shapes data')
