-- ===== src/Shape/Write.antt =====
-- ResultShapeData::MakeWrite of cpp/arcae/result_shape.cc: whether the data of a write fit the column
-- and the selection. Cells that are not there yet get a shape, so the column is passed on;
-- setShape of casacore is an argument. A fault stands for an index behind the end of a shape, and
-- for GetShape of a varying shape, which throws where it is declared not to.
pub mod Accepted
pub mod Fits
use casa_arrow.Base.{
  ℕ, zero, suc, ◌+◌, ◌-◌, Bool, true, false, not, ◌&&◌, Option, some, none, List, [], ◌∷◌, length,
  take, max, if◌then◌else◌, ltb, leb, ◌==◌, get_elem?, Result, ok, err, Status, StatusCode,
  index_error, invalid, fault, or_fault, ◌>>=◌, ◌>>◌,
}
use casa_arrow.Base.Int.{ℤ, pos, negsuc, is_negative, to_ℕ, eqb_ℤ}
use casa_arrow.Arrow.{ArrowArray}
use casa_arrow.Selection.{Index, Selection, f_span_of, has_row_span, get_row_span}
use casa_arrow.Shape.{ResultShapeData, IPosition}
use casa_arrow.Shape.Arrays.{get_result_shape_data}
use casa_arrow.Shape.Read.{TableColumn, exceeds, selected_rows, check_row_number_limit}

-- CheckSelectionAgainstShape, at the length of the dimension
unfoldable pub check_selection_against : Index → ℕ → Status
unfolding exceeds
check_selection_against span n =
    if ltb n (length span)
    then err index_error
    else if exceeds span n
    then err index_error
    else ok tt

-- shape[dim]
unfoldable pub dimension_of : IPosition → ℕ → Result ℕ
dimension_of shape dim = or_fault (get_elem? shape dim)

unfoldable pub check_dimension : IPosition → ℕ → Result Index → Status
unfolding check_selection_against dimension_of
check_dimension shape dim (err c) = ok tt
check_dimension shape dim (ok span) = dimension_of shape dim >>= check_selection_against span

-- The loop over the secondary dimensions, from `dim` on.
unfoldable pub check_dimensions : Selection → ℕ → IPosition → ℕ → ℕ → Status
unfolding check_dimension
check_dimensions selection ndim shape zero dim = ok tt
check_dimensions selection ndim shape (suc rounds) dim =
    check_dimension shape dim (f_span_of selection dim ndim)
    >> check_dimensions selection ndim shape rounds (dim + 1)

-- max(span_max + 1, n), over the indices of a span
unfoldable pub cover : Index → ℕ → ℕ
cover [] n = n
cover (pos i ∷ span) n = cover span (max (i + 1) n)
cover (negsuc i ∷ span) n = cover span n

unfoldable pub grow_dimension : Result Index → ℕ → ℕ
unfolding cover
grow_dimension (err c) n = n
grow_dimension (ok span) n = cover span n

-- The shape of a new cell: each dimension takes the greatest index that is selected.
unfoldable pub grow_shape : Selection → ℕ → ℕ → IPosition → IPosition
unfolding grow_dimension
grow_shape selection ndim dim [] = []
grow_shape selection ndim dim (n ∷ shape) =
    grow_dimension (f_span_of selection dim ndim) n ∷ grow_shape selection ndim (dim + 1) shape

-- The shape of the data without the rows.
unfoldable pub cell_shape_of_data : Option IPosition → Result IPosition
cell_shape_of_data none = err fault
cell_shape_of_data (some shape) = ok (take (length shape - 1) shape)

-- Does the row selection fit into the column?
unfoldable pub check_row_span : TableColumn → Selection → Status
unfolding has_row_span get_row_span exceeds
check_row_span column selection =
    if not (has_row_span selection)
    then ok tt
    else if ltb column.nrow (length (get_row_span selection))
    then err index_error
    else if exceeds (get_row_span selection) column.nrow
    then err index_error
    else ok tt

unfoldable pub check_ndim : TableColumn → ResultShapeData → Status
check_ndim column shape_data =
    if not (eqb_ℤ column.n_dims (negsuc 0))
      && not (eqb_ℤ (pos shape_data.ndim) (pos (to_ℕ column.n_dims + 1)))
    then err invalid
    else ok tt

-- What comes before the secondary dimensions.
unfoldable pub accept_data :
    {V : Type 0} → TableColumn → ArrowArray V → Selection → Result ResultShapeData
unfolding check_row_number_limit get_result_shape_data check_ndim check_row_span
accept_data column array selection = do
  _ ← check_row_number_limit column.nrow
  shape_data ← get_result_shape_data column.name column.data_type (some array)
  _ ← check_ndim column shape_data
  _ ← check_row_span column selection
  ok shape_data

-- The loop ends with the first error, and keeps the shapes that were set.
unfoldable pub go_on :
    (TableColumn → TableColumn × Status) → TableColumn → Result TableColumn → TableColumn × Status
go_on next column (err c) = (column, err c)
go_on next column (ok column') = next column'

unfoldable pub finish_write :
    ResultShapeData → TableColumn × Status → TableColumn × Result ResultShapeData
finish_write shape_data (column, status) = (column, status >> ok shape_data)

module _ (set_shape : TableColumn → ℕ → IPosition → TableColumn) where
  -- The cell of a row, which is there or not.
  unfoldable pub visit_cell :
      Selection → ResultShapeData → TableColumn → ℕ → Bool → Result TableColumn
  unfolding check_dimensions cell_shape_of_data grow_shape
  visit_cell selection shape_data column r true =
      check_dimensions selection shape_data.ndim (column.cell_shape r) (shape_data.ndim - 1) 0
      >> ok column
  visit_cell selection shape_data column r false =
      cell_shape_of_data (shape_data.shape) >>= λ shape.
      ok (set_shape column r (grow_shape selection shape_data.ndim 0 shape))

  -- One round of the loop over the rows.
  unfoldable pub visit_row : Selection → ResultShapeData → TableColumn → ℤ → Result TableColumn
  unfolding visit_cell
  visit_row selection shape_data column row =
      if is_negative row
      then ok column
      else visit_cell selection shape_data column (to_ℕ row) (column.is_defined (to_ℕ row))

  unfoldable pub visit_rows :
      Selection → ResultShapeData → List ℤ → TableColumn → TableColumn × Status
  unfolding visit_row go_on
  visit_rows selection shape_data [] column = (column, ok tt)
  visit_rows selection shape_data (row ∷ rows) column =
      go_on (visit_rows selection shape_data rows) column
        (visit_row selection shape_data column row)

  -- The checks of the secondary dimensions, for the shape of a column of fixed shape.
  unfoldable pub check_secondary :
      TableColumn → Selection → ResultShapeData → Option IPosition → TableColumn × Status
  unfolding check_dimensions visit_rows selected_rows
  check_secondary column selection shape_data (some shape) =
      (column, check_dimensions selection shape_data.ndim shape (shape_data.ndim - 1) 0)
  check_secondary column selection shape_data none =
      visit_rows selection shape_data (selected_rows column selection) column

  unfoldable pub check_accepted :
      TableColumn → Selection → Result ResultShapeData → TableColumn × Result ResultShapeData
  unfolding check_secondary finish_write
  check_accepted column selection (err c) = (column, err c)
  check_accepted column selection (ok shape_data) =
      if leb shape_data.ndim 1
      then (column, ok shape_data)
      else finish_write shape_data
          (check_secondary column selection shape_data (column.fixed_shape))

  unfoldable pub make_write :
      {V : Type 0}
      → TableColumn
      → Option (ArrowArray V)
      → Selection
      → TableColumn × Result ResultShapeData
  unfolding accept_data check_accepted
  make_write column none selection = (column, err invalid)
  make_write column (some array) selection =
      check_accepted column selection (accept_data column array selection)
