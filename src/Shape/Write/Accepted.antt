-- ===== src/Shape/Write/Accepted.antt =====
-- MakeWrite of cpp/arcae/result_shape.cc as a whole: what holds where it accepts the data.
use casa_arrow.Base.{
  ℕ, ◌+◌, ◌-◌, ◌≤◌, ◌<◌, ◌≡◌, ◌∙◌, sym, ap, inl, inr, true, Option, some, none, List, [], ◌∷◌, ◌++◌,
  length, arith, leb, leb→le, Bool-cases, Result, ok, err, Status, bind-ok,
}
use casa_arrow.Base.Int.{ℤ}
use casa_arrow.Arrow.{ArrowArray, array_length}
use casa_arrow.Selection.{Selection, has_row_span, get_row_span}
use casa_arrow.Shape.{ResultShapeData, IPosition}
use casa_arrow.Shape.Arrays.{get_result_shape_data}
use casa_arrow.Shape.Arrays.Levels.{value_levels, get_result_shape_data-HasRows}
use casa_arrow.Shape.Arrays.Levels.Rows.{levels, HasRows}
use casa_arrow.Shape.Read.{TableColumn, selected_rows, check_row_number_limit}
use casa_arrow.Shape.Write.{
  check_row_span, check_ndim, accept_data, check_secondary, finish_write, check_accepted,
  make_write,
}
use casa_arrow.Shape.Write.Fits.{SetsShape, RowsFit, visit_rows-RowsFit}
use casa_arrow.Shape.Write.Fits.Dimensions.{AllBelow, exceeds-AllBelow, Fits, check_dimensions-Fits}

-- The row selection, if there is one, names rows of the column.
abbrev pub RowsInside : TableColumn → Selection → Type 0
RowsInside column selection =
    has_row_span selection ≡ true
    → (length (get_row_span selection) ≤ column.nrow)
      × AllBelow (get_row_span selection) column.nrow

-- What the selection picks of a cell is inside the cells of the column, as the write leaves it.
abbrev pub CellsFit : Selection → ℕ → Option IPosition → TableColumn → List ℤ → Type 0
CellsFit selection ndim (some shape) d rows = Fits selection ndim shape
CellsFit selection ndim none d rows = RowsFit selection ndim d rows

check_row_span-RowsInside :
    (column : TableColumn) (selection : Selection)
    → check_row_span column selection ≡ ok tt
    → RowsInside column selection
unfolding check_row_span
check_row_span-RowsInside column selection e rows =
    (ground arith, exceeds-AllBelow (get_row_span selection) column.nrow (ground arith))

module _ {V : Type 0} (column : TableColumn) (array : ArrowArray V) (selection : Selection)
    (shape_data : ResultShapeData) where
  accept_data-ok :
      accept_data column array selection ≡ ok shape_data
      → (get_result_shape_data column.name column.data_type (some array) ≡ ok shape_data)
        × RowsInside column selection
  unfolding accept_data
  accept_data-ok e =
      let (u, limit, after) = bind-ok (check_row_number_limit column.nrow) _ e in
      let (data', shaped, after') =
        bind-ok (get_result_shape_data column.name column.data_type (some array)) _ after in
      let (v, dims, after'') = bind-ok (check_ndim column data') _ after' in
      let (w, rows, done) = bind-ok (check_row_span column selection) _ after'' in
      let same : data' ≡ shape_data = cc in
      (shaped ∙ ap ok same, check_row_span-RowsInside column selection rows)

HasRows-length :
    (n depth : ℕ) (r : ResultShapeData) (s : IPosition)
    → HasRows n depth r
    → r.shape ≡ some s
    → length s ≡ r.ndim
HasRows-length n depth r s (dims, inl fixed) e =
    let same : fixed.secondary ++ n ∷ [] ≡ s = cc (fixed.whole_shape, e) in
    ap length (sym same) ∙ sym fixed.dimensions
HasRows-length n depth r s (dims, inr varying) e = absurd (cc (varying.no_shape, e))

module _ (set_shape : TableColumn → ℕ → IPosition → TableColumn) (law : SetsShape set_shape)
    (column : TableColumn) (selection : Selection) (shape_data : ResultShapeData) where
  check_secondary-CellsFit :
      (fixed_shape : Option IPosition) (d : TableColumn)
      → ((s : IPosition) → shape_data.shape ≡ some s → length s ≡ shape_data.ndim)
      → check_secondary set_shape column selection shape_data fixed_shape ≡ (d, ok tt)
      → CellsFit selection shape_data.ndim fixed_shape d (selected_rows column selection)
  unfolding check_secondary
  check_secondary-CellsFit (some shape) d dims e =
      check_dimensions-Fits selection shape_data.ndim shape (shape_data.ndim - 1) 0
        (ap (λ p. p.1) e)
  check_secondary-CellsFit none d dims e =
      (visit_rows-RowsFit set_shape law selection shape_data dims (selected_rows column selection)
        column d e).1

finish_write-ok :
    (s r : ResultShapeData) (p : TableColumn × Status) (d : TableColumn)
    → finish_write s p ≡ (d, ok r)
    → (s ≡ r) × (p ≡ (d, ok tt))
unfolding finish_write
finish_write-ok s r (c, err x) d e = absurd (let e' : err x ≡ ok r = ap (λ p. p.1) e in cc)
finish_write-ok s r (c, ok tt) d e =
    let same : c ≡ d = ap (λ p. p.0) e in
    let e' : ok s ≡ ok r = ap (λ p. p.1) e in (cc, ap (λ c. (c, ok tt)) same)

module _ {V : Type 0} (set_shape : TableColumn → ℕ → IPosition → TableColumn) (column : TableColumn)
    (array : ArrowArray V) (selection : Selection) where
  check_accepted-ok :
      (accepted : Result ResultShapeData) (d : TableColumn) (r : ResultShapeData)
      → check_accepted set_shape column selection accepted ≡ (d, ok r)
      → (accepted ≡ ok r)
        × (1 < r.ndim
            → check_secondary set_shape column selection r column.fixed_shape ≡ (d, ok tt))
  unfolding check_accepted
  check_accepted-ok (err c) d r e = absurd (let e' : err c ≡ ok r = ap (λ p. p.1) e in cc)
  check_accepted-ok (ok s) d r e = elim (Bool-cases (leb s.ndim 1)) [
    | inl few ↦
        let e' : ◌≡◌ {A = TableColumn × Result ResultShapeData} (column, ok s) (d, ok r) =
          rw few at e in
        let done : ok s ≡ ok r = ap (λ p. p.1) e' in
        let same : s ≡ r = cc in
        let few' = leb→le s.ndim 1 few in
        (done, λ several. absurd (omega (arith, ap (λ (x : ResultShapeData). x.ndim) same)))
    | inr more ↦
        let rest = check_secondary set_shape column selection s (column.fixed_shape) in
        let e' : finish_write s rest ≡ (d, ok r) = rw more at e in
        let (same, checked) = finish_write-ok s r rest d e' in
        (
          ap ok same,
          λ several.
              ap (λ x. check_secondary set_shape column selection x column.fixed_shape) (sym same)
              ∙ checked,
        )
  ]

  -- Where MakeWrite accepts data for a column (an array of a complex column has a list), the shape
  -- data have the rows of the array and a dimension for each level of its lists; the row selection,
  -- if there is one, names rows of the column; and, if there are secondary dimensions, every index that is selected
  -- in one is inside the shape of a column of fixed shape, and otherwise inside the shape of the
  -- cell of every selected row, which then is there.
  pub make_write-CellsFit :
      (depth : ℕ) (d : TableColumn) (r : ResultShapeData)
      → SetsShape set_shape
      → levels array ≡ depth + value_levels column.data_type
      → make_write set_shape column (some array) selection ≡ (d, ok r)
      → HasRows (array_length array) depth r
        × RowsInside column selection
        × (1 < r.ndim
            → CellsFit selection r.ndim column.fixed_shape d (selected_rows column selection))
  unfolding make_write
  make_write-CellsFit depth d r law deep e =
      let (accepted, checked) = check_accepted-ok (accept_data column array selection) d r e in
      let (shaped, rows) = accept_data-ok column array selection r accepted in
      let has_rows =
        get_result_shape_data-HasRows column.name column.data_type array r depth deep shaped in
      (
        has_rows,
        rows,
        λ several.
            check_secondary-CellsFit set_shape law column selection r column.fixed_shape d
              (λ s. HasRows-length (array_length array) depth r s has_rows) (checked several),
      )
