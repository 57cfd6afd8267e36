-- ===== src/Shape/Write/Fits.antt =====
-- What MakeWrite of cpp/arcae/result_shape.cc accepts.
pub mod Dimensions
use casa_arrow.Base.{
  length-take, ℕ, ◌-◌, ◌≡◌, refl, ◌∙◌, sym, ap, subst, ◌≢◌, inl, inr, Bool, true, false, Option,
  some, none, List, [], ◌∷◌, length, take, arith, Bool-cases, Result, ok, err, bind-ok, then-ok,
}
use casa_arrow.Base.Int.{ℤ, is_negative, to_ℕ}
use casa_arrow.Selection.{Selection}
use casa_arrow.Shape.{ResultShapeData, IPosition}
use casa_arrow.Shape.Read.{TableColumn}
use casa_arrow.Shape.Write.{
  check_dimensions, grow_shape, cell_shape_of_data, visit_cell, visit_row, go_on, visit_rows,
}
use casa_arrow.Shape.Write.Fits.Dimensions.{Fits, check_dimensions-Fits, grow_shape-Fits}

-- What casacore's setShape does: the cell of the row is there, with the shape, and the other cells
-- are as before.
pub record SetsShape (set_shape : TableColumn → ℕ → IPosition → TableColumn) : Type 0 where
  pub defined : (c : TableColumn) (r : ℕ) (s : IPosition) → (set_shape c r s).is_defined r ≡ true
  pub shaped : (c : TableColumn) (r : ℕ) (s : IPosition) → (set_shape c r s).cell_shape r ≡ s
  pub others_defined :
      (c : TableColumn) (r q : ℕ) (s : IPosition)
      → q ≢ r
      → (set_shape c r s).is_defined q ≡ c.is_defined q
  pub others_shaped :
      (c : TableColumn) (r q : ℕ) (s : IPosition)
      → q ≢ r
      → (set_shape c r s).cell_shape q ≡ c.cell_shape q

-- The cells of a column are still there, with their shapes.
abbrev pub Extends : TableColumn → TableColumn → Type 0
Extends c d =
    (q : ℕ) → c.is_defined q ≡ true → (d.is_defined q ≡ true) × (d.cell_shape q ≡ c.cell_shape q)

-- The row has a cell, and what is selected is inside its shape. The rows with a negative index are
-- not written.
abbrev pub RowFits : Selection → ℕ → TableColumn → ℤ → Type 0
RowFits selection ndim c row =
    is_negative row ≡ false
    → (c.is_defined (to_ℕ row) ≡ true) × Fits selection ndim (c.cell_shape (to_ℕ row))

abbrev pub RowsFit : Selection → ℕ → TableColumn → List ℤ → Type 0
RowsFit selection ndim c [] = Unit {0}
RowsFit selection ndim c (row ∷ rows) = RowFits selection ndim c row × RowsFit selection ndim c rows

module _ (selection : Selection) (ndim : ℕ) where
  RowFits-Extends :
      (c d : TableColumn) (row : ℤ)
      → Extends c d
      → RowFits selection ndim c row
      → RowFits selection ndim d row
  RowFits-Extends c d row more fits there =
      let (defined, inside) = fits there in
      let (defined', same) = more (to_ℕ row) defined in
      (defined', subst (Fits selection ndim) (sym same) inside)

module _ (set_shape : TableColumn → ℕ → IPosition → TableColumn) (law : SetsShape set_shape)
    (selection : Selection) (shape_data : ResultShapeData)
    (dims : (s : IPosition) → shape_data.shape ≡ some s → length s ≡ shape_data.ndim) where
  set_shape-Extends :
      (c : TableColumn) (r : ℕ) (s : IPosition)
      → c.is_defined r ≡ false
      → Extends c (set_shape c r s)
  set_shape-Extends c r s new q there =
      let other : q ≢ r =
        λ same. absurd (let e : true ≡ false = sym there ∙ ap c.is_defined same ∙ new in cc) in
      (law.others_defined c r q s other ∙ there, law.others_shaped c r q s other)

  cell_shape_of_data-ok :
      (o : Option IPosition) (s : IPosition)
      → shape_data.shape ≡ o
      → cell_shape_of_data o ≡ ok s
      → length s ≡ shape_data.ndim - 1
  unfolding cell_shape_of_data
  cell_shape_of_data-ok none s h e = absurd (cc)
  cell_shape_of_data-ok (some shape) s h e =
      let same : take (length shape - 1) shape ≡ s = cc in
      ap length (sym same) ∙ length-take (length shape - 1) shape ∙ omega (arith, dims shape h)

  visit_cell-Fits :
      (c d : TableColumn) (r : ℕ) (there : Bool)
      → c.is_defined r ≡ there
      → visit_cell set_shape selection shape_data c r there ≡ ok d
      → Extends c d × (d.is_defined r ≡ true) × Fits selection shape_data.ndim (d.cell_shape r)
  unfolding visit_cell
  visit_cell-Fits c d r true h e =
      let (checked, done) =
        then-ok
          (check_dimensions selection shape_data.ndim (c.cell_shape r) (shape_data.ndim - 1) 0)
          (ok c) e in
      let same : c ≡ d = cc in
      subst
        (λ d.
          Extends c d × (d.is_defined r ≡ true) × Fits selection shape_data.ndim (d.cell_shape r))
        same
        (
          λ q k. (k, refl),
          h,
          check_dimensions-Fits selection shape_data.ndim (c.cell_shape r) (shape_data.ndim - 1) 0
              checked,
        )
  visit_cell-Fits c d r false h e =
      let grown = λ (s : IPosition). grow_shape selection shape_data.ndim 0 s in
      let (s, found, done) =
        bind-ok (cell_shape_of_data shape_data.shape) (λ s. ok (set_shape c r (grown s))) e in
      let same : set_shape c r (grown s) ≡ d = cc in
      let len = cell_shape_of_data-ok shape_data.shape s refl found in
      subst
        (λ d.
          Extends c d × (d.is_defined r ≡ true) × Fits selection shape_data.ndim (d.cell_shape r))
        same
        (
          set_shape-Extends c r (grown s) h,
          law.defined c r (grown s),
          subst (Fits selection shape_data.ndim) (sym (law.shaped c r (grown s))) (
              grow_shape-Fits selection shape_data.ndim 0 [] s (shape_data.ndim - 1) refl
                (omega arith)),
        )

  visit_row-RowFits :
      (c d : TableColumn) (row : ℤ)
      → visit_row set_shape selection shape_data c row ≡ ok d
      → Extends c d × RowFits selection shape_data.ndim d row
  unfolding visit_row
  visit_row-RowFits c d row e = elim (Bool-cases (is_negative row)) [
    | inl negative ↦
        let same : c ≡ d = ground arith in
        (
          subst (Extends c) same (λ q k. (k, refl)),
          λ there. absurd (let e : true ≡ false = sym negative ∙ there in cc),
        )
    | inr there ↦
        let e' : visit_cell set_shape selection shape_data c (to_ℕ row) (c.is_defined (to_ℕ row))
            ≡ ok d =
          rw there at e in
        let (more, defined, inside) =
          visit_cell-Fits c d (to_ℕ row) (c.is_defined (to_ℕ row)) refl e' in
        (more, λ _. (defined, inside))
  ]

  pub visit_rows-RowsFit :
      (rows : List ℤ) (c d : TableColumn)
      → visit_rows set_shape selection shape_data rows c ≡ (d, ok tt)
      → Extends c d × RowsFit selection shape_data.ndim d rows
  unfolding visit_rows
  visit_rows-RowsFit [] c d e =
      let same : c ≡ d = ap (λ p. p.0) e in (subst (Extends c) same (λ q h. (h, refl)), tt)
  visit_rows-RowsFit (row ∷ rows) c d e =
      by_row (visit_row set_shape selection shape_data c row) refl e
        (λ c'. visit_rows-RowsFit rows c' d)
    where
      by_row :
          (r : Result TableColumn)
          → visit_row set_shape selection shape_data c row ≡ r
          → go_on (visit_rows set_shape selection shape_data rows) c r ≡ (d, ok tt)
          → ((c' : TableColumn)
              → visit_rows set_shape selection shape_data rows c' ≡ (d, ok tt)
              → Extends c' d × RowsFit selection shape_data.ndim d rows)
          → Extends c d × RowsFit selection shape_data.ndim d (row ∷ rows)
      by_row (err x) h k rest = absurd (let e : err x ≡ ok tt = ap (λ p. p.1) k in cc)
      by_row (ok c') h k rest =
          let (more, fits) = visit_row-RowFits c c' row h in
          let (more', fits') = rest c' k in
          (
            λ q there.
                let (there', same) = more q there in
                let (there'', same') = more' q there' in (there'', same' ∙ same),
            (RowFits-Extends selection shape_data.ndim c' d row more' fits, fits'),
          )
