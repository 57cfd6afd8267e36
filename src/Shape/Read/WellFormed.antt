-- ===== src/Shape/Read/WellFormed.antt =====
-- What MakeRead of cpp/arcae/result_shape.cc returns.
use casa_arrow.Base.{
  ℕ, suc, ◌+◌, ◌≡◌, refl, ◌∙◌, ap, inl, inr, ◌⊎◌, Bool, true, false, ◌&&◌, Option, some, none, List,
  [], ◌∷◌, ◌++◌, length, length-map, length-iota, iota, arith, ◌==◌, Bool-cases, Result, ok, err,
  ◌>>=◌, bind-ok, not_implemented, map_result, if◌then◌else◌,
}
use casa_arrow.Base.Int.{pos}
use casa_arrow.Arrow.{ArrowArray}
use casa_arrow.Selection.{Selection, has_row_span}
use casa_arrow.Shape.{ResultShapeData, IPosition, RowShapes}
use casa_arrow.Shape.Read.{
  TableColumn, clip_shape, selected_rows, n_selected_rows, make_row_data, eq_shape, identify,
  check_shape_matches_result, check_row_number_limit, array_shape, fixed_result, varying_result,
  from_row_shapes, make_read,
}

-- All shapes have n dimensions.
abbrev pub AllOfDimensions : ℕ → RowShapes → Type 0
AllOfDimensions n [] = Unit
AllOfDimensions n (shape ∷ shapes) = (length shape ≡ n) × AllOfDimensions n shapes

-- A shape for the whole result, with the row dimension last.
pub record IsFixedResult (nrows : ℕ) (r : ResultShapeData) : Type 0 where
  pub secondary : IPosition
  pub whole_shape : r.shape ≡ some (secondary ++ nrows ∷ [])
  pub dimensions : r.ndim ≡ length (secondary ++ nrows ∷ [])
  pub no_rows : r.row_shapes ≡ none

-- A shape for every row, all of them with the dimensions of the result but one.
pub record IsVaryingResult (nrows : ℕ) (r : ResultShapeData) : Type 0 where
  pub shapes : RowShapes
  pub no_shape : r.shape ≡ none
  pub each_row : r.row_shapes ≡ some shapes
  pub count : length shapes ≡ nrows
  pub secondary_count : ℕ
  pub dimensions : r.ndim ≡ secondary_count + 1
  pub all_dimensions : AllOfDimensions secondary_count shapes

module _ {ℓ κ} {A : Type ℓ} {B : Type κ} where
  pub map_result-length :
      (f : A → Result B) (xs : List A) (ys : List B)
      → map_result f xs ≡ ok ys
      → length ys ≡ length xs
  map_result-length f [] [] e = refl
  map_result-length f [] (y ∷ ys) e = absurd (cc)
  map_result-length f (x ∷ xs) ys e =
      let (y, first, after) = bind-ok (f x) (λ y. map_result f xs >>= λ rest. ok (y ∷ rest)) e in
      let (rest, found, done) = bind-ok (map_result f xs) (λ rest. ok (y ∷ rest)) after in
      let same : ys ≡ y ∷ rest = cc in ap length same ∙ ap suc (map_result-length f xs rest found)

length-selected_rows :
    (column : TableColumn) (selection : Selection)
    → length (selected_rows column selection) ≡ n_selected_rows column selection
unfolding selected_rows n_selected_rows
length-selected_rows column selection = elim (Bool-cases (has_row_span selection)) [
  | inl rows ↦ rw rows refl
  | inr all ↦ rw all (length-map (iota column.nrow 0) pos ∙ length-iota column.nrow 0)
]

identify-AllOfDimensions :
    (front : IPosition) (shapes : RowShapes) (b equal : Bool)
    → identify front shapes b ≡ some equal
    → AllOfDimensions (length front) shapes
unfolding identify
identify-AllOfDimensions front [] b equal e = tt
identify-AllOfDimensions front (shape ∷ shapes) b equal e =
    elim (Bool-cases (length front == length shape)) [
      | inr differ ↦ absurd (ground (arith, differ, e))
      | inl same ↦
          let rest : identify front shapes (b && eq_shape front shape) ≡ some equal =
            ground (arith, same, e) in
          (
            ground (arith, same),
            identify-AllOfDimensions front shapes (b && eq_shape front shape) equal rest,
          )
    ]

module _ (column : TableColumn) (nrows : ℕ) (result_shape : Option IPosition) where
  fixed_result-IsFixedResult :
      (secondary : IPosition) (r : ResultShapeData)
      → fixed_result column nrows result_shape secondary ≡ ok r
      → IsFixedResult nrows r
  unfolding fixed_result
  fixed_result-IsFixedResult secondary r e =
      let (u, checked, done) =
        bind-ok (check_shape_matches_result (secondary ++ nrows ∷ []) result_shape) _ e in
      record { secondary = secondary; whole_shape = cc; dimensions = cc; no_rows = cc }

  from_row_shapes-cases :
      (shapes : RowShapes) (r : ResultShapeData)
      → length shapes ≡ nrows
      → from_row_shapes column nrows result_shape shapes ≡ ok r
      → IsFixedResult nrows r ⊎ IsVaryingResult nrows r
  unfolding from_row_shapes varying_result
  from_row_shapes-cases [] r count e = absurd (cc)
  from_row_shapes-cases (front ∷ shapes) r count e = identified (identify front shapes true) refl e
    where
      identified :
          (found : Option Bool)
          → identify front shapes true ≡ found
          → (elim found [
            | none ↦ err not_implemented
            | some shapes_equal ↦
                if shapes_equal
                then fixed_result column nrows result_shape front
                else ok (varying_result column front (front ∷ shapes))
          ])
            ≡ ok r
          → IsFixedResult nrows r ⊎ IsVaryingResult nrows r
      identified none found k = absurd (cc)
      identified (some true) found k = inl (fixed_result-IsFixedResult front r k)
      identified (some false) found k = inr (record {
        shapes = front ∷ shapes;
        no_shape = cc;
        each_row = cc;
        count = count;
        secondary_count = length front;
        dimensions = cc;
        all_dimensions = (refl, identify-AllOfDimensions front shapes true false found);
      })

-- Where MakeRead succeeds, the result has one shape, with the number of selected rows as its last
-- dimension, or one shape for each selected row, all of them with one dimension less than the
-- result.
pub make_read-cases :
    {V : Type 0} (column : TableColumn) (selection : Selection) (result : Option (ArrowArray V))
    (r : ResultShapeData)
    → make_read column selection result ≡ ok r
    → IsFixedResult (n_selected_rows column selection) r
      ⊎ IsVaryingResult (n_selected_rows column selection) r
unfolding make_read make_row_data
make_read-cases column selection result r e =
    let nrows = n_selected_rows column selection in
    let (u, limit, after) = bind-ok (check_row_number_limit column.nrow) _ e in
    let (result_shape, arrayed, rest) = bind-ok (array_shape column result) _ after in
    by_column result_shape (column.fixed_shape) rest
  where
    by_column :
        (result_shape fixed_shape : Option IPosition)
        → (elim fixed_shape [
          | some shape ↦
              clip_shape selection shape
              >>= fixed_result column (n_selected_rows column selection) result_shape
          | none ↦
              make_row_data column selection result_shape
              >>= from_row_shapes column (n_selected_rows column selection) result_shape
        ])
          ≡ ok r
        → IsFixedResult (n_selected_rows column selection) r
          ⊎ IsVaryingResult (n_selected_rows column selection) r
    by_column result_shape (some shape) k =
        let (secondary, clipped, done) = bind-ok (clip_shape selection shape) _ k in
        inl (
          fixed_result-IsFixedResult column (n_selected_rows column selection) result_shape
            secondary r done)
    by_column result_shape none k =
        let (shapes, rows, done) = bind-ok (make_row_data column selection result_shape) _ k in
        from_row_shapes-cases column (n_selected_rows column selection) result_shape shapes r
          (map_result-length _ (selected_rows column selection) shapes rows
            ∙ length-selected_rows column selection)
          done
