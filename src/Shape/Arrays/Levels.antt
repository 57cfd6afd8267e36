-- ===== src/Shape/Arrays/Levels.antt =====
-- GetResultShapeData of cpp/arcae/result_shape.cc: the dimensions of a shape against the levels of
-- the lists in the array.
pub mod Rows
use Prim.Native.String.{String}
use casa_arrow.Base.{
  ℕ, suc, ◌+◌, ◌-◌, ◌≡◌, refl, ◌∙◌, sym, ap, ap₂, subst, inl, inr, not, some, none, [], ◌∷◌, ◌++◌,
  length, arith, if◌then◌else◌, Bool-cases, ok, ◌>>=◌, bind-ok, map_result,
}
use casa_arrow.CasaType.{CasaType, is_complex}
use casa_arrow.Arrow.{ArrowArray, array_length}
use casa_arrow.Shape.{ResultShapeData, IPosition, RowShapes}
use casa_arrow.Shape.Arrays.{
  get_arrow_result_shape_data, drop_pairs, drop_row_pairs, to_complex, get_result_shape_data,
}
use casa_arrow.Shape.Read.WellFormed.{map_result-length, AllOfDimensions}
use casa_arrow.Shape.Arrays.Levels.Rows.{levels, HasRows, get_arrow_result_shape_data-HasRows}

drop_pairs-ok : (shape rest : IPosition) → drop_pairs shape ≡ ok rest → shape ≡ 2 ∷ rest
unfolding drop_pairs
drop_pairs-ok [] rest e = absurd (cc)
drop_pairs-ok (n ∷ shape) rest e = ground arith

drop_pairs-AllOfDimensions :
    (n : ℕ) (shapes rest : RowShapes)
    → AllOfDimensions (suc n) shapes
    → map_result drop_pairs shapes ≡ ok rest
    → AllOfDimensions n rest
drop_pairs-AllOfDimensions n shapes [] h e = tt
drop_pairs-AllOfDimensions n [] (r ∷ rest) h e = absurd (cc)
drop_pairs-AllOfDimensions n (shape ∷ shapes) (r ∷ rest) h e =
    let (y, first, after) =
      bind-ok (drop_pairs shape) (λ y. map_result drop_pairs shapes >>= λ rest. ok (y ∷ rest)) e in
    let (tail, found, done) =
      bind-ok (map_result drop_pairs shapes) (λ tail. ok (y ∷ tail)) after in
    let same : r ∷ rest ≡ y ∷ tail = cc in
    let front : shape ≡ 2 ∷ r = drop_pairs-ok shape r (first ∙ ap ok (cc)) in
    (
      omega (arith, h.0, ap (λ (s : IPosition). length s) front),
      drop_pairs-AllOfDimensions n shapes rest h.1 (found ∙ ap ok (cc)),
    )

module _ (n depth : ℕ) (r c : ResultShapeData) where
  fixed-HasRows :
      (secondary : IPosition)
      → r.row_shapes ≡ none
      → length (secondary ++ n ∷ []) ≡ suc depth + 1
      → to_complex r (some (secondary ++ n ∷ [])) r.row_shapes ≡ ok c
      → HasRows n depth c
  unfolding to_complex
  fixed-HasRows [] none_there dims e = absurd (omega arith)
  fixed-HasRows (m ∷ secondary) none_there dims e =
      let kept = λ (shape : IPosition). record r { shape = some shape; ndim = length shape } in
      let (rest, found, done) =
        bind-ok (drop_pairs (m ∷ secondary ++ n ∷ [])) (λ shape. ok (kept shape)) e in
      let tail : secondary ++ n ∷ [] ≡ rest =
        ground (arith, drop_pairs-ok (m ∷ secondary ++ n ∷ []) rest) in
      let same : kept (secondary ++ n ∷ []) ≡ c = ap kept tail ∙ ground arith in
      subst (HasRows n depth) same (
        omega arith,
        inl (record {
          secondary = secondary;
          whole_shape = refl;
          dimensions = refl;
          no_rows = none_there;
        }),
      )

  varying-HasRows :
      (shapes : RowShapes)
      → r.shape ≡ none
      → r.ndim ≡ suc depth + 1
      → length shapes ≡ n
      → AllOfDimensions (suc depth) shapes
      → drop_row_pairs r shapes ≡ ok c
      → HasRows n depth c
  unfolding drop_row_pairs
  varying-HasRows shapes none_there dims count each e =
      let kept = λ (rest : RowShapes). record r { ndim = r.ndim - 1; row_shapes = some rest } in
      let (rest, found, done) = bind-ok (map_result drop_pairs shapes) (λ rest. ok (kept rest)) e in
      let same : kept rest ≡ c = ground arith in
      subst (HasRows n depth) same (
        omega arith,
        inr (record {
          shapes = rest;
          no_shape = none_there;
          each_row = refl;
          count = map_result-length drop_pairs shapes rest found ∙ count;
          secondary_count = depth;
          dimensions = omega arith;
          all_dimensions = drop_pairs-AllOfDimensions depth shapes rest each found;
        }),
      )

  -- Without the first dimension, which has length 2.
  to_complex-HasRows :
      HasRows n (suc depth) r → to_complex r r.shape r.row_shapes ≡ ok c → HasRows n depth c
  unfolding drop_row_pairs to_complex
  to_complex-HasRows (dims, inl fixed) e =
      fixed-HasRows fixed.secondary fixed.no_rows (sym fixed.dimensions ∙ dims)
        (ap (λ s. to_complex r s r.row_shapes) (sym fixed.whole_shape) ∙ e)
  to_complex-HasRows (dims, inr varying) e =
      let same : varying.secondary_count ≡ suc depth = omega (arith, varying.dimensions) in
      varying-HasRows varying.shapes varying.no_shape dims varying.count
        (subst (λ k. AllOfDimensions k varying.shapes) same varying.all_dimensions)
        (ap₂ (λ s t. to_complex r s t) (sym varying.no_shape) (sym varying.each_row) ∙ e)

-- The dimensions that a value has in the array: a complex value is a pair.
abbrev pub value_levels : CasaType → ℕ
value_levels dtype = if is_complex dtype then 1 else 0

module _ {V : Type 0} (name : String) (dtype : CasaType) (array : ArrowArray V)
    (r : ResultShapeData) where
  -- The shape data of an array have the rows of the array, and a dimension for each level of its
  -- lists beside the row dimension, but for the level of the pairs of complex values: a fixed shape
  -- whose last dimension is the number of rows, or a shape for each row. The array of a column of
  -- complex values must have a list.
  pub get_result_shape_data-HasRows :
      (depth : ℕ)
      → levels array ≡ depth + value_levels dtype
      → get_result_shape_data name dtype (some array) ≡ ok r
      → HasRows (array_length array) depth r
  unfolding get_result_shape_data
  get_result_shape_data-HasRows depth deep e =
      let arrow = get_arrow_result_shape_data name dtype (some array) in
      let convert = λ (s : ResultShapeData).
        if not (is_complex dtype) then ok s else to_complex s s.shape s.row_shapes in
      let (s, found, after) = bind-ok arrow convert e in
      let rows = get_arrow_result_shape_data-HasRows name dtype array s found in
      elim (Bool-cases (is_complex dtype)) [
        | inl complex ↦
            let after' : to_complex s s.shape s.row_shapes ≡ ok r =
              ap (λ b. if not b then ok s else to_complex s s.shape s.row_shapes) (sym complex)
              ∙ after in
            let deep' : levels array ≡ suc depth = ground arith in
            to_complex-HasRows (array_length array) depth s r
              (subst (λ k. HasRows (array_length array) k s) deep' rows) after'
        | inr simple ↦
            let same : s ≡ r = ground arith in
            let deep' : levels array ≡ depth = ground arith in
            subst (λ k. HasRows (array_length array) k r) deep'
              (subst (HasRows (array_length array) (levels array)) same rows)
      ]
