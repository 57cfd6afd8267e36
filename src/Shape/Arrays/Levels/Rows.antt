-- ===== src/Shape/Arrays/Levels/Rows.antt =====
-- The levels and the rows of the shapes that GetArrowResultShapeData of cpp/arcae/result_shape.cc
-- finds.
use Prim.Native.String.{String}
use mathlib.Core.List.{reverse, reverse-cons, append_assoc, append-nil}
use casa_arrow.Base.{
  ℕ, suc, ◌+◌, ◌≡◌, refl, ◌∙◌, sym, ap, subst, ◌⊎◌, inl, inr, true, false, some, List, [], ◌∷◌,
  ◌++◌, length, iota, length-iota, length-append, length-reverse, arith, Bool-cases, Result, ok,
  ◌>>=◌, bind-ok, map_result,
}
use casa_arrow.CasaType.{CasaType}
use casa_arrow.Arrow.{ListKind, ListView, ArrowArray, flat, nested, array_length}
use casa_arrow.Shape.{ResultShapeData, IPosition, RowShapes}
use casa_arrow.Shape.Arrays.{
  row_shape_loop, get_row_shapes, ShapeState, maybe_update_shape_and_ndim, shape_loop,
  arrow_shape_of, start_state, fixed_data, varying_data, get_arrow_result_shape_data,
}
use casa_arrow.Shape.Read.WellFormed.{
  map_result-length, AllOfDimensions, IsFixedResult, IsVaryingResult,
}

-- The number of lists around the values.
abbrev pub levels : {V : Type 0} → ArrowArray V → ℕ
levels (flat a) = 0
levels (nested kind view values) = suc (levels values)

-- A shape that is still fixed has grown by n dimensions.
abbrev Grew : ℕ → ShapeState → ShapeState → Type 0
Grew n s t =
    (s.fixed_shape ≡ false → t.fixed_shape ≡ false)
    × (t.ndim ≡ s.ndim + n)
    × (t.fixed_shape ≡ true → (more : IPosition) × (t.shape ≡ s.shape ++ more) × (length more ≡ n))

maybe_update-Grew :
    (kind : ListKind) (view : ListView) (s t : ShapeState)
    → maybe_update_shape_and_ndim kind view s ≡ ok t
    → Grew 1 s t
unfolding maybe_update_shape_and_ndim
maybe_update-Grew kind view s t e =
    (λ h. ground arith, ground arith, λ h. (view.value_length 0 ∷ [], ground arith, refl))

module _ {V : Type 0} where
  shape_loop-Grew :
      (array : ArrowArray V) (s t : ShapeState)
      → shape_loop array s ≡ ok t
      → Grew (levels array) s t
  unfolding shape_loop
  shape_loop-Grew (flat a) s t e =
      let same : s ≡ t = ground arith in
      (
        λ h. ap (λ u. u.fixed_shape) (sym same) ∙ h,
        ap (λ u. u.ndim) (sym same) ∙ omega arith,
        λ h. ([], ap (λ u. u.shape) (sym same) ∙ sym (append-nil s.shape), refl),
      )
  shape_loop-Grew (nested kind view values) s t e =
      let (u, first, after) =
        bind-ok (maybe_update_shape_and_ndim kind view s) (λ u. shape_loop values u) e in
      let (varies, dims, grown) = maybe_update-Grew kind view s u first in
      let (varies', dims', grown') = shape_loop-Grew values u t after in
      let still_fixed = λ (h : t.fixed_shape ≡ true).
        elim (Bool-cases u.fixed_shape) as (λ _. u.fixed_shape ≡ true) [
          | inl fixed ↦ fixed
          | inr varying ↦ absurd (cc (varies' varying))
        ] in
      (
        λ h. varies' (varies h),
        omega arith,
        λ h.
            let (one, e, l) = grown (still_fixed h) in
            let (more, e', l') = grown' h in
            (
              one ++ more,
              e' ∙ ap (λ x. x ++ more) e ∙ append_assoc s.shape one more,
              omega (arith, length-append one more),
            ),
      )

  row_shape_loop-length :
      (array : ArrowArray V) (start end' : ℕ) (shape found : IPosition)
      → row_shape_loop array start end' shape ≡ ok found
      → length found ≡ length shape + levels array
  unfolding row_shape_loop
  row_shape_loop-length (flat a) start end' shape found e =
      let same : shape ≡ found = ground arith in ap length (sym same) ∙ omega arith
  row_shape_loop-length (nested kind view values) start end' shape found e =
      let dim_size = view.value_length start in
      let after : row_shape_loop values (view.value_offset start) (view.value_offset end')
            (shape ++ dim_size ∷ [])
          ≡ ok found =
        ground arith in
      omega (
        arith,
        row_shape_loop-length values (view.value_offset start) (view.value_offset end')
            (shape ++ dim_size ∷ []) found after,
        length-append shape (dim_size ∷ []),
      )

map_result-AllOfDimensions {ℓ} :
    {A : Type ℓ} (f : A → Result IPosition) (n : ℕ) (xs : List A) (shapes : RowShapes)
    → ((x : A) (shape : IPosition) → f x ≡ ok shape → length shape ≡ n)
    → map_result f xs ≡ ok shapes
    → AllOfDimensions n shapes
map_result-AllOfDimensions f n xs [] each e = tt
map_result-AllOfDimensions f n [] (shape ∷ shapes) each e = absurd (cc)
map_result-AllOfDimensions f n (x ∷ xs) (shape ∷ shapes) each e =
    let (y, first, after) = bind-ok (f x) (λ y. map_result f xs >>= λ rest. ok (y ∷ rest)) e in
    let (rest, found, done) = bind-ok (map_result f xs) (λ rest. ok (y ∷ rest)) after in
    let same : shape ∷ shapes ≡ y ∷ rest = cc in
    (
      each x shape (first ∙ ap ok (cc)),
      map_result-AllOfDimensions f n xs shapes each (found ∙ ap ok (cc)),
    )

-- A shape for n rows of `depth` more dimensions, or a shape for each row.
abbrev pub HasRows : ℕ → ℕ → ResultShapeData → Type 0
HasRows n depth r = (r.ndim ≡ depth + 1) × (IsFixedResult n r ⊎ IsVaryingResult n r)

module _ {V : Type 0} (name : String) (dtype : CasaType) (array : ArrowArray V) where
  arrow_shape_of-HasRows :
      (s : ShapeState) (r : ResultShapeData)
      → Grew (levels array) (start_state (array_length array)) s
      → arrow_shape_of name dtype array s ≡ ok r
      → HasRows (array_length array) (levels array) r
  unfolding arrow_shape_of get_row_shapes
  arrow_shape_of-HasRows s r (varies, dims, grown) e = elim (Bool-cases s.fixed_shape) [
    | inl fixed ↦
        let (more, all, count) = grown fixed in
        let same : fixed_data name dtype s ≡ r = ground arith in
        let turned : reverse s.shape ≡ reverse more ++ array_length array ∷ [] =
          ap reverse all ∙ reverse-cons (array_length array) more in
        let count' : s.ndim ≡ length (reverse more ++ array_length array ∷ []) =
          omega
            (arith, length-append (reverse more) (array_length array ∷ []), length-reverse more) in
        subst (HasRows (array_length array) (levels array)) same (
          omega arith,
          inl (record {
            secondary = reverse more;
            whole_shape = ap some turned;
            dimensions = count';
            no_rows = refl;
          }),
        )
    | inr varying ↦
        let rows =
          map_result (λ r. row_shape_loop array r (r + 1) []) (iota (array_length array) 0) in
        let e' : (rows >>= λ shapes. ok (varying_data name dtype s.ndim shapes)) ≡ ok r =
          rw varying at e in
        let (shapes, found, done) =
          bind-ok rows (λ shapes. ok (varying_data name dtype s.ndim shapes)) e' in
        let same : varying_data name dtype s.ndim shapes ≡ r = ground arith in
        subst (HasRows (array_length array) (levels array)) same (
          omega arith,
          inr (record {
            shapes = shapes;
            no_shape = refl;
            each_row = refl;
            count =
                map_result-length _ (iota (array_length array) 0) shapes found
                ∙ length-iota (array_length array) 0;
            secondary_count = levels array;
            dimensions = omega arith;
            all_dimensions =
                map_result-AllOfDimensions _ (levels array) (iota (array_length array) 0) shapes
                  (λ i shape h. row_shape_loop-length array i (i + 1) [] shape h ∙ omega arith)
                  found;
          }),
        )
  ]

  pub get_arrow_result_shape_data-HasRows :
      (r : ResultShapeData)
      → get_arrow_result_shape_data name dtype (some array) ≡ ok r
      → HasRows (array_length array) (levels array) r
  unfolding get_arrow_result_shape_data
  get_arrow_result_shape_data-HasRows r e =
      let start = start_state (array_length array) in
      let (s, looped, after) =
        bind-ok (shape_loop array start) (arrow_shape_of name dtype array) e in
      arrow_shape_of-HasRows s r (shape_loop-Grew array start s looped) after
