-- ===== src/Reading/Nesting/Lists.antt =====
-- The lists that MakeArray of cpp/arcae/read_impl.cc makes, level by level.
use mathlib.Core.List.{reverse, reverse-cons, append_assoc, append-nil}
use casa_arrow.Base.{
  ℕ, suc, ◌+◌, ◌*◌, ◌<◌, ◌≡◌, refl, ◌∙◌, sym, ap, ap₂, subst, inl, inr, true, false, some, [], ◌∷◌,
  ◌++◌, length, product, arith, if◌then◌else◌, Bool-cases, ok, ◌>>=◌,
}
use casa_arrow.CasaType.{
  CasaType, ArrowType, arrow_data_type, is_complex, is_string, is_primitive_type,
}
use casa_arrow.Arrow.{
  ListKind, fixed_size_list, is_fixed_size, ListView, Buffer, ArrowArray, flat, nested,
  array_length, contents, is_value_type,
}
use casa_arrow.Grid.Rank.{IsProper}
use casa_arrow.Shape.{IPosition}
use casa_arrow.Shape.Arrays.{ShapeState, maybe_update_shape_and_ndim, shape_loop}
use casa_arrow.Reading.Assembly.{
  fixed_lists, ArrayMaker, make_primitive_array, make_values, nest_fixed,
}

abbrev pub fixed_state : IPosition → ℕ → ShapeState
fixed_state shape ndim = record { fixed_shape = true; shape = shape; ndim = ndim }

maybe_update-fixed :
    (kind : ListKind) (view : ListView) (n : ℕ) (s : ShapeState)
    → is_fixed_size kind ≡ true
    → view.null_count ≡ 0
    → view.value_length 0 ≡ n
    → s.fixed_shape ≡ true
    → maybe_update_shape_and_ndim kind view s ≡ ok (fixed_state (s.shape ++ n ∷ []) (s.ndim + 1))
unfolding maybe_update_shape_and_ndim
maybe_update-fixed kind view n s sized no_nulls len fixed = ground arith

turned : (n : ℕ) (dims inner : IPosition) → reverse dims ++ n ∷ inner ≡ reverse (n ∷ dims) ++ inner
turned n dims inner =
    sym (append_assoc (reverse dims) (n ∷ []) inner)
    ∙ ap (λ d. d ++ inner) (sym (reverse-cons n dims))

module _ {V : Type 0} where
  -- What FixedSizeListArray::FromArrays does with values that a positive list size divides: k lists
  -- of n values each, without nulls.
  pub record MakesLists (arrow : ArrayMaker V) : Type 0 where
    pub lists_of :
        (values : ArrowArray V) (n k : ℕ)
        → 0 < n
        → array_length values ≡ k * n
        → (view : ListView) × (arrow.fixed_size_lists values n
            ≡ ok (nested fixed_size_list view values))
          × (view.null_count ≡ 0)
          × (view.list_length ≡ k)
          × ((i : ℕ) → view.value_length i ≡ n)

  -- Lists of fixed size around values: the sizes from the outermost level to the innermost.
  abbrev pub IsNestOf : IPosition → ArrowArray V → Type 0
  IsNestOf [] (flat a) = is_value_type a.arrow_type ≡ true
  IsNestOf (n ∷ dims) (nested kind view values) =
      (is_fixed_size kind ≡ true)
      × (view.null_count ≡ 0)
      × ((i : ℕ) → view.value_length i ≡ n)
      × IsNestOf dims values
  IsNestOf _ _ = ⊥

  pub shape_loop-IsNestOf :
      (array : ArrowArray V) (dims : IPosition) (s : ShapeState)
      → IsNestOf dims array
      → s.fixed_shape ≡ true
      → shape_loop array s ≡ ok (fixed_state (s.shape ++ dims) (s.ndim + length dims))
  unfolding shape_loop maybe_update_shape_and_ndim
  shape_loop-IsNestOf (flat a) [] s h fixed =
      let kept : s ≡ fixed_state s.shape s.ndim = ground arith in
      let ndim : s.ndim ≡ s.ndim + 0 = omega arith in
      rw h (ap ok (kept ∙ ap₂ fixed_state (sym (append-nil s.shape)) ndim))
  shape_loop-IsNestOf (flat a) (n ∷ dims) s h fixed = absurd h
  shape_loop-IsNestOf (nested kind view values) [] s h fixed = absurd h
  shape_loop-IsNestOf (nested kind view values) (n ∷ dims) s (sized, no_nulls, lengths, inner)
        fixed =
      let next = fixed_state (s.shape ++ n ∷ []) (s.ndim + 1) in
      let ndim : s.ndim + 1 + length dims ≡ s.ndim + suc (length dims) = omega arith in
      ap (λ r. r >>= λ t. shape_loop values t)
        (maybe_update-fixed kind view n s sized no_nulls (lengths 0) fixed)
      ∙ shape_loop-IsNestOf values dims next inner refl
      ∙ ap ok (ap₂ fixed_state (append_assoc s.shape (n ∷ []) dims) ndim)

  module _ (arrow : ArrayMaker V) (law : MakesLists arrow) where
    -- Each level takes its size out of the length.
    pub nest_fixed-IsNestOf :
        (dims inner : IPosition) (array : ArrowArray V) (k : ℕ)
        → IsProper dims
        → IsNestOf inner array
        → array_length array ≡ k * product dims
        → (nest : ArrowArray V) × (nest_fixed arrow dims array ≡ ok nest)
          × IsNestOf (reverse dims ++ inner) nest
          × (array_length nest ≡ k)
          × (contents nest ≡ contents array)
    unfolding nest_fixed
    nest_fixed-IsNestOf [] inner array k proper h len = (array, refl, h, omega arith, refl)
    nest_fixed-IsNestOf (n ∷ dims) inner array k proper h len =
        let (view, made, no_nulls, count, lengths) =
          law.lists_of array n (k * product dims) proper.0 (grind arith) in
        let (nest, nested', uniform, length', same) =
          nest_fixed-IsNestOf dims (n ∷ inner) (nested fixed_size_list view array) k proper.1
            (refl, no_nulls, lengths, h) count in
        (
          nest,
          ap (λ r. r >>= λ next. nest_fixed arrow dims next) made ∙ nested',
          subst (λ d. IsNestOf d nest) (turned n dims inner) uniform,
          length',
          same,
        )

arrow_data_type-IsValue :
    (d : CasaType) (t : ArrowType) → arrow_data_type d ≡ ok t → is_value_type t ≡ true
unfolding arrow_data_type is_value_type
arrow_data_type-IsValue d t e = ground arith

-- The dimension of the pairs of complex values.
abbrev pub pair_dims : CasaType → IPosition
pair_dims dtype = if is_complex dtype then 2 ∷ [] else []

module _ {V : Type 0} (arrow : ArrayMaker V) (law : MakesLists arrow) (dtype : CasaType)
    (t : ArrowType) (typed : arrow_data_type dtype ≡ ok t) (no_string : is_string dtype ≡ false)
    (primitive : is_primitive_type arrow.is_numeric dtype ≡ true) where
  pub make_values-IsNestOf :
      (n : ℕ) (buffer : Buffer V)
      → (values : ArrowArray V) × (make_values arrow fixed_lists dtype t n buffer ≡ ok values)
        × IsNestOf (pair_dims dtype) values
        × (array_length values ≡ n)
        × (contents values ≡ some buffer)
  unfolding make_values make_primitive_array
  make_values-IsNestOf n buffer =
      let value = arrow_data_type-IsValue dtype t typed in
      elim (Bool-cases (is_complex dtype)) [
        | inl complex ↦
            let base = make_primitive_array t (2 * n) buffer in
            let (view, made, no_nulls, count, lengths) =
              law.lists_of base 2 n (omega arith) (omega arith) in
            (
              nested fixed_size_list view base,
              rw (no_string, complex) made,
              subst (λ b. IsNestOf (if b then 2 ∷ [] else []) (nested fixed_size_list view base))
                  (sym complex) (refl, no_nulls, lengths, value),
              count,
              refl,
            )
        | inr simple ↦ (
          make_primitive_array t n buffer,
          rw (no_string, simple, primitive) refl,
          subst (λ b. IsNestOf (if b then 2 ∷ [] else []) (make_primitive_array t n buffer))
              (sym simple) value,
          refl,
          refl,
        )
      ]
