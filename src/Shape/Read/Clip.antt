-- ===== src/Shape/Read/Clip.antt =====
-- What ClipShape of cpp/arcae/result_shape.cc returns.
use casa_arrow.Base.{
  ℕ, suc, ◌+◌, ◌<◌, ◌≡◌, refl, ◌∙◌, ap, inl, inr, ◌⊎◌, true, false, [], ◌∷◌, length, get_or, leb,
  arith, Bool-cases, Result, ok, err, StatusCode, index_error, ◌>>=◌, Result-cases,
}
use casa_arrow.Base.Int.{pos, ltb_ℤ}
use casa_arrow.Selection.{Index, Selection, size, f_span_of}
use casa_arrow.Shape.{IPosition}
use casa_arrow.Shape.Read.{exceeds, clip_dimension, clip_loop, clip_shape}

-- Every index is below the dimension.
abbrev pub AllBelow : Index → ℕ → Type 0
AllBelow [] n = Unit
AllBelow (i ∷ span) n = (ltb_ℤ i (pos n) ≡ true) × AllBelow span n

-- One index is not.
abbrev pub SomeAbove : Index → ℕ → Type 0
SomeAbove [] n = ⊥
SomeAbove (i ∷ span) n = (ltb_ℤ i (pos n) ≡ false) ⊎ SomeAbove span n

-- What becomes of one dimension: the number of its selected indices, or what it was where none
-- are selected.
pub data IsClipped (selection : Selection) (ndim dim n : ℕ) : ℕ → Type 0 where
  selected :
      (span : Index)
      → f_span_of selection dim ndim ≡ ok span
      → AllBelow span n
      → IsClipped selection ndim dim n (length span)
  unselected :
      (c : StatusCode) → f_span_of selection dim ndim ≡ err c → IsClipped selection ndim dim n n

abbrev pub AreClipped : Selection → ℕ → ℕ → IPosition → IPosition → Type 0
AreClipped selection ndim dim [] [] = Unit
AreClipped selection ndim dim [] (m ∷ clipped) = ⊥
AreClipped selection ndim dim (n ∷ shape) [] = ⊥
AreClipped selection ndim dim (n ∷ shape) (m ∷ clipped) =
    IsClipped selection ndim dim n m × AreClipped selection ndim (dim + 1) shape clipped

-- A dimension, with a selected index that lies outside it.
pub record Exceeds (selection : Selection) (ndim dim : ℕ) (shape : IPosition) : Type 0 where
  pub place : ℕ
  pub is_dimension : place < length shape
  pub span : Index
  pub is_selected : f_span_of selection (dim + place) ndim ≡ ok span
  pub is_above : SomeAbove span (get_or shape place 0)

-- The clipped shape, or an IndexError with its cause.
abbrev pub ClipOutcome : Selection → ℕ → ℕ → IPosition → Result IPosition → Type 0
ClipOutcome selection ndim dim shape (ok clipped) = AreClipped selection ndim dim shape clipped
ClipOutcome selection ndim dim shape (err c) = (c ≡ index_error) × Exceeds selection ndim dim shape

exceeds-cases :
    (span : Index) (n : ℕ)
    → ((exceeds span n ≡ true) × SomeAbove span n) ⊎ ((exceeds span n ≡ false) × AllBelow span n)
unfolding exceeds
exceeds-cases [] n = inr (refl, tt)
exceeds-cases (i ∷ span) n = elim (Bool-cases (ltb_ℤ i (pos n))) [
  | inr out ↦ inl (rw out refl, inl out)
  | inl below ↦ elim (exceeds-cases span n) [
    | inl (e, above) ↦ inl (rw below e, inr above)
    | inr (e, all_below) ↦ inr (rw below e, (below, all_below))
  ]
]

module _ (selection : Selection) (ndim : ℕ) where
  abbrev DimensionOutcome : ℕ → ℕ → Result ℕ → Type 0
  DimensionOutcome dim n (ok m) = IsClipped selection ndim dim n m
  DimensionOutcome dim n (err c) =
      (c ≡ index_error)
      × (span : Index) × (f_span_of selection dim ndim ≡ ok span)
      × SomeAbove span n

  clip_dimension-outcome :
      (dim n : ℕ) → DimensionOutcome dim n (clip_dimension selection ndim dim n)
  unfolding clip_dimension
  clip_dimension-outcome dim n = elim (Result-cases (f_span_of selection dim ndim)) [
    | inl (span, found) ↦ elim (exceeds-cases span n) [
      | inl (e, above) ↦ rw (found, clip_dimension) (rw e (refl, span, found, above))
      | inr (e, below) ↦ rw (found, clip_dimension) (rw e (selected span found below))
    ]
    | inr (c, missing) ↦ rw (missing, clip_dimension) (unselected c missing)
  ]

  clip_loop-outcome :
      (dim : ℕ) (shape : IPosition)
      → ClipOutcome selection ndim dim shape (clip_loop selection ndim dim shape)
  unfolding clip_loop
  clip_loop-outcome dim [] = tt
  clip_loop-outcome dim (n ∷ shape) =
      joined (clip_dimension selection ndim dim n) (clip_loop selection ndim (dim + 1) shape)
        (clip_dimension-outcome dim n) (clip_loop-outcome (dim + 1) shape)
    where
      joined :
          (first : Result ℕ) (rest : Result IPosition)
          → DimensionOutcome dim n first
          → ClipOutcome selection ndim (dim + 1) shape rest
          → ClipOutcome selection ndim dim
              (n ∷ shape)
              (first >>= λ clipped. rest >>= λ others. ok (clipped ∷ others))
      joined (ok m) (ok others) first rest = (first, rest)
      joined (ok m) (err c) first (e, x) = (
        e,
        record {
          place = suc x.place;
          is_dimension = omega (arith, x.is_dimension);
          span = x.span;
          is_selected =
              let shift : dim + suc x.place ≡ dim + 1 + x.place = omega arith in
              ap (λ d. f_span_of selection d ndim) shift ∙ x.is_selected;
          is_above = x.is_above;
        },
      )
      joined (err c) rest (e, span, found, above) k = (
        e,
        record {
          place = 0;
          is_dimension = omega arith;
          span = span;
          is_selected =
              let here : dim + 0 ≡ dim = omega arith in
              ap (λ d. f_span_of selection d ndim) here ∙ found;
          is_above = above;
        },
      )

-- ClipShape with a selection of more than one dimension gives every dimension of the shape that
-- has selected indices their number, all of them being below the dimension, and leaves the others;
-- or it is an IndexError, and some selected index is not below its dimension.
pub clip_shape-ClipOutcome :
    (selection : Selection) (shape : IPosition)
    → 1 < size selection
    → ClipOutcome selection (length shape + 1) 0 shape (clip_shape selection shape)
unfolding clip_shape
clip_shape-ClipOutcome selection shape h =
    let many : leb (size selection) 1 ≡ false = ground arith in
    rw many (clip_loop-outcome selection (length shape + 1) 0 shape)
