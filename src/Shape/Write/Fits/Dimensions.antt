-- ===== src/Shape/Write/Fits/Dimensions.antt =====
-- The checks of the dimensions in MakeWrite of cpp/arcae/result_shape.cc, and the shape that it gives
-- to a cell.
use mathlib.Core.List.{append_assoc}
use casa_arrow.Base.{
  or_fault, length-append, ℕ, zero, suc, ◌+◌, ◌-◌, ◌≤◌, ◌≡◌, refl, ◌∙◌, sym, ap, subst, inl, inr,
  false, some, none, List, [], ◌∷◌, ◌++◌, length, max, arith, get_elem?, Option-cases, Result, ok,
  err, ◌>>=◌, then-ok,
}
use casa_arrow.Base.Int.{pos, negsuc, ◌<ℤ◌}
use casa_arrow.Selection.{Index, Selection, f_span_of}
use casa_arrow.Shape.{IPosition}
use casa_arrow.Shape.Read.{exceeds}
use casa_arrow.Shape.Write.{
  check_selection_against, dimension_of, check_dimension, check_dimensions, cover, grow_dimension,
  grow_shape,
}

-- Every index of the span is below n.
abbrev pub AllBelow : Index → ℕ → Type 0
AllBelow [] n = Unit {0}
AllBelow (i ∷ span) n = (i <ℤ pos n) × AllBelow span n

pub exceeds-AllBelow : (span : Index) (n : ℕ) → exceeds span n ≡ false → AllBelow span n
unfolding exceeds
exceeds-AllBelow [] n e = tt
exceeds-AllBelow (i ∷ span) n e = ground (arith, exceeds-AllBelow span n)

-- The shape has every selected dimension from `dim` on, for `rounds` dimensions, and the indices
-- that are selected there are inside.
abbrev pub FitsFrom : Selection → ℕ → IPosition → ℕ → ℕ → Type 0
FitsFrom selection ndim shape zero dim = Unit {0}
FitsFrom selection ndim shape (suc rounds) dim =
    ((span : Index)
      → f_span_of selection dim ndim ≡ ok span
      → (n : ℕ) × (get_elem? shape dim ≡ some n) × AllBelow span n)
    × FitsFrom selection ndim shape rounds (dim + 1)

-- Every index that is selected in a secondary dimension is inside the shape.
abbrev pub Fits : Selection → ℕ → IPosition → Type 0
Fits selection ndim shape = FitsFrom selection ndim shape (ndim - 1) 0

check_selection_against-AllBelow :
    (span : Index) (n : ℕ) → check_selection_against span n ≡ ok tt → AllBelow span n
unfolding check_selection_against
check_selection_against-AllBelow span n e = exceeds-AllBelow span n (ground arith)

check_dimension-ok :
    (shape : IPosition) (dim : ℕ) (r : Result Index) (span : Index)
    → check_dimension shape dim r ≡ ok tt
    → r ≡ ok span
    → (n : ℕ) × (get_elem? shape dim ≡ some n) × AllBelow span n
unfolding check_dimension dimension_of
check_dimension-ok shape dim (err c) span e k = absurd (cc)
check_dimension-ok shape dim (ok span') span e k = elim (Option-cases (get_elem? shape dim)) [
  | inl outside ↦
      let e' : (or_fault {A = ℕ} none >>= check_selection_against span') ≡ ok tt =
        ap (λ o. or_fault o >>= check_selection_against span') (sym outside) ∙ e in
      absurd (cc)
  | inr (n, inside) ↦
      let e' : check_selection_against span' n ≡ ok tt =
        ap (λ o. or_fault o >>= check_selection_against span') (sym inside) ∙ e in
      let same : span' ≡ span = cc in
      (n, inside, subst (λ s. AllBelow s n) same (check_selection_against-AllBelow span' n e'))
]

pub check_dimensions-Fits :
    (selection : Selection) (ndim : ℕ) (shape : IPosition) (rounds dim : ℕ)
    → check_dimensions selection ndim shape rounds dim ≡ ok tt
    → FitsFrom selection ndim shape rounds dim
unfolding check_dimensions
check_dimensions-Fits selection ndim shape zero dim e = tt
check_dimensions-Fits selection ndim shape (suc rounds) dim e =
    let (this, rest) =
      then-ok (check_dimension shape dim (f_span_of selection dim ndim))
        (check_dimensions selection ndim shape rounds (dim + 1)) e in
    (
      λ span found. check_dimension-ok shape dim (f_span_of selection dim ndim) span this found,
      check_dimensions-Fits selection ndim shape rounds (dim + 1) rest,
    )

AllBelow-mono : (span : Index) (m n : ℕ) → m ≤ n → AllBelow span m → AllBelow span n
AllBelow-mono [] m n le h = tt
AllBelow-mono (i ∷ span) m n le h = (omega (arith, h.0), AllBelow-mono span m n le h.1)

cover-AllBelow : (span : Index) (n : ℕ) → (n ≤ cover span n) × AllBelow span (cover span n)
unfolding cover
cover-AllBelow [] n = (omega arith, tt)
cover-AllBelow (pos i ∷ span) n =
    let (more, below) = cover-AllBelow span (max (i + 1) n) in (omega arith, (omega arith, below))
cover-AllBelow (negsuc i ∷ span) n =
    let (more, below) = cover-AllBelow span n in (omega arith, (omega arith, below))

get_elem?-append_length {ℓ} :
    {A : Type ℓ} (before : List A) (a : A) (after : List A)
    → get_elem? (before ++ a ∷ after) (length before) ≡ some a
get_elem?-append_length [] a after = refl
get_elem?-append_length (b ∷ before) a after = get_elem?-append_length before a after

grow_dimension-AllBelow :
    (r : Result Index) (n : ℕ) (span : Index) → r ≡ ok span → AllBelow span (grow_dimension r n)
unfolding grow_dimension
grow_dimension-AllBelow (err c) n span e = absurd (cc)
grow_dimension-AllBelow (ok span') n span e =
    let same : span' ≡ span = cc in
    subst (λ s. AllBelow s (cover span' n)) same (cover-AllBelow span' n).1

pub grow_shape-Fits :
    (selection : Selection) (ndim dim : ℕ) (before shape : IPosition) (rounds : ℕ)
    → length before ≡ dim
    → rounds ≤ length shape
    → FitsFrom selection ndim (before ++ grow_shape selection ndim dim shape) rounds dim
unfolding grow_shape
grow_shape-Fits selection ndim dim before shape zero at enough = tt
grow_shape-Fits selection ndim dim before [] (suc rounds) at enough = absurd (omega arith)
grow_shape-Fits selection ndim dim before (n ∷ shape) (suc rounds) at enough =
    let r = f_span_of selection dim ndim in
    let grown = grow_dimension r n in
    let rest = grow_shape selection ndim (dim + 1) shape in
    (
      λ span found. (
        grown,
        ap (get_elem? (before ++ grown ∷ rest)) (sym at)
            ∙ get_elem?-append_length before grown rest,
        grow_dimension-AllBelow r n span found,
      ),
      subst (λ s. FitsFrom selection ndim s rounds (dim + 1))
          (append_assoc before (grown ∷ []) rest)
          (grow_shape-Fits selection ndim (dim + 1) (before ++ grown ∷ []) shape rounds
            (omega (arith, length-append before (grown ∷ []))) (omega arith)),
    )
