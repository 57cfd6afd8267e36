-- ===== src/Grid/Rank.antt =====
-- Laws of `rank`.
use native.Mathlib.Nat.{mul-le-mul_left, mul-pos}
use native.Mathlib.Decide.{dec_lt}
use casa_arrow.Base.{
  ℕ, suc, ◌+◌, ◌*◌, ◌<◌, ◌≡◌, refl, ap, ap₂, List, [], ◌∷◌, arith, product, length,
}
use casa_arrow.Grid.{InBox, rank, origin}

-- Every size is positive.
abbrev pub IsProper : List ℕ → Type 0
IsProper [] = Unit
IsProper (n ∷ sizes) = (0 < n) × IsProper sizes

row_bound : (n p r m : ℕ) → p < n → r < m → p + n * r < n * m
row_bound n p r m hp hr = omega (arith, mul-le-mul_left {m = suc r} {n = m} n hr)

pub rank-lt-product : (sizes pos : List ℕ) → InBox sizes pos → rank sizes pos < product sizes
unfolding rank
rank-lt-product [] [] h = omega arith
rank-lt-product [] (p ∷ pos) h = absurd h
rank-lt-product (n ∷ sizes) [] h = absurd h
rank-lt-product (n ∷ sizes) (p ∷ pos) h =
    row_bound n p (rank sizes pos) (product sizes) h.0 (rank-lt-product sizes pos h.1)

row_split : (n p q r s : ℕ) → p < n → q < n → p + n * r ≡ q + n * s → (p ≡ q) × (r ≡ s)
row_split n p q r s hp hq e = elim (dec_lt r s) [
  | yes lt ↦ absurd (omega (arith, mul-le-mul_left {m = suc r} {n = s} n lt))
  | no ge ↦ elim (dec_lt s r) [
    | yes gt ↦ absurd (omega (arith, mul-le-mul_left {m = suc s} {n = r} n gt))
    | no le ↦ let same : r ≡ s = omega arith in (omega (arith, ap (λ (t : ℕ). n * t) same), same)
  ]
]

pub rank-injective :
    (sizes pos pos' : List ℕ)
    → InBox sizes pos
    → InBox sizes pos'
    → rank sizes pos ≡ rank sizes pos'
    → pos ≡ pos'
unfolding rank
rank-injective [] [] [] h h' e = refl
rank-injective [] [] (q ∷ pos') h h' e = absurd h'
rank-injective [] (p ∷ pos) pos' h h' e = absurd h
rank-injective (n ∷ sizes) [] pos' h h' e = absurd h
rank-injective (n ∷ sizes) (p ∷ pos) [] h h' e = absurd h'
rank-injective (n ∷ sizes) (p ∷ pos) (q ∷ pos') h h' e =
    let (heads, tails) = row_split n p q (rank sizes pos) (rank sizes pos') h.0 h'.0 e in
    ap₂ ◌∷◌ heads (rank-injective sizes pos pos' h.1 h'.1 tails)

pub InBox-length : (sizes pos : List ℕ) → InBox sizes pos → length pos ≡ length sizes
InBox-length [] [] h = refl
InBox-length [] (p ∷ pos) h = absurd h
InBox-length (n ∷ sizes) [] h = absurd h
InBox-length (n ∷ sizes) (p ∷ pos) h = ap suc (InBox-length sizes pos h.1)

pub origin-InBox : (sizes : List ℕ) → IsProper sizes → InBox sizes (origin sizes)
unfolding origin
origin-InBox [] h = tt
origin-InBox (n ∷ sizes) h = (h.0, origin-InBox sizes h.1)

pub rank-origin : (sizes : List ℕ) → rank sizes (origin sizes) ≡ 0
unfolding rank origin
rank-origin [] = refl
rank-origin (n ∷ sizes) = omega (arith, ap (λ (t : ℕ). n * t) (rank-origin sizes))

pub product-pos : (sizes : List ℕ) → IsProper sizes → 0 < product sizes
product-pos [] h = omega arith
product-pos (n ∷ sizes) h = mul-pos h.0 (product-pos sizes h.1)
