-- ===== src/Transfer/Steps.antt =====
-- One step of the position in the copy loops of cpp/arcae/read_impl.cc.
use casa_arrow.Base.{
  ℕ, suc, ◌+◌, ◌*◌, ◌≡◌, refl, ap, inl, inr, Option, none, some, List, [], ◌∷◌, product, arith, ltb,
  Bool-cases,
}
use casa_arrow.Grid.{InBox, rank}
use casa_arrow.Transfer.{next_position}

-- The position behind one: the next in FORTRAN order, or none behind the last.
abbrev pub Successor : List ℕ → ℕ → Option (List ℕ) → Type 0
Successor sizes r none = suc r ≡ product sizes
Successor sizes r (some pos) = InBox sizes pos × (rank sizes pos ≡ suc r)

carry-Successor :
    (n p r : ℕ) (sizes : List ℕ) (o : Option (List ℕ))
    → suc p ≡ n
    → Successor sizes r o
    → Successor (n ∷ sizes) (p + n * r) (elim o [ none ↦ none | some pos' ↦ some (0 ∷ pos') ])
unfolding rank
carry-Successor n p r sizes none full k = omega (arith, ap (λ (t : ℕ). n * t) k)
carry-Successor n p r sizes (some pos') full k =
    ((omega arith, k.0), omega (arith, ap (λ (t : ℕ). n * t) k.1))

pub next_position-Successor :
    (sizes pos : List ℕ)
    → InBox sizes pos
    → Successor sizes (rank sizes pos) (next_position sizes pos)
unfolding next_position rank
next_position-Successor [] [] h = refl
next_position-Successor [] (p ∷ pos) h = absurd h
next_position-Successor (n ∷ sizes) [] h = absurd h
next_position-Successor (n ∷ sizes) (p ∷ pos) h = elim (Bool-cases (ltb (p + 1) n)) [
  | inl room ↦ rw room ((ground arith, h.1), omega arith)
  | inr full ↦
      let last : suc p ≡ n = ground arith in
      rw full (
        carry-Successor n p (rank sizes pos) sizes (next_position sizes pos) last
          (next_position-Successor sizes pos h.1))
]
