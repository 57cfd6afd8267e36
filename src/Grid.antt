-- ===== src/Grid.antt =====
-- The positions of a box in FORTRAN order: the reference against which the offset, stride and
-- transpose computations of the program are measured. Nothing here models code.
pub mod Rank
use casa_arrow.Base.{ℕ, zero, suc, ◌+◌, ◌*◌, ◌<◌, List, [], ◌∷◌}

-- A position inside a box of the given sizes, first dimension first.
abbrev pub InBox : List ℕ → List ℕ → Type 0
InBox [] [] = Unit
InBox [] (p ∷ pos) = ⊥
InBox (n ∷ sizes) [] = ⊥
InBox (n ∷ sizes) (p ∷ pos) = (p < n) × InBox sizes pos

-- The number of a position, the first dimension running fastest.
unfoldable pub rank : List ℕ → List ℕ → ℕ
rank (n ∷ sizes) (p ∷ pos) = p + n * rank sizes pos
rank _ _ = 0

-- The position before all others.
unfoldable pub origin : List ℕ → List ℕ
origin [] = []
origin (n ∷ sizes) = 0 ∷ origin sizes
