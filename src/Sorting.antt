-- ===== src/Sorting.antt =====
-- std::sort with a comparator, as far as the C++ standard fixes it: the result is a rearrangement
-- in which no element stands behind a greater one. Where equal elements go is left open, so the
-- sort is a parameter of the development.
pub mod Insertion
use native.Mathlib.Bridge.{from_ℕ}
use mathlib.Core.List
use mathlib.Core.List.{Perm, Mem}
use mathlib.Core.List.Perm
use casa_arrow.Base.{
  ℕ, suc, ◌≤◌, ◌<◌, ◌≡◌, refl, ◌∙◌, sym, ap, Bool, true, false, List, [], ◌∷◌, length, get_or,
}

-- What std::sort asks of its comparator.
pub record IsStrictWeak {ℓ} {A : Type ℓ} (lt : A → A → Bool) : Type ℓ where
  pub asymmetric : (a b : A) → lt a b ≡ true → lt b a ≡ false
  pub negatively_transitive : (a b c : A) → lt b a ≡ false → lt c b ≡ false → lt c a ≡ false

pub record SortAlgorithm : Type 0 where
  pub sort : (ℕ → ℕ → Bool) → List ℕ → List ℕ
  pub sort_perm : (lt : ℕ → ℕ → Bool) (xs : List ℕ) → Perm (sort lt xs) xs
  pub sort_ordered :
      (lt : ℕ → ℕ → Bool) (xs : List ℕ) (i j : ℕ)
      → IsStrictWeak lt
      → i ≤ j
      → j < length xs
      → lt (get_or (sort lt xs) j 0) (get_or (sort lt xs) i 0) ≡ false

length-from_ℕ {ℓ} : {A : Type ℓ} (xs : List A) → from_ℕ (List.length xs) ≡ length xs
length-from_ℕ [] = refl
length-from_ℕ (x ∷ xs) = ap suc (length-from_ℕ xs)

-- A rearrangement has as many elements.
pub length-perm {ℓ} : {A : Type ℓ} {xs ys : List A} → Perm xs ys → length xs ≡ length ys
length-perm {xs} {ys} p = sym (length-from_ℕ xs) ∙ ap from_ℕ (Perm.length-eq p) ∙ length-from_ℕ ys
