-- ===== src/Sorting/Insertion.antt =====
-- Insertion sort: one sort that meets what the development asks of std::sort.
use mathlib.Core.List.{
  Perm, Pairwise, Mem, mem-cons_of_mem, Pairwise-singleton, forall_mem-cons, mem-cons_self,
  Pairwise-cons,
}
use mathlib.Core.List.Perm
use casa_arrow.Base.{
  ℕ, zero, suc, ◌≤◌, ◌<◌, ◌≡◌, inl, inr, Bool, false, List, [], ◌∷◌, length, get_or, arith,
  if◌then◌else◌, Bool-cases,
}
use casa_arrow.Sorting.{IsStrictWeak, SortAlgorithm, length-perm}

module _ (lt : ℕ → ℕ → Bool) where
  pub insert : ℕ → List ℕ → List ℕ
  insert x [] = x ∷ []
  insert x (y ∷ ys) = if lt y x then y ∷ insert x ys else x ∷ y ∷ ys

  pub insertion_sort : List ℕ → List ℕ
  insertion_sort [] = []
  insertion_sort (x ∷ xs) = insert x (insertion_sort xs)

  abbrev NotAbove : ℕ → ℕ → Type 0
  NotAbove a b = lt b a ≡ false

  insert-perm : (x : ℕ) (ys : List ℕ) → Perm (insert x ys) (x ∷ ys)
  unfolding insert
  insert-perm x [] = Perm.rfl
  insert-perm x (y ∷ ys) = elim (Bool-cases (lt y x)) [
    | inl h ↦ rw h (Perm.trans (Perm.cons y (insert-perm x ys)) (Perm.swap x y ys))
    | inr h ↦ rw h Perm.rfl
  ]

  pub insertion_sort-perm : (xs : List ℕ) → Perm (insertion_sort xs) xs
  unfolding insertion_sort
  insertion_sort-perm [] = Perm.rfl
  insertion_sort-perm (x ∷ xs) =
      Perm.trans (insert-perm x (insertion_sort xs)) (Perm.cons x (insertion_sort-perm xs))

  NotAbove-prop : (a b : ℕ) → IsProp (NotAbove a b)
  NotAbove-prop a b = hlevel

  module _ (weak : IsStrictWeak lt) where
    insert-ordered : (x : ℕ) (ys : List ℕ) → Pairwise NotAbove ys → Pairwise NotAbove (insert x ys)
    unfolding insert
    insert-ordered x [] h = Pairwise-singleton _ x
    insert-ordered x (y ∷ ys) h =
        let (below, tail) = Pairwise-cons.0 h in
        elim (Bool-cases (lt y x)) [
          | inl e ↦
              let all_below =
                (forall_mem-cons (NotAbove-prop y)).1 (weak.asymmetric y x e, below) in
              rw e (
                Pairwise.cons (λ a m. all_below a ((Perm.mem_iff (insert-perm x ys)).0 m))
                  (insert-ordered x ys tail))
          | inr e ↦ rw e (
              Pairwise.cons
                ((forall_mem-cons (NotAbove-prop x)).1
                  (e, λ a m. weak.negatively_transitive x y a e (below a m)))
                h)
        ]

    insertion_sort-ordered : (xs : List ℕ) → Pairwise NotAbove (insertion_sort xs)
    unfolding insertion_sort
    insertion_sort-ordered [] = Pairwise.nil
    insertion_sort-ordered (x ∷ xs) =
        insert-ordered x (insertion_sort xs) (insertion_sort-ordered xs)

    irreflexive : (a : ℕ) → lt a a ≡ false
    irreflexive a = elim (Bool-cases (lt a a)) [ inl e ↦ weak.asymmetric a a e | inr e ↦ e ]

    mem-get_or : (xs : List ℕ) (i : ℕ) → i < length xs → Mem (get_or xs i 0) xs
    mem-get_or [] i h = absurd (omega arith)
    mem-get_or (x ∷ xs) zero h = mem-cons_self
    mem-get_or (x ∷ xs) (suc i) h = mem-cons_of_mem x (mem-get_or xs i (omega arith))

    by_index :
        (xs : List ℕ) (i j : ℕ)
        → Pairwise NotAbove xs
        → i ≤ j
        → j < length xs
        → NotAbove (get_or xs i 0) (get_or xs j 0)
    by_index [] i j h le lt' = absurd (omega arith)
    by_index (x ∷ xs) zero zero h le lt' = irreflexive x
    by_index (x ∷ xs) zero (suc j) h le lt' =
        (Pairwise-cons.0 h).0 (get_or xs j 0) (mem-get_or xs j (omega arith))
    by_index (x ∷ xs) (suc i) zero h le lt' = absurd (omega arith)
    by_index (x ∷ xs) (suc i) (suc j) h le lt' =
        by_index xs i j (Pairwise-cons.0 h).1 (omega arith) (omega arith)

pub insertion_sort_ordered :
    (lt : ℕ → ℕ → Bool) (xs : List ℕ) (i j : ℕ)
    → IsStrictWeak lt
    → i ≤ j
    → j < length xs
    → lt (get_or (insertion_sort lt xs) j 0) (get_or (insertion_sort lt xs) i 0) ≡ false
insertion_sort_ordered lt xs i j weak le h =
    by_index lt weak (insertion_sort lt xs) i j (insertion_sort-ordered lt weak xs) le
      (omega (arith, length-perm (insertion_sort-perm lt xs)))

-- The parameter can be met.
unfoldable pub by_insertion : SortAlgorithm
unfolding insertion_sort insert
by_insertion = record {
  sort = insertion_sort;
  sort_perm = insertion_sort-perm;
  sort_ordered = insertion_sort_ordered;
}
