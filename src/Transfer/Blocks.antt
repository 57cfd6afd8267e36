-- ===== src/Transfer/Blocks.antt =====
-- The loop of the transpose, where the source and the destination of every position are consecutive.
use mathlib.Core.List.{append_assoc}
use casa_arrow.Base.{
  ℕ, zero, suc, ◌+◌, ◌≤◌, ◌<◌, ◌≡◌, refl, ◌∙◌, sym, ap, Option, none, some, List, [], ◌∷◌, ◌++◌,
  length, get_elem?, set, drop, product, arith, length-set, lt→ltb, take,
}
use casa_arrow.Grid.{InBox, rank}
use casa_arrow.Grid.Rank.{rank-lt-product}
use casa_arrow.Transfer.{◌>>=◌, next_position, store, transfer_loop, copy_block, view_block}
use casa_arrow.Transfer.Steps.{Successor, next_position-Successor}

module _ {ℓ} {A : Type ℓ} where
  -- The element that is read, and those behind it.
  drop-cons :
      (xs : List A) (i : ℕ)
      → i < length xs
      → (v : A) × (get_elem? xs i ≡ some v) × (drop i xs ≡ v ∷ drop (suc i) xs)
  drop-cons [] i h = absurd (omega arith)
  drop-cons (x ∷ xs) zero h = (x, refl, refl)
  drop-cons (x ∷ xs) (suc i) h = drop-cons xs i (omega arith)

  drop-length : (xs : List A) (n : ℕ) → length xs ≤ n → drop n xs ≡ []
  drop-length [] zero h = refl
  drop-length [] (suc n) h = refl
  drop-length (x ∷ xs) zero h = absurd (omega arith)
  drop-length (x ∷ xs) (suc n) h = drop-length xs n (omega arith)

  module _ (sizes : List ℕ) (src dst : List ℕ → ℕ) (from : List A) (at : ℕ)
      (src_rank : (pos : List ℕ) → InBox sizes pos → src pos ≡ rank sizes pos)
      (dst_rank : (pos : List ℕ) → InBox sizes pos → dst pos ≡ at + rank sizes pos)
      (whole : length from ≡ product sizes) where
    abbrev IsCopied : ℕ → Type ℓ
    IsCopied fuel =
        (p : List ℕ) (o : List A)
        → InBox sizes p
        → product sizes ≤ fuel + rank sizes p
        → transfer_loop fuel sizes src dst from p o
          ≡ copy_block (at + rank sizes p) (drop (rank sizes p) from) o

    -- From a position on, the loop copies the elements from its number on.
    pub transfer_loop-copy_block :
        (fuel : ℕ) (pos : List ℕ) (out : List A)
        → InBox sizes pos
        → product sizes ≤ fuel + rank sizes pos
        → transfer_loop fuel sizes src dst from pos out
          ≡ copy_block (at + rank sizes pos) (drop (rank sizes pos) from) out
    unfolding transfer_loop copy_block
    transfer_loop-copy_block zero pos out h enough =
        absurd (omega (arith, rank-lt-product sizes pos h))
    transfer_loop-copy_block (suc fuel) pos out h enough =
        let r = rank sizes pos in
        let (v, here, rest) = drop-cons from r (omega (arith, rank-lt-product sizes pos h)) in
        rw (src_rank pos h, dst_rank pos h, here, rest)
          (after (transfer_loop-copy_block fuel) (store out (at + r) v) (next_position sizes pos)
            (next_position-Successor sizes pos h))
      where
        after :
            IsCopied fuel
            → (stored : Option (List A)) (next : Option (List ℕ))
            → Successor sizes (rank sizes pos) next
            → (stored >>= λ out'. elim next [
              | none ↦ some out'
              | some pos' ↦ transfer_loop fuel sizes src dst from pos' out'
            ])
              ≡ (stored
                  >>= copy_block (suc (at + rank sizes pos)) (drop (suc (rank sizes pos)) from))
        after ih none next s = refl
        after ih (some out') none s =
            rw (drop-length from (suc (rank sizes pos)) (omega arith)) refl
        after ih (some out') (some pos') s =
            let e : at + suc (rank sizes pos) ≡ suc (at + rank sizes pos) = omega arith in
            ih pos' out' s.0 (omega arith) ∙ rw (s.1, e) refl

  -- Put before what is viewed.
  abbrev pub behind : List A → Option (List A) → Option (List A)
  behind front none = none
  behind front (some rest) = some (front ++ rest)

  behind-cons :
      (front : List A) (v : A) (o : Option (List A))
      → behind (front ++ v ∷ []) o ≡ behind front (o >>= λ rest. some (v ∷ rest))
  behind-cons front v none = refl
  behind-cons front v (some rest) = ap some (append_assoc front (v ∷ []) rest)

  take-set :
      (xs : List A) (i : ℕ) (v : A)
      → i < length xs
      → take (suc i) (set xs i v) ≡ take i xs ++ v ∷ []
  take-set [] i v h = absurd (omega arith)
  take-set (x ∷ xs) zero v h = refl
  take-set (x ∷ xs) (suc i) v h = ap (◌∷◌ x) (take-set xs i v (omega arith))

  take-all : (xs : List A) (n : ℕ) → length xs ≤ n → take n xs ≡ xs
  take-all [] zero h = refl
  take-all [] (suc n) h = refl
  take-all (x ∷ xs) zero h = absurd (omega arith)
  take-all (x ∷ xs) (suc n) h = ap (◌∷◌ x) (take-all xs n (omega arith))

  store_inside : (xs : List A) (i : ℕ) (v : A) → i < length xs → store xs i v ≡ some (set xs i v)
  unfolding store
  store_inside xs i v h = rw (lt→ltb i (length xs) h)

  module _ (sizes : List ℕ) (src dst : List ℕ → ℕ) (from : List A) (at : ℕ)
      (src_rank : (pos : List ℕ) → InBox sizes pos → src pos ≡ at + rank sizes pos)
      (dst_rank : (pos : List ℕ) → InBox sizes pos → dst pos ≡ rank sizes pos) where
    abbrev IsViewed : ℕ → Type ℓ
    IsViewed fuel =
        (m : ℕ) (p : List ℕ) (o : List A)
        → InBox sizes p
        → length o ≡ product sizes
        → m + rank sizes p ≡ product sizes
        → m ≤ fuel
        → transfer_loop fuel sizes src dst from p o
          ≡ behind (take (rank sizes p) o) (view_block (at + rank sizes p) m from)

    -- From a position on, the loop puts the viewed elements behind those already there.
    pub transfer_loop-view_block :
        (fuel n : ℕ) (pos : List ℕ) (out : List A)
        → InBox sizes pos
        → length out ≡ product sizes
        → n + rank sizes pos ≡ product sizes
        → n ≤ fuel
        → transfer_loop fuel sizes src dst from pos out
          ≡ behind (take (rank sizes pos) out) (view_block (at + rank sizes pos) n from)
    unfolding transfer_loop view_block
    transfer_loop-view_block fuel zero pos out h len e enough =
        absurd (omega (arith, rank-lt-product sizes pos h))
    transfer_loop-view_block zero (suc n) pos out h len e enough = absurd (omega arith)
    transfer_loop-view_block (suc fuel) (suc n) pos out h len e enough =
        rw (src_rank pos h, dst_rank pos h)
          (loaded (transfer_loop-view_block fuel) (get_elem? from (at + rank sizes pos))
            (next_position sizes pos) (next_position-Successor sizes pos h))
      where
        loaded :
            IsViewed fuel
            → (value : Option A) (next : Option (List ℕ)) → Successor sizes (rank sizes pos) next
            → (value >>= λ v. store out (rank sizes pos) v >>= λ out'. elim next [
              | none ↦ some out'
              | some pos' ↦ transfer_loop fuel sizes src dst from pos' out'
            ])
              ≡ behind (take (rank sizes pos) out) (
                  value >>= λ v.
                  view_block (suc (at + rank sizes pos)) n from >>= λ rest. some (v ∷ rest))
        loaded ih none next s = refl
        loaded ih (some v) none s =
            let done : n ≡ 0 = omega arith in
            let r = rank sizes pos in
            rw (store_inside out r v (omega arith), done)
              (ap some (
                sym (take-all (set out r v) (suc r) (omega (arith, length-set out r v)))
                ∙ take-set out r v (omega arith)))
        loaded ih (some v) (some pos') s =
            let r = rank sizes pos in
            let e' : at + suc r ≡ suc (at + r) = omega arith in
            rw (store_inside out r v (omega arith)) (
              ih n pos' (set out r v) s.0 (length-set out r v ∙ len) (omega (arith, s.1))
                (omega arith)
              ∙ rw (s.1, e', take-set out r v (omega arith))
                  (behind-cons (take r out) v (view_block (suc (at + r)) n from)))
