-- ===== src/Transfer/Effect.antt =====
-- What the transpose does to a buffer, whatever the places of the elements are.
use mathlib.Core.Path.{subst}
use native.Mathlib.Decide.{ℕ_discrete}
use casa_arrow.Base.{
  ℕ, zero, suc, ◌+◌, ◌≤◌, ◌<◌, ◌≡◌, ◌≢◌, ◌∙◌, sym, ap, Option, none, some, List, length, get_elem?,
  set, product, arith, lt→ltb, length-set, get_elem?-set_self, get_elem?-set_ne, get_elem?_inside,
}
use casa_arrow.Grid.{InBox, rank}
use casa_arrow.Grid.Rank.{rank-lt-product, rank-injective}
use casa_arrow.Transfer.{next_position, store, transfer_loop}
use casa_arrow.Transfer.Steps.{Successor, next_position-Successor}

module _ {ℓ} {A : Type ℓ} where
  -- Every position from number r on has its source element at its destination, and every other
  -- element is the old one.
  pub record IsTransferred (sizes : List ℕ) (src dst : List ℕ → ℕ) (from : List A) (r : ℕ)
      (old new : List A) : Type ℓ where
    pub same_length : length new ≡ length old
    pub moved :
        (pos : List ℕ)
        → InBox sizes pos
        → r ≤ rank sizes pos
        → get_elem? new (dst pos) ≡ get_elem? from (src pos)
    pub others :
        (i : ℕ)
        → ((pos : List ℕ) → InBox sizes pos → r ≤ rank sizes pos → dst pos ≢ i)
        → get_elem? new i ≡ get_elem? old i

-- The loop ended, within its fuel and inside the buffers.
pub data Ends {ℓ} {A : Type ℓ} (P : A → Type ℓ) : Option A → Type ℓ where
  ended : {a : A} → P a → Ends P (some a)

Ends-map {ℓ} :
    {A : Type ℓ} {P Q : A → Type ℓ} {o : Option A} → Ends P o → ((a : A) → P a → Q a) → Ends Q o
Ends-map (ended p) k = ended (k _ p)

module _ {ℓ} {A : Type ℓ} where
  store_inside : (xs : List A) (i : ℕ) (v : A) → i < length xs → store xs i v ≡ some (set xs i v)
  unfolding store
  store_inside xs i v h = rw (lt→ltb i (length xs) h)

  module _ (sizes : List ℕ) (src dst : List ℕ → ℕ) (from : List A) (total : ℕ)
      (src_inside : (pos : List ℕ) → InBox sizes pos → src pos < length from)
      (dst_inside : (pos : List ℕ) → InBox sizes pos → dst pos < total)
      (apart : (p q : List ℕ) → InBox sizes p → InBox sizes q → dst p ≡ dst q → p ≡ q) where
    -- The last position.
    last_moved :
        (pos : List ℕ) (out : List A) (v : A)
        → InBox sizes pos
        → length out ≡ total
        → get_elem? from (src pos) ≡ some v
        → suc (rank sizes pos) ≡ product sizes
        → IsTransferred sizes src dst from (rank sizes pos) out (set out (dst pos) v)
    last_moved pos out v h len read last =
        let inside = dst_inside pos h in
        record {
          same_length = length-set out (dst pos) v;
          moved = λ q k le.
              let same : pos ≡ q =
                rank-injective sizes pos q h k (omega (arith, rank-lt-product sizes q k)) in
              subst (λ t. get_elem? (set out (dst pos) v) (dst t) ≡ get_elem? from (src t)) same
                (get_elem?-set_self out (dst pos) v (omega arith) ∙ sym read);
          others =
              λ i none_here. get_elem?-set_ne out (dst pos) i v (none_here pos h (omega arith));
        }

    -- A position, and all behind it.
    rest_moved :
        (pos : List ℕ) (out new : List A) (v : A)
        → InBox sizes pos
        → length out ≡ total
        → get_elem? from (src pos) ≡ some v
        → IsTransferred sizes src dst from (suc (rank sizes pos)) (set out (dst pos) v) new
        → IsTransferred sizes src dst from (rank sizes pos) out new
    rest_moved pos out new v h len read t =
        let inside = dst_inside pos h in
        let here : get_elem? new (dst pos) ≡ get_elem? from (src pos) =
          t.others (dst pos)
            (λ q k le e. let same = ap (rank sizes) (apart q pos k h e) in absurd (omega arith))
          ∙ get_elem?-set_self out (dst pos) v (omega arith)
          ∙ sym read in
        record {
          same_length = t.same_length ∙ length-set out (dst pos) v;
          moved = λ q k le. elim (ℕ_discrete (rank sizes pos) (rank sizes q)) [
            | yes e ↦
                subst (λ p. get_elem? new (dst p) ≡ get_elem? from (src p))
                  (rank-injective sizes pos q h k e) here
            | no ne ↦ t.moved q k (omega arith)
          ];
          others = λ i none_here.
              t.others i (λ q k le. none_here q k (omega arith))
              ∙ get_elem?-set_ne out (dst pos) i v (none_here pos h (omega arith));
        }

    -- With sources and destinations inside the buffers, no destination met twice, and fuel for
    -- the positions that are left, the loop ends, and has moved exactly their elements.
    pub transfer_loop-Ends :
        (fuel : ℕ) (pos : List ℕ) (out : List A)
        → InBox sizes pos
        → length out ≡ total
        → product sizes ≤ fuel + rank sizes pos
        → Ends
            (IsTransferred sizes src dst from (rank sizes pos) out)
            (transfer_loop fuel sizes src dst from pos out)
    unfolding transfer_loop
    transfer_loop-Ends zero pos out h len enough =
        absurd (omega (arith, rank-lt-product sizes pos h))
    transfer_loop-Ends (suc fuel) pos out h len enough =
        let (v, read) = get_elem?_inside from (src pos) (src_inside pos h) in
        let inside = dst_inside pos h in
        rw (read, store_inside out (dst pos) v (omega arith))
          (after v read (transfer_loop-Ends fuel) (next_position sizes pos)
            (next_position-Successor sizes pos h))
      where
        after :
            (v : A)
            → get_elem? from (src pos) ≡ some v
            → ((p : List ℕ) (o : List A)
                → InBox sizes p
                → length o ≡ total
                → product sizes ≤ fuel + rank sizes p
                → Ends
                    (IsTransferred sizes src dst from (rank sizes p) o)
                    (transfer_loop fuel sizes src dst from p o))
            → (next : Option (List ℕ)) → Successor sizes (rank sizes pos) next
            → Ends (IsTransferred sizes src dst from (rank sizes pos) out) (elim next [
              | none ↦ some (set out (dst pos) v)
              | some pos' ↦ transfer_loop fuel sizes src dst from pos' (set out (dst pos) v)
            ])
        after v read ih none s = ended (last_moved pos out v h len read s)
        after v read ih (some pos') s =
            Ends-map
              (ih pos' (set out (dst pos) v) s.0 (length-set out (dst pos) v ∙ len)
                (omega (arith, s.1)))
              λ new t.
                rest_moved pos out new v h len read
                  (subst (λ r. IsTransferred sizes src dst from r (set out (dst pos) v) new) s.1 t)
