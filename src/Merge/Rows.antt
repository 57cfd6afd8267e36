-- ===== src/Merge/Rows.antt =====
-- Which rows the merge of src/arcae/lib/merge_sort.cc takes.
use mathlib.Core.List.{Perm, append_assoc}
use mathlib.Core.List.Perm
use mathlib.Core.List.Permᴰ
use mathlib.Core.List.{Permᴰ}
use mathlib.Core.Logic.{∥∥₁_map}
use casa_arrow.Base.{
  ℕ, zero, suc, ◌+◌, ◌-◌, ◌<◌, ◌≡◌, refl, ◌∙◌, sym, ap, ap₂, subst, inl, inr, Option, some, none,
  List, [], ◌∷◌, ◌++◌, map, length, iota, ltb, Bool-cases, arith, length-append, length-map,
  length-iota,
}
use casa_arrow.Sorting.{length-perm}
use casa_arrow.Partition.{concat}
use casa_arrow.Merge.{
  PartitionData, MergeData, PriorityQueue, push_next, take_top, less, merge_loop, total_rows,
  start_queue,
}

-- n rows of a partition, from a row on.
abbrev pub rows_from : PartitionData → ℕ → ℕ → List MergeData
rows_from p n row = map (λ r. record { row = r; partition = p }) (iota n row)

-- An element and those behind it in its partition.
abbrev steps : MergeData → List MergeData
steps m = m ∷ rows_from m.partition (m.partition.nrow - m.row - 1) (m.row + 1)

abbrev all_steps : List MergeData → List MergeData
all_steps queue = concat (map steps queue)

all_steps-push_next :
    (top : MergeData) (rest : List MergeData)
    → all_steps (top ∷ rest) ≡ top ∷ all_steps (push_next top rest)
unfolding push_next
all_steps-push_next top rest = elim (Bool-cases (ltb (top.row + 1) top.partition.nrow)) [
  | inl more ↦
      let p = top.partition in
      let count : p.nrow - top.row - 1 ≡ suc (p.nrow - (top.row + 1) - 1) = ground arith in
      let next : suc (top.row + 1) ≡ top.row + 1 + 1 = omega arith in
      rw more (
        ap (λ n. top ∷ rows_from p n (top.row + 1) ++ all_steps rest) count
        ∙ ap
            (λ r.
              top
                ∷ (record { row = top.row + 1; partition = p }
                    ∷ rows_from p (p.nrow - (top.row + 1) - 1) r)
              ++ all_steps rest)
            next)
  | inr last ↦
      let p = top.partition in
      let count : p.nrow - top.row - 1 ≡ 0 = ground arith in
      rw last (ap (λ n. top ∷ rows_from p n (top.row + 1) ++ all_steps rest) count)
]

-- Two blocks change places in front of a rest.
blocks_swap : (xs ys rest : List MergeData) → Permᴰ (xs ++ (ys ++ rest)) (ys ++ (xs ++ rest))
blocks_swap xs ys rest =
    subst (λ l. Permᴰ l (ys ++ (xs ++ rest))) (append_assoc xs ys rest)
      (subst (Permᴰ ((xs ++ ys) ++ rest)) (append_assoc ys xs rest)
        (Permᴰ.append_right rest (Permᴰ.append_comm xs ys)))

all_steps-perm_data : {q q' : List MergeData} → Permᴰ q q' → Permᴰ (all_steps q) (all_steps q')
all_steps-perm_data Permᴰ.nil = Permᴰ.nil
all_steps-perm_data (Permᴰ.cons {a} {b} {l₁} {l₂} e d) =
    subst (λ s. Permᴰ (steps a ++ all_steps l₁) (s ++ all_steps l₂)) (ap steps e)
      (Permᴰ.append_left (steps a) (all_steps-perm_data d))
all_steps-perm_data (Permᴰ.swap {a} {b} {a'} {b'} {l} e f) =
    subst (λ s. Permᴰ (steps a ++ (steps b ++ all_steps l)) (s ++ (steps b' ++ all_steps l)))
      (ap steps f)
      (subst (λ s. Permᴰ (steps a ++ (steps b ++ all_steps l)) (steps b ++ (s ++ all_steps l)))
        (ap steps e) (blocks_swap (steps a) (steps b) (all_steps l)))
all_steps-perm_data (Permᴰ.trans d d') =
    Permᴰ.trans (all_steps-perm_data d) (all_steps-perm_data d')

all_steps-perm : {q q' : List MergeData} → Perm q q' → Perm (all_steps q) (all_steps q')
all_steps-perm {q} {q'} p = ∥∥₁_map {B = Permᴰ (all_steps q) (all_steps q')} p all_steps-perm_data

-- The loop ends, and has taken every element of the queue and those behind it.
abbrev pub TakesAll : Option (List MergeData) → List MergeData → Type 0
TakesAll none all = ⊥
TakesAll (some out) all = Perm out all

module _ (std : PriorityQueue) where
  merge_loop-TakesAll :
      (fuel : ℕ) (queue : List MergeData)
      → length (all_steps queue) < fuel
      → TakesAll (merge_loop std fuel queue) (all_steps queue)
  unfolding merge_loop take_top
  merge_loop-TakesAll zero queue h = absurd (omega arith)
  merge_loop-TakesAll (suc fuel) [] h =
      let done : merge_loop std (suc fuel) [] ≡ some [] =
        ap (take_top (merge_loop std fuel)) (std.pop_none less) in
      subst (λ o. TakesAll o []) (sym done) Perm.nil
  merge_loop-TakesAll (suc fuel) (m ∷ queue) h =
      let (top, rest, popped, perm) = std.pop_some less m queue in
      let split = all_steps-push_next top rest in
      let all = all_steps-perm ∣ perm ∣₁ in
      let enough : length (all_steps (push_next top rest)) < fuel =
        omega (arith, length-perm all, ap length split, h) in
      subst (λ o. TakesAll (take_top (merge_loop std fuel) o) (all_steps (m ∷ queue))) (sym popped)
        (after top (merge_loop std fuel (push_next top rest)) (all_steps (push_next top rest))
          (merge_loop-TakesAll fuel (push_next top rest) enough)
          (subst (λ l. Perm l (all_steps (m ∷ queue))) split all))
    where
      after :
          (top : MergeData) (out : Option (List MergeData)) (left : List MergeData)
          → TakesAll out left
          → Perm (top ∷ left) (all_steps (m ∷ queue))
          → TakesAll
              (elim out [ none ↦ none | some out' ↦ some (top ∷ out') ])
              (all_steps (m ∷ queue))
      after top none left t p = absurd t
      after top (some out) left t p = Perm.trans (Perm.cons top t) p

-- No partition is without rows.
abbrev pub AllHaveRows : List PartitionData → Type 0
AllHaveRows [] = Unit
AllHaveRows (p ∷ partitions) = (0 < p.nrow) × AllHaveRows partitions

-- Every row of every partition, in order.
abbrev pub all_rows : List PartitionData → List MergeData
all_rows partitions = concat (map (λ p. rows_from p p.nrow 0) partitions)

start-all_rows :
    (partitions : List PartitionData)
    → AllHaveRows partitions
    → all_steps (start_queue partitions) ≡ all_rows partitions
unfolding start_queue
start-all_rows [] h = refl
start-all_rows (p ∷ partitions) h =
    let count : suc (p.nrow - 0 - 1) ≡ p.nrow = omega arith in
    let next : 0 + 1 ≡ suc 0 = omega arith in
    ap
      (λ r.
        (record { row = 0; partition = p } ∷ rows_from p (p.nrow - 0 - 1) r)
        ++ all_steps (start_queue partitions))
      next
    ∙ ap₂ ◌++◌ (ap (λ n. rows_from p n 0) count) (start-all_rows partitions h.1)

length-all_rows :
    (partitions : List PartitionData) → length (all_rows partitions) ≡ total_rows partitions
length-all_rows [] = refl
length-all_rows (p ∷ partitions) =
    length-append (rows_from p p.nrow 0) (all_rows partitions)
    ∙ ap₂ ◌+◌ (length-map (iota p.nrow 0) _ ∙ length-iota p.nrow 0) (length-all_rows partitions)

-- For partitions that all have rows, the merge ends and takes every row of every partition once.
pub merge_loop-all_rows :
    (std : PriorityQueue) (partitions : List PartitionData)
    → AllHaveRows partitions
    → TakesAll
        (merge_loop std (total_rows partitions + 1) (start_queue partitions))
        (all_rows partitions)
merge_loop-all_rows std partitions h =
    let start = start-all_rows partitions h in
    subst (TakesAll (merge_loop std (total_rows partitions + 1) (start_queue partitions))) start (
      merge_loop-TakesAll std (total_rows partitions + 1) (start_queue partitions)
        (omega (arith, ap length start, length-all_rows partitions)))
