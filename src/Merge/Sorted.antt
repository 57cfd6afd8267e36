-- ===== src/Merge/Sorted.antt =====
-- The order of the rows that the merge of src/arcae/lib/merge_sort.cc takes.
use mathlib.Core.List.{Perm, Permᴰ}
use casa_arrow.Base.{
  ℕ, zero, suc, ◌+◌, ◌<◌, ◌≡◌, refl, ◌∙◌, sym, ap, subst, true, false, not, inl, inr, Bool-cases,
  Option, some, none, List, [], ◌∷◌, ltb, ltb→lt, arith,
}
use casa_arrow.Merge.{
  NpyType, PartitionData, MergeData, PriorityQueue, Each, push_next, take_top, less, merge_loop,
  total_rows, start_queue,
}
use casa_arrow.Merge.Order.{IsRow, lex_le, values_at, less-IsWeakOrder, less-lex_le}
use casa_arrow.Merge.Rows.{TakesAll, AllHaveRows, all_rows, merge_loop-all_rows}

-- The values of no element are above those of one behind it.
abbrev pub Ascends : List MergeData → Type 0
Ascends [] = Unit {0}
Ascends (m ∷ ms) = Each (λ n. lex_le (values_at m) (values_at n) ≡ true) ms × Ascends ms

Each-perm : (P : MergeData → Type 0) {ms ns : List MergeData} → Permᴰ ms ns → Each P ns → Each P ms
Each-perm P Permᴰ.nil each = each
Each-perm P (Permᴰ.cons e d) (p, each) = (subst P (sym e) p, Each-perm P d each)
Each-perm P (Permᴰ.swap e f) (q, (p, each)) = (subst P (sym e) p, (subst P (sym f) q, each))
Each-perm P (Permᴰ.trans d d') each = Each-perm P d (Each-perm P d' each)

Each-push_next :
    (P : MergeData → Type 0) (top : MergeData) (rest : List MergeData)
    → (top.row + 1 < top.partition.nrow → P (record top { row = top.row + 1 }))
    → Each P rest
    → Each P (push_next top rest)
unfolding push_next
Each-push_next P top rest next each = elim (Bool-cases (ltb (top.row + 1) top.partition.nrow)) [
  | inl more ↦ rw more (next (ltb→lt (top.row + 1) top.partition.nrow more), each)
  | inr last ↦ rw last each
]

module _ (std : PriorityQueue) (dtypes : List NpyType) where
  IsRow-next : (m : MergeData) (r : ℕ) → IsRow dtypes m → IsRow dtypes (record m { row = r })
  IsRow-next m r is_row = record {
    types = is_row.types;
    n_columns = is_row.n_columns;
    sortable = is_row.sortable;
    ascends = is_row.ascends;
  }

  next_row :
      (m : MergeData)
      → IsRow dtypes m
      → m.row + 1 < m.partition.nrow
      → less m (record m { row = m.row + 1 }) ≡ false
  next_row m is_row more =
      less-lex_le dtypes m (record m { row = m.row + 1 }) is_row (IsRow-next m (m.row + 1) is_row)
      ∙ ap not (is_row.ascends m.row more)

  Each-ascends :
      (m : MergeData) (ms : List MergeData)
      → IsRow dtypes m
      → Each (IsRow dtypes) ms
      → Each (λ n. less m n ≡ false) ms
      → Each (λ n. lex_le (values_at m) (values_at n) ≡ true) ms
  Each-ascends m [] row held each = tt
  Each-ascends m (n ∷ ms) row (q, held) (e, each) =
      let same = less-lex_le dtypes m n row q in (ground arith, Each-ascends m ms row held each)

  -- What is taken ascends, and is not less than what the queue is not less than.
  abbrev Sorts : Option (List MergeData) → List MergeData → Type 0
  Sorts none queue = Unit
  Sorts (some out) queue =
      Each (IsRow dtypes) out
      × Ascends out
      × ((a : MergeData)
          → IsRow dtypes a
          → Each (λ m. less a m ≡ false) queue
          → Each (λ m. less a m ≡ false) out)

  Sorts-take_top :
      (top : MergeData) (rest queue : List MergeData) (out : Option (List MergeData))
      → Permᴰ (top ∷ rest) queue
      → Each (IsRow dtypes) (top ∷ rest)
      → Each (λ m. less top m ≡ false) rest
      → Sorts out (push_next top rest)
      → Sorts (take_top (λ next. out) (some (top, rest))) queue
  unfolding take_top
  Sorts-take_top top rest queue none perm rows greatest sorts = tt
  Sorts-take_top top rest queue (some out) perm (row, rows) greatest (held, ascends, above) =
      let behind : Each (λ m. less top m ≡ false) (push_next top rest) =
        Each-push_next (λ m. less top m ≡ false) top rest (next_row top row) greatest in
      (
        (row, held),
        (Each-ascends top out row held (above top row behind), ascends),
        λ a is_row each.
            let (first, others) = Each-perm (λ m. less a m ≡ false) perm each in
            let next = record top { row = top.row + 1 } in
            let a_next = λ (more : top.row + 1 < top.partition.nrow).
              (less-IsWeakOrder dtypes).trans a top next is_row row
                (IsRow-next top (top.row + 1) row) first (next_row top row more) in
            (first, above a is_row (Each-push_next (λ m. less a m ≡ false) top rest a_next others)),
      )

  merge_loop-Sorts :
      (fuel : ℕ) (queue : List MergeData)
      → Each (IsRow dtypes) queue
      → Sorts (merge_loop std fuel queue) queue
  unfolding merge_loop take_top
  merge_loop-Sorts zero queue rows = tt
  merge_loop-Sorts (suc fuel) [] rows =
      let done : merge_loop std (suc fuel) [] ≡ some [] =
        ap (take_top (merge_loop std fuel)) (std.pop_none less) in
      subst (λ o. Sorts o []) (sym done) (tt, tt, λ a row each. tt)
  merge_loop-Sorts (suc fuel) (m ∷ queue) rows =
      let (top, rest, popped, perm) = std.pop_some less m queue in
      let held = Each-perm (IsRow dtypes) perm rows in
      let next =
        Each-push_next (IsRow dtypes) top rest (λ more. IsRow-next top (top.row + 1) held.0)
          held.1 in
      subst (λ o. Sorts (take_top (merge_loop std fuel) o) (m ∷ queue)) (sym popped)
        (Sorts-take_top top rest (m ∷ queue) (merge_loop std fuel (push_next top rest)) perm held
          (std.pop_greatest less (IsRow dtypes) (less-IsWeakOrder dtypes) (m ∷ queue) rest top rows
            popped)
          (merge_loop-Sorts fuel (push_next top rest) next))

-- For partitions with the same sortable types that all have rows, each with rows that ascend in the
-- lexicographic order of their values, the merge ends, and what it takes are all the rows, and
-- ascends.
pub merge_loop-Ascends :
    (std : PriorityQueue) (dtypes : List NpyType) (partitions : List PartitionData)
    → AllHaveRows partitions
    → Each (IsRow dtypes) (start_queue partitions)
    → (out : List MergeData) × (merge_loop std (total_rows partitions + 1) (start_queue partitions)
        ≡ some out)
      × Perm out (all_rows partitions)
      × Ascends out
merge_loop-Ascends std dtypes partitions nonempty rows =
    both (merge_loop std (total_rows partitions + 1) (start_queue partitions)) refl
      (merge_loop-all_rows std partitions nonempty)
      (merge_loop-Sorts std dtypes (total_rows partitions + 1) (start_queue partitions) rows)
  where
    both :
        (o : Option (List MergeData))
        → merge_loop std (total_rows partitions + 1) (start_queue partitions) ≡ o
        → TakesAll o (all_rows partitions)
        → Sorts std dtypes o (start_queue partitions)
        → (out : List MergeData) × (merge_loop std
              (total_rows partitions + 1)
              (start_queue partitions)
            ≡ some out)
          × Perm out (all_rows partitions)
          × Ascends out
    both none e all sorts = absurd all
    both (some out) e all (held, ascends, above) = (out, e, all, ascends)
