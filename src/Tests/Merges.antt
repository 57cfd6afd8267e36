-- ===== src/Tests/Merges.antt =====
-- A run of src/arcae/lib/merge_sort.cc.
use mathlib.Core.List.{Perm, Permᴰ}
use mathlib.Core.List.Permᴰ
use casa_arrow.Base.{
  ℕ, zero, suc, ◌<◌, ◌+◌, ◌≡◌, refl, inl, inr, subst, Bool, true, false, Bool-cases, Option, some,
  none, List, [], ◌∷◌, arith, if◌then◌else◌,
}
use casa_arrow.Base.Int.{pos}
use casa_arrow.Merge.{
  PartitionData, MergeData, PriorityQueue, IsWeakOrder, Each, is_sortable, npy_int32, merge_loop,
  start_queue, total_rows,
}
use casa_arrow.Merge.Order.{IsRow, lex_le, values_at}
use casa_arrow.Merge.Sorted.{Ascends, merge_loop-Ascends}
use casa_arrow.Merge.Rows.{TakesAll, all_rows, merge_loop-all_rows}

-- A greatest element in front of the others, by search.
greatest_of :
    (MergeData → MergeData → Bool) → MergeData → List MergeData → MergeData × List MergeData
greatest_of lt m [] = (m, [])
greatest_of lt m (n ∷ queue) =
    let (top, rest) = greatest_of lt n queue in
    if lt m top then (top, m ∷ rest) else (m, top ∷ rest)

greatest_of-perm :
    (lt : MergeData → MergeData → Bool) (m : MergeData) (queue : List MergeData)
    → Permᴰ ((greatest_of lt m queue).0 ∷ (greatest_of lt m queue).1) (m ∷ queue)
unfolding greatest_of
greatest_of-perm lt m [] = Permᴰ.refl (m ∷ [])
greatest_of-perm lt m (n ∷ queue) =
    let top = (greatest_of lt n queue).0 in
    let rest = (greatest_of lt n queue).1 in
    elim (Bool-cases (lt m top)) [
      | inl h ↦
          rw h (Permᴰ.trans (Permᴰ.swap refl refl) (Permᴰ.cons refl (greatest_of-perm lt n queue)))
      | inr h ↦ rw h (Permᴰ.cons refl (greatest_of-perm lt n queue))
    ]

pop_greatest : (MergeData → MergeData → Bool) → List MergeData → Option (MergeData × List MergeData)
pop_greatest lt [] = none
pop_greatest lt (m ∷ queue) = some (greatest_of lt m queue)

pop_greatest-nil : (lt : MergeData → MergeData → Bool) → pop_greatest lt [] ≡ none
unfolding pop_greatest
pop_greatest-nil lt = refl

pop_greatest-cons :
    (lt : MergeData → MergeData → Bool) (m : MergeData) (queue : List MergeData)
    → (top : MergeData) × (rest : List MergeData) × (pop_greatest lt (m ∷ queue) ≡ some (top, rest))
      × Permᴰ (top ∷ rest) (m ∷ queue)
unfolding pop_greatest
pop_greatest-cons lt m queue =
    ((greatest_of lt m queue).0, (greatest_of lt m queue).1, refl, greatest_of-perm lt m queue)

below_top :
    (lt : MergeData → MergeData → Bool) (IsHeld : MergeData → Type 0)
    → IsWeakOrder lt IsHeld
    → (m top : MergeData) (rest : List MergeData) → IsHeld m
    → IsHeld top
    → lt m top ≡ false
    → Each IsHeld rest
    → Each (λ n. lt top n ≡ false) rest
    → Each (λ n. lt m n ≡ false) rest
below_top lt IsHeld order m top [] p q e held each = tt
below_top lt IsHeld order m top (n ∷ rest) p q e (r, held) (f, each) =
    (order.trans m top n p q r e f, below_top lt IsHeld order m top rest p q e held each)

greatest_of-Each :
    (lt : MergeData → MergeData → Bool) (IsHeld : MergeData → Type 0)
    → IsWeakOrder lt IsHeld
    → (m : MergeData) (queue : List MergeData) → Each IsHeld (m ∷ queue)
    → Each IsHeld ((greatest_of lt m queue).0 ∷ (greatest_of lt m queue).1)
      × Each (λ n. lt (greatest_of lt m queue).0 n ≡ false) (greatest_of lt m queue).1
unfolding greatest_of
greatest_of-Each lt IsHeld order m [] held = (held, tt)
greatest_of-Each lt IsHeld order m (n ∷ queue) held =
    let ((is_held, rest_held), each) = greatest_of-Each lt IsHeld order n queue held.1 in
    let top = (greatest_of lt n queue).0 in
    let rest = (greatest_of lt n queue).1 in
    elim (Bool-cases (lt m top)) [
      | inl h ↦ rw h ((is_held, (held.0, rest_held)), (order.asym m top held.0 is_held h, each))
      | inr h ↦ rw h (
        (held.0, (is_held, rest_held)),
        (h, below_top lt IsHeld order m top rest held.0 is_held h rest_held each),
      )
    ]

pop_greatest-Each :
    (lt : MergeData → MergeData → Bool) (IsHeld : MergeData → Type 0)
    → IsWeakOrder lt IsHeld
    → (queue rest : List MergeData) (top : MergeData) → Each IsHeld queue
    → pop_greatest lt queue ≡ some (top, rest)
    → Each (λ m. lt top m ≡ false) rest
unfolding pop_greatest
pop_greatest-Each lt IsHeld order [] rest top held e = absurd (cc)
pop_greatest-Each lt IsHeld order (m ∷ queue) rest top held e =
    let same : greatest_of lt m queue ≡ (top, rest) = cc in
    subst (λ (r : MergeData × List MergeData). Each (λ n. lt r.0 n ≡ false) r.1) same
      (greatest_of-Each lt IsHeld order m queue held).1

abbrev by_search : PriorityQueue
by_search = record {
  pop = pop_greatest;
  pop_none = pop_greatest-nil;
  pop_some = pop_greatest-cons;
  pop_greatest = pop_greatest-Each;
}

abbrev first_partition : PartitionData
first_partition = record { columns = (pos 1 ∷ pos 4 ∷ []) ∷ []; dtypes = npy_int32 ∷ []; nrow = 2 }

abbrev two_partitions : List PartitionData
two_partitions =
    first_partition ∷ record { columns = (pos 3 ∷ []) ∷ []; dtypes = npy_int32 ∷ []; nrow = 1 } ∷ []

merge_loop-all_rows_example :
    TakesAll
      (merge_loop by_search (total_rows two_partitions + 1) (start_queue two_partitions))
      (all_rows two_partitions)
merge_loop-all_rows_example =
    merge_loop-all_rows by_search two_partitions (omega arith, (omega arith, tt))

first_ascends :
    (row : ℕ)
    → row + 1 < 2
    → lex_le
        (values_at (record { row = row; partition = first_partition }))
        (values_at (record { row = row + 1; partition = first_partition }))
      ≡ true
first_ascends zero h = refl
first_ascends (suc row) h = absurd (omega arith)

two_partitions-IsRow : Each (IsRow (npy_int32 ∷ [])) (start_queue two_partitions)
unfolding start_queue is_sortable
two_partitions-IsRow = (
  record { types = refl; n_columns = refl; sortable = (refl, tt); ascends = first_ascends },
  (
    record {
      types = refl;
      n_columns = refl;
      sortable = (refl, tt);
      ascends = λ row h. absurd (omega (arith, h));
    },
    tt,
  ),
)

merge_loop-Ascends_example :
    (out : List MergeData) × (merge_loop by_search
        (total_rows two_partitions + 1)
        (start_queue two_partitions)
      ≡ some out)
    × Perm out (all_rows two_partitions)
    × Ascends out
merge_loop-Ascends_example =
    merge_loop-Ascends by_search (npy_int32 ∷ []) two_partitions (omega arith, (omega arith, tt))
      two_partitions-IsRow
