-- ===== src/Merge.antt =====
-- PartitionMerge of src/arcae/lib/merge_sort.cc: the merge of partitions whose rows are sorted, each
-- a list of numpy arrays of equal length. The values of the four sortable types are compared as
-- numbers and stand here as integers; a NaN, which no comparison orders, is left out. The Python
-- objects and the interpreter lock have no counterpart. An element of an output array that nothing
-- is written to is `none`.
pub mod Order
pub mod Rows
pub mod Sorted
use mathlib.Core.List.{Permᴰ}
use casa_arrow.Base.{
  ℕ, zero, suc, ◌+◌, ◌-◌, ◌<◌, ◌≡◌, Bool, true, false, not, ◌&&◌, Option, some, none, List, [], ◌∷◌,
  map, length, get_or, iota, if◌then◌else◌, ltb, ◌==◌, Result, ok, err, Status, invalid, ◌>>=◌,
  ◌>>◌, map_result,
}
use casa_arrow.Base.Int.{ℤ, pos, eqb_ℤ, ltb_ℤ}

pub data NpyType : Type 0 where
  npy_int32 npy_int64 npy_float32 npy_float64 npy_other : NpyType

-- VISIT_SORTABLE_TYPES
unfoldable pub is_sortable : NpyType → Bool
is_sortable npy_other = false
is_sortable _ = true

unfoldable pub eq_type : NpyType → NpyType → Bool
eq_type npy_int32 npy_int32 = true
eq_type npy_int64 npy_int64 = true
eq_type npy_float32 npy_float32 = true
eq_type npy_float64 npy_float64 = true
eq_type npy_other npy_other = true
eq_type _ _ = false

-- A PyArrayObject; its first length is that of its values.
pub record PyArray : Type 0 where
  pub ndims : ℕ
  pub array_type : NpyType
  pub values : List ℤ

pub record PartitionData : Type 0 where
  pub columns : List (List ℤ)
  pub dtypes : List NpyType
  pub nrow : ℕ

pub record MergeData : Type 0 where
  pub row : ℕ
  pub partition : PartitionData

-- The loop of operator<, over the types and the columns of both sides.
unfoldable pub less_loop : List NpyType → List (List ℤ) → List (List ℤ) → ℕ → ℕ → Bool
unfolding is_sortable
less_loop (dtype ∷ dtypes) (lhs ∷ lhs_data) (rhs ∷ rhs_data) row rhs_row =
    let lhs_value = get_or lhs row (pos 0) in
    let rhs_value = get_or rhs rhs_row (pos 0) in
    let rest = less_loop dtypes lhs_data rhs_data row rhs_row in
    if is_sortable dtype && not (eqb_ℤ lhs_value rhs_value) then ltb_ℤ rhs_value lhs_value else rest
less_loop _ _ _ row rhs_row = false

unfoldable pub less : MergeData → MergeData → Bool
unfolding less_loop
less m rhs = less_loop m.partition.dtypes m.partition.columns rhs.partition.columns m.row rhs.row

-- What std::priority_queue asks of its comparator, on the elements that it holds.
pub record IsWeakOrder (lt : MergeData → MergeData → Bool) (IsHeld : MergeData → Type 0)
    : Type 0 where
  pub asym : (a b : MergeData) → IsHeld a → IsHeld b → lt a b ≡ true → lt b a ≡ false
  pub trans :
      (a b c : MergeData)
      → IsHeld a
      → IsHeld b
      → IsHeld c
      → lt a b ≡ false
      → lt b c ≡ false
      → lt a c ≡ false

abbrev pub Each : (MergeData → Type 0) → List MergeData → Type 0
Each P [] = Unit
Each P (m ∷ ms) = P m × Each P ms

-- std::priority_queue with a comparator: what is pushed onto it stays in it until it is popped, and
-- where the comparator is an order, none of the others is greater than the top.
pub record PriorityQueue : Type 1 where
  pub pop : (MergeData → MergeData → Bool) → List MergeData → Option (MergeData × List MergeData)
  pub pop_none : (lt : MergeData → MergeData → Bool) → pop lt [] ≡ none
  pub pop_some :
      (lt : MergeData → MergeData → Bool) (m : MergeData) (queue : List MergeData)
      → (top : MergeData) × (rest : List MergeData) × (pop lt (m ∷ queue) ≡ some (top, rest))
        × Permᴰ (top ∷ rest) (m ∷ queue)
  pub pop_greatest :
      (lt : MergeData → MergeData → Bool) (IsHeld : MergeData → Type 0)
      → IsWeakOrder lt IsHeld
      → (queue rest : List MergeData) (top : MergeData) → Each IsHeld queue
      → pop lt queue ≡ some (top, rest)
      → Each (λ m. lt top m ≡ false) rest

-- The loop over the arrays of a partition; the number of rows is known from the first array on.
unfoldable pub load_arrays : Option ℕ → List PyArray → Result (Option ℕ)
load_arrays nrow [] = ok nrow
load_arrays nrow (array ∷ arrays) =
    let rest = load_arrays (some (length array.values)) arrays in
    if not (array.ndims == 1) then err invalid else elim nrow [
      | none ↦ rest
      | some n ↦ if not (n == length array.values) then err invalid else rest
    ]

-- The number of rows of a partition without arrays is not read.
unfoldable pub load_partition : List PyArray → Result PartitionData
unfolding load_arrays
load_partition arrays = do
  nrow ← load_arrays none arrays
  ok (record {
    columns = map (λ (a : PyArray). a.values) arrays;
    dtypes = map (λ (a : PyArray). a.array_type) arrays;
    nrow = elim nrow [ none ↦ 0 | some n ↦ n ];
  })

-- The types of a partition against those of the first.
unfoldable pub check_types : List NpyType → List NpyType → Status
unfolding eq_type is_sortable
check_types (dtype ∷ dtypes) (first ∷ firsts) =
    let rest = check_types dtypes firsts in
    if not (eq_type dtype first)
    then err invalid
    else if is_sortable dtype
    then rest
    else err invalid
check_types _ _ = ok tt

unfoldable pub check_partitions : PartitionData → List PartitionData → Status
unfolding check_types
check_partitions first [] = ok tt
check_partitions first (p ∷ partitions) =
    let rest = check_partitions first partitions in
    if not (length p.columns == length first.columns)
    then err invalid
    else check_types p.dtypes first.dtypes >> rest

-- The element behind one in its partition, if there is one, pushed onto the queue.
unfoldable pub push_next : MergeData → List MergeData → List MergeData
push_next top rest =
    if ltb (top.row + 1) top.partition.nrow then record top { row = top.row + 1 } ∷ rest else rest

-- The body of the loop, with the top and the other elements of the queue, if it is not empty.
unfoldable pub take_top :
    (List MergeData → Option (List MergeData))
    → Option (MergeData × List MergeData)
    → Option (List MergeData)
unfolding push_next
take_top next none = some []
take_top next (some (top, rest)) = elim (next (push_next top rest)) [
  | none ↦ none
  | some out ↦ some (top ∷ out)
]

-- The k-way merge: the elements in the order in which they are taken.
unfoldable pub merge_loop : PriorityQueue → ℕ → List MergeData → Option (List MergeData)
unfolding take_top less
merge_loop std zero queue = none
merge_loop std (suc fuel) queue = take_top (merge_loop std fuel) (std.pop less queue)

-- out[row] = in[prow], for array a
unfoldable pub copied : List NpyType → ℕ → MergeData → Option ℤ
unfolding is_sortable
copied dtypes a m =
    if is_sortable (get_or dtypes a npy_other)
    then some (get_or (get_or m.partition.columns a []) m.row (pos 0))
    else none

abbrev pub total_rows : List PartitionData → ℕ
total_rows [] = 0
total_rows (p ∷ partitions) = p.nrow + total_rows partitions

unfoldable pub start_queue : List PartitionData → List MergeData
start_queue partitions = map (λ p. record { row = 0; partition = p }) partitions

unfoldable pub partition_merge :
    PriorityQueue → List (List PyArray) → Result (List (List (Option ℤ)))
unfolding load_partition check_partitions merge_loop copied start_queue
partition_merge std [] = ok []
partition_merge std ([] ∷ array_partitions) = ok []
partition_merge std ((a ∷ arrays) ∷ array_partitions) = do
  first ← load_partition (a ∷ arrays)
  others ← map_result load_partition array_partitions
  _ ← check_partitions first others
  let partitions = first ∷ others
  elim (merge_loop std (total_rows partitions + 1) (start_queue partitions)) [
    | none ↦ err invalid
    | some taken ↦ ok (map (λ a. map (copied first.dtypes a) taken) (iota (length first.columns) 0))
  ]
