-- ===== src/Partition/SortedIndices.antt =====
-- MakeSortedIndices of cpp/arcae/data_partition.cc: the disk indices in ascending order, and where
-- each of them belongs in memory.
use mathlib.Core.Path.{subst₂}
use mathlib.Core.List.{Perm}
use mathlib.Core.List.Perm
use casa_arrow.Base.{
  ℕ, zero, suc, ◌+◌, ◌<◌, ◌≡◌, refl, ◌∙◌, sym, ap, ap₂, inl, inr, Bool, true, not, ◌&&◌, List, [],
  ◌∷◌, map, length, iota, length-iota, length-map, get_or-map, arith, if◌then◌else◌, Bool-cases,
}
use casa_arrow.Base.Int.{ℤ, pos, ltb_ℤ, ◌≤ℤ◌}
use casa_arrow.Sorting.{SortAlgorithm, IsStrictWeak, length-perm}
use casa_arrow.Partition.{disk_at}
use casa_arrow.Partition.SubSpans.Runs.{Ascends}

pub record IndexResult : Type 0 where
  pub disk : List ℤ
  pub mem : List ℕ

-- std::is_sorted
unfoldable pub is_sorted : List ℤ → Bool
is_sorted [] = true
is_sorted (x ∷ []) = true
is_sorted (x ∷ y ∷ rest) = not (ltb_ℤ y x) && is_sorted (y ∷ rest)

-- The comparator of the sort.
abbrev pub by_disk : List ℤ → ℕ → ℕ → Bool
by_disk ids l r = ltb_ℤ (disk_at ids l) (disk_at ids r)

unfoldable pub make_sorted_indices : SortAlgorithm → List ℤ → IndexResult
unfolding is_sorted
make_sorted_indices std ids =
    if is_sorted ids
    then record { disk = ids; mem = iota (length ids) 0 }
    else let mem = std.sort (by_disk ids) (iota (length ids) 0) in
      record { disk = map (disk_at ids) mem; mem = mem }

-- The memory indices are 0 … n - 1 in some order, the disk index at each place is the one that
-- the selection has at the memory index of that place, and the disk indices ascend.
pub record IsArgsort (ids : List ℤ) (r : IndexResult) : Type 0 where
  pub rearranged : Perm r.mem (iota (length ids) 0)
  pub selected : r.disk ≡ map (disk_at ids) r.mem
  pub ascends : Ascends r.disk

by_disk-IsStrictWeak : (ids : List ℤ) → IsStrictWeak (by_disk ids)
by_disk-IsStrictWeak ids = record {
  asymmetric = λ a b h. ground arith;
  negatively_transitive = λ a b c h k. ground arith;
}

map-iota :
    (xs ys : List ℤ) (k : ℕ)
    → ((i : ℕ) → i < length xs → disk_at ys (k + i) ≡ disk_at xs i)
    → map (disk_at ys) (iota (length xs) k) ≡ xs
map-iota [] ys k h = refl
map-iota (x ∷ xs) ys k h =
    let e : k ≡ k + 0 = omega arith in
    ap₂ ◌∷◌ (ap (disk_at ys) e ∙ h 0 (omega arith)) (
      map-iota xs ys (suc k) λ i lt.
        let e' : suc k + i ≡ k + suc i = omega arith in
        ap (disk_at ys) e' ∙ h (suc i) (omega arith))

is_sorted-Ascends : (xs : List ℤ) → is_sorted xs ≡ true → Ascends xs
unfolding is_sorted
is_sorted-Ascends [] h i j le lt = absurd (omega arith)
is_sorted-Ascends (x ∷ []) h zero zero le lt = omega arith
is_sorted-Ascends (x ∷ []) h zero (suc j) le lt = absurd (omega arith)
is_sorted-Ascends (x ∷ []) h (suc i) j le lt = absurd (omega arith)
is_sorted-Ascends (x ∷ y ∷ rest) h zero zero le lt = omega arith
is_sorted-Ascends (x ∷ y ∷ rest) h zero (suc j) le lt =
    let tail : is_sorted (y ∷ rest) ≡ true = ground arith in
    let head : x ≤ℤ y = ground arith in
    omega (arith, is_sorted-Ascends (y ∷ rest) tail 0 j (omega arith) (omega arith))
is_sorted-Ascends (x ∷ y ∷ rest) h (suc i) zero le lt = absurd (omega arith)
is_sorted-Ascends (x ∷ y ∷ rest) h (suc i) (suc j) le lt =
    let tail : is_sorted (y ∷ rest) ≡ true = ground arith in
    is_sorted-Ascends (y ∷ rest) tail i j (omega arith) (omega arith)

module _ (std : SortAlgorithm) (ids : List ℤ) where
  sorted_mem : List ℕ
  sorted_mem = std.sort (by_disk ids) (iota (length ids) 0)

  length-sorted_mem : length sorted_mem ≡ length ids
  unfolding sorted_mem
  length-sorted_mem = length-perm (std.sort_perm _ _) ∙ length-iota (length ids) 0

  sorted-Ascends : Ascends (map (disk_at ids) sorted_mem)
  unfolding sorted_mem
  sorted-Ascends i j le lt =
      let n = length-sorted_mem in
      let m = length-map sorted_mem (disk_at ids) in
      let at_i = get_or-map sorted_mem (disk_at ids) i 0 (pos 0) (omega arith) in
      let at_j = get_or-map sorted_mem (disk_at ids) j 0 (pos 0) (omega arith) in
      let order =
        std.sort_ordered (by_disk ids) (iota (length ids) 0) i j (by_disk-IsStrictWeak ids) le
          (omega (arith, length-iota (length ids) 0)) in
      subst₂ ◌≤ℤ◌ (sym at_i) (sym at_j) (ground arith)

  -- MakeSortedIndices is an argsort of the selection, also where it skips the sort.
  pub make_sorted_indices-IsArgsort : IsArgsort ids (make_sorted_indices std ids)
  unfolding make_sorted_indices sorted_mem
  make_sorted_indices-IsArgsort = elim (Bool-cases (is_sorted ids)) [
    | inl h ↦ rw h (record {
      rearranged = Perm.rfl;
      selected =
          sym (map-iota ids ids 0 λ i lt. let e : 0 + i ≡ i = omega arith in ap (disk_at ids) e);
      ascends = is_sorted-Ascends ids h;
    })
    | inr h ↦
        rw h (record { rearranged = std.sort_perm _ _; selected = refl; ascends = sorted-Ascends })
  ]
