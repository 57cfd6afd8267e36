-- ===== src/Merge/Order.antt =====
-- The order in which operator< of MergeData puts the rows of partitions with the same types.
use casa_arrow.Base.{
  ℕ, ◌+◌, ◌<◌, ◌∙◌, sym, ap, ◌≡◌, refl, Bool, true, false, not, ◌&&◌, ◌||◌, map, List, [], ◌∷◌,
  length, get_or, if◌then◌else◌, arith,
}
use casa_arrow.Base.Int.{ℤ, pos, eqb_ℤ, ltb_ℤ}
use casa_arrow.Merge.{NpyType, is_sortable, MergeData, less, less_loop, IsWeakOrder}

value_trans :
    (s r r' r'' : Bool) (x y z : ℤ)
    → (r ≡ false → r' ≡ false → r'' ≡ false)
    → (if s && not (eqb_ℤ x y) then ltb_ℤ y x else r) ≡ false
    → (if s && not (eqb_ℤ y z) then ltb_ℤ z y else r') ≡ false
    → (if s && not (eqb_ℤ x z) then ltb_ℤ z x else r'') ≡ false
value_trans s r r' r'' x y z rest e e' = ground arith

value_asym :
    (s r r' : Bool) (x y : ℤ)
    → (r ≡ true → r' ≡ false)
    → (if s && not (eqb_ℤ x y) then ltb_ℤ y x else r) ≡ true
    → (if s && not (eqb_ℤ y x) then ltb_ℤ x y else r') ≡ false
value_asym s r r' x y rest e = ground arith

less_loop_trans :
    (dtypes : List NpyType) (xs ys zs : List (List ℤ)) (i j k : ℕ)
    → length xs ≡ length dtypes
    → length ys ≡ length dtypes
    → length zs ≡ length dtypes
    → less_loop dtypes xs ys i j ≡ false
    → less_loop dtypes ys zs j k ≡ false
    → less_loop dtypes xs zs i k ≡ false
unfolding less_loop
less_loop_trans [] xs ys zs i j k a b c e e' = refl
less_loop_trans (dtype ∷ dtypes) [] ys zs i j k a b c e e' = absurd (omega arith)
less_loop_trans (dtype ∷ dtypes) (x ∷ xs) [] zs i j k a b c e e' = absurd (omega arith)
less_loop_trans (dtype ∷ dtypes) (x ∷ xs) (y ∷ ys) [] i j k a b c e e' = absurd (omega arith)
less_loop_trans (dtype ∷ dtypes) (x ∷ xs) (y ∷ ys) (z ∷ zs) i j k a b c e e' =
    value_trans (is_sortable dtype) (less_loop dtypes xs ys i j) (less_loop dtypes ys zs j k)
      (less_loop dtypes xs zs i k) (get_or x i (pos 0)) (get_or y j (pos 0)) (get_or z k (pos 0))
      (less_loop_trans dtypes xs ys zs i j k (omega arith) (omega arith) (omega arith)) e e'

less_loop_asym :
    (dtypes : List NpyType) (xs ys : List (List ℤ)) (i j : ℕ)
    → length xs ≡ length dtypes
    → length ys ≡ length dtypes
    → less_loop dtypes xs ys i j ≡ true
    → less_loop dtypes ys xs j i ≡ false
unfolding less_loop
less_loop_asym [] xs ys i j a b e = absurd (cc)
less_loop_asym (dtype ∷ dtypes) [] ys i j a b e = absurd (omega arith)
less_loop_asym (dtype ∷ dtypes) (x ∷ xs) [] i j a b e = absurd (omega arith)
less_loop_asym (dtype ∷ dtypes) (x ∷ xs) (y ∷ ys) i j a b e =
    value_asym (is_sortable dtype) (less_loop dtypes xs ys i j) (less_loop dtypes ys xs j i)
      (get_or x i (pos 0)) (get_or y j (pos 0))
      (less_loop_asym dtypes xs ys i j (omega arith) (omega arith)) e

-- The lexicographic order of rows.
abbrev pub lex_le : List ℤ → List ℤ → Bool
lex_le (x ∷ xs) (y ∷ ys) = ltb_ℤ x y || (eqb_ℤ x y && lex_le xs ys)
lex_le _ _ = true

abbrev pub values_at : MergeData → List ℤ
values_at m = map (λ column. get_or column m.row (pos 0)) m.partition.columns

abbrev pub AllSortable : List NpyType → Type 0
AllSortable [] = Unit {0}
AllSortable (dtype ∷ dtypes) = (is_sortable dtype ≡ true) × AllSortable dtypes

value_lex :
    (s r le : Bool) (x y : ℤ)
    → s ≡ true
    → r ≡ not le
    → (if s && not (eqb_ℤ x y) then ltb_ℤ y x else r) ≡ not (ltb_ℤ x y || (eqb_ℤ x y && le))
value_lex s r le x y sortable rest = ground arith

less_loop-lex_le :
    (dtypes : List NpyType) (xs ys : List (List ℤ)) (i j : ℕ)
    → AllSortable dtypes
    → length xs ≡ length dtypes
    → length ys ≡ length dtypes
    → less_loop dtypes xs ys i j
      ≡ not (
          lex_le
            (map (λ column. get_or column i (pos 0)) xs)
            (map (λ column. get_or column j (pos 0)) ys))
unfolding less_loop
less_loop-lex_le [] [] ys i j sortable a b = refl
less_loop-lex_le [] (x ∷ xs) ys i j sortable a b = absurd (omega arith)
less_loop-lex_le (dtype ∷ dtypes) [] ys i j sortable a b = absurd (omega arith)
less_loop-lex_le (dtype ∷ dtypes) (x ∷ xs) [] i j sortable a b = absurd (omega arith)
less_loop-lex_le (dtype ∷ dtypes) (x ∷ xs) (y ∷ ys) i j sortable a b =
    value_lex (is_sortable dtype) (less_loop dtypes xs ys i j)
      (lex_le (map (λ column. get_or column i (pos 0)) xs)
        (map (λ column. get_or column j (pos 0)) ys))
      (get_or x i (pos 0)) (get_or y j (pos 0)) sortable.0
      (less_loop-lex_le dtypes xs ys i j sortable.1 (omega arith) (omega arith))

-- A row of a partition whose arrays have the types, and whose rows ascend.
pub record IsRow (dtypes : List NpyType) (m : MergeData) : Type 0 where
  pub types : m.partition.dtypes ≡ dtypes
  pub sortable : AllSortable dtypes
  pub n_columns : length m.partition.columns ≡ length dtypes
  pub ascends :
      (row : ℕ)
      → row + 1 < m.partition.nrow
      → lex_le (values_at (record m { row = row })) (values_at (record m { row = row + 1 })) ≡ true

-- The comparison of two rows of partitions with the types.
less-types :
    (dtypes : List NpyType) (a b : MergeData)
    → IsRow dtypes a
    → less a b ≡ less_loop dtypes a.partition.columns b.partition.columns a.row b.row
unfolding less
less-types dtypes a b p =
    ap (λ d. less_loop d a.partition.columns b.partition.columns a.row b.row) p.types

pub less-IsWeakOrder : (dtypes : List NpyType) → IsWeakOrder less (IsRow dtypes)
less-IsWeakOrder dtypes = record {
  asym = λ a b p q e.
      less-types dtypes b a q
      ∙ less_loop_asym dtypes a.partition.columns b.partition.columns a.row b.row p.n_columns
          q.n_columns (sym (less-types dtypes a b p) ∙ e);
  trans = λ a b c p q r e e'.
      less-types dtypes a c p
      ∙ less_loop_trans dtypes a.partition.columns b.partition.columns c.partition.columns a.row
          b.row c.row p.n_columns q.n_columns r.n_columns (sym (less-types dtypes a b p) ∙ e)
          (sym (less-types dtypes b c q) ∙ e');
}

pub less-lex_le :
    (dtypes : List NpyType) (a b : MergeData)
    → IsRow dtypes a
    → IsRow dtypes b
    → less a b ≡ not (lex_le (values_at a) (values_at b))
less-lex_le dtypes a b p q =
    less-types dtypes a b p
    ∙ less_loop-lex_le dtypes a.partition.columns b.partition.columns a.row b.row p.sortable
        p.n_columns q.n_columns
