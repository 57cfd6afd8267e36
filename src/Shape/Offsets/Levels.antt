-- ===== src/Shape/Offsets/Levels.antt =====
-- How the offsets of GetOffsets in cpp/arcae/result_shape.cc fit together.
use casa_arrow.Base.{
  ℕ, zero, suc, ◌+◌, ◌-◌, ◌*◌, ◌%◌, ◌^◌, ◌≤◌, ◌<◌, ◌≡◌, refl, ◌∙◌, sym, ap, List, [], ◌∷◌, ◌++◌,
  map, length, replicate, get_or, arith, subst, length-append, get_or-append_right, if◌then◌else◌,
  length-replicate,
}
use casa_arrow.Base.Int.{ℤ, pos}
use casa_arrow.Base.Words.{wrap, wrap-add_left, wrap-add_right}
use casa_arrow.Shape.{ResultShapeData, IPosition, is_fixed, get_shape, get_row_shape, n_rows}
use casa_arrow.Shape.Offsets.{
  Level, to_int32, append_lists, size_product, append_row, row_loop, new_level, get_offsets,
}

abbrev pub last_offset : List ℤ → ℤ
last_offset offsets = get_or offsets (length offsets - 1) (pos 0)

last_offset-append : (offsets : List ℤ) (x : ℤ) → last_offset (offsets ++ x ∷ []) ≡ x
last_offset-append offsets x =
    let e : length (offsets ++ x ∷ []) - 1 ≡ length offsets + 0 =
      omega (arith, length-append offsets (x ∷ [])) in
    ap (λ i. get_or (offsets ++ x ∷ []) i (pos 0)) e
    ∙ get_or-append_right offsets (x ∷ []) 0 (pos 0)

append_lists-length :
    (p n : ℕ) (l : Level) → length (append_lists p n l).builder ≡ length l.builder + p
unfolding append_lists
append_lists-length zero n l = omega arith
append_lists-length (suc p) n l =
    let running = wrap (l.running_offset + n) in
    let longer = l.builder ++ to_int32 running ∷ [] in
    omega (
      arith,
      append_lists-length p n (record { running_offset = running; builder = longer }),
      length-append l.builder (to_int32 running ∷ []),
    )

append_lists-running :
    (p n : ℕ) (l : Level)
    → wrap (append_lists p n l).running_offset ≡ wrap (l.running_offset + p * n)
unfolding append_lists
append_lists-running zero n l = ap wrap (omega arith)
append_lists-running (suc p) n l =
    let regroup : l.running_offset + n + p * n ≡ l.running_offset + suc p * n = omega arith in
    append_lists-running p n _ ∙ wrap-add_left (l.running_offset + n) (p * n) ∙ ap wrap regroup

-- The last offset, which there is, is the running one.
abbrev IsCurrent : Level → Type 0
IsCurrent l = (last_offset l.builder ≡ to_int32 l.running_offset) × (0 < length l.builder)

append_lists-IsCurrent : (p n : ℕ) (l : Level) → IsCurrent l → IsCurrent (append_lists p n l)
unfolding append_lists
append_lists-IsCurrent zero n l h = h
append_lists-IsCurrent (suc p) n l h =
    let x = to_int32 (wrap (l.running_offset + n)) in
    append_lists-IsCurrent p n _
      (last_offset-append l.builder x, omega (arith, length-append l.builder (x ∷ [])))

-- Each level has as many lists as the next one's running offset counts, in size_t; the last has
-- one for each row so far.
abbrev AreNested : ℕ → List Level → Type 0
AreNested rows [] = Unit
AreNested rows (a ∷ []) = IsCurrent a × (length a.builder ≡ rows + 1)
AreNested rows (a ∷ b ∷ levels) =
    IsCurrent a
    × (wrap (length a.builder) ≡ wrap (b.running_offset + 1))
    × AreNested rows (b ∷ levels)

count_step : (la lb k : ℕ) → wrap la ≡ wrap (lb + 1) → wrap (la + wrap k) ≡ wrap (lb + k + 1)
count_step la lb k e =
    let regroup : lb + 1 + k ≡ lb + k + 1 = omega arith in
    wrap-add_right la k
    ∙ sym (wrap-add_left la k)
    ∙ ap (λ t. wrap (t + k)) e
    ∙ wrap-add_left (lb + 1) k
    ∙ ap wrap regroup

suc_step : (a b : ℕ) → wrap a ≡ wrap b → wrap (b + 1) ≡ wrap (a + 1)
suc_step a b e = sym (wrap-add_left b 1) ∙ ap (λ t. wrap (t + 1)) (sym e) ∙ wrap-add_left a 1

append_row-AreNested :
    (rows : ℕ) (shape : IPosition) (levels : List Level)
    → length levels ≤ length shape
    → AreNested rows levels
    → AreNested (rows + 1) (append_row shape levels)
unfolding append_row size_product
append_row-AreNested rows [] [] le h = tt
append_row-AreNested rows (n ∷ shape) [] le h = tt
append_row-AreNested rows [] (a ∷ levels) le h = absurd (omega arith)
append_row-AreNested rows (n ∷ []) (a ∷ []) le h =
    (append_lists-IsCurrent 1 n a h.0, omega (arith, append_lists-length 1 n a, h.1))
append_row-AreNested rows (n ∷ m ∷ shape) (a ∷ []) le h =
    (append_lists-IsCurrent 1 n a h.0, omega (arith, append_lists-length 1 n a, h.1))
append_row-AreNested rows (n ∷ []) (a ∷ b ∷ levels) le h = absurd (omega arith)
append_row-AreNested rows (n ∷ m ∷ shape) (a ∷ b ∷ levels) le h =
    let k = size_product shape levels in
    let b' = append_lists k m b in
    (
      append_lists-IsCurrent (wrap (k * m)) n a h.0,
      ap wrap (append_lists-length (wrap (k * m)) n a)
          ∙ count_step (length a.builder) b.running_offset (k * m) h.1
          ∙ suc_step b'.running_offset (b.running_offset + k * m) (append_lists-running k m b),
      append_row-AreNested rows (m ∷ shape) (b ∷ levels) (omega arith) h.2,
    )

pub length-append_row :
    (shape : IPosition) (levels : List Level) → length (append_row shape levels) ≡ length levels
unfolding append_row
length-append_row [] [] = refl
length-append_row (n ∷ shape) [] = refl
length-append_row [] (a ∷ levels) = refl
length-append_row (n ∷ shape) (a ∷ levels) = ap suc (length-append_row shape levels)

row_loop-AreNested :
    (shape_at : ℕ → IPosition) (rounds row : ℕ) (levels : List Level)
    → ((r : ℕ) → r < row + rounds → length levels ≤ length (shape_at r))
    → AreNested row levels
    → AreNested (row + rounds) (row_loop shape_at rounds row levels)
unfolding row_loop
row_loop-AreNested shape_at zero row levels reach h =
    let e : row ≡ row + 0 = omega arith in subst (λ r. AreNested r levels) e h
row_loop-AreNested shape_at (suc rounds) row levels reach h =
    let e : row + 1 + rounds ≡ row + suc rounds = omega arith in
    let next = append_row (shape_at row) levels in
    subst (λ r. AreNested r (row_loop shape_at rounds (row + 1) next)) e
      (row_loop-AreNested shape_at rounds (row + 1) next
        (λ r lt. omega (arith, length-append_row (shape_at row) levels, reach r (omega arith)))
        (append_row-AreNested row (shape_at row) levels (reach row (omega arith)) h))

new_levels-AreNested : (n : ℕ) → AreNested 0 (replicate n new_level)
unfolding to_int32
new_levels-AreNested zero = tt
new_levels-AreNested (suc zero) = ((refl, omega arith), refl)
new_levels-AreNested (suc (suc n)) = ((refl, omega arith), refl, new_levels-AreNested (suc n))

-- The offsets of Arrow list arrays, the innermost level first: the last offset of each level is
-- the number of lists of the level inside it, and the outermost level has a list for each row.
abbrev pub AreListOffsets : ℕ → List (List ℤ) → Type 0
AreListOffsets rows [] = Unit
AreListOffsets rows (a ∷ []) = length a ≡ rows + 1
AreListOffsets rows (a ∷ b ∷ offsets) =
    (last_offset b ≡ to_int32 (length a - 1)) × AreListOffsets rows (b ∷ offsets)

pub to_int32-wrap : (m n : ℕ) → m % 2 ^ 32 ≡ n % 2 ^ 32 → to_int32 m ≡ to_int32 n
unfolding to_int32
to_int32-wrap m n e = rw e refl

low_count : (la lb : ℕ) → 0 < la → wrap la ≡ wrap (lb + 1) → lb % 2 ^ 32 ≡ (la - 1) % 2 ^ 32
unfolding wrap
low_count la lb h e = omega arith

builders-AreListOffsets :
    (rows : ℕ) (levels : List Level)
    → AreNested rows levels
    → AreListOffsets rows (map (λ (l : Level). l.builder) levels)
builders-AreListOffsets rows [] h = tt
builders-AreListOffsets rows (a ∷ []) h = h.1
builders-AreListOffsets rows (a ∷ b ∷ levels) h = (
  current rows b levels h.2
      ∙ to_int32-wrap b.running_offset (length a.builder - 1)
          (low_count (length a.builder) b.running_offset h.0.1 h.1),
  builders-AreListOffsets rows (b ∷ levels) h.2,
)
  where
    current :
        (rows : ℕ) (c : Level) (levels : List Level)
        → AreNested rows (c ∷ levels)
        → last_offset c.builder ≡ to_int32 c.running_offset
    current rows c [] k = k.0.0
    current rows c (d ∷ levels) k = k.0.0

-- Every row has a size for each secondary dimension.
abbrev pub HasAllDimensions : ResultShapeData → Type 0
HasAllDimensions r =
    (row : ℕ)
    → row < n_rows r
    → r.ndim - 1 ≤ length (if is_fixed r then get_shape r else get_row_shape r row)

-- For a result of which every row has its secondary dimensions, fixed or varying, GetOffsets
-- returns an array for each of them that fit together as the offsets of nested Arrow lists: the
-- last offset of each level is the number of lists of the level inside it, as an int32, and the
-- outermost level has one list for each row.
pub get_offsets-AreListOffsets :
    (r : ResultShapeData) → HasAllDimensions r → AreListOffsets (n_rows r) (get_offsets r)
unfolding get_offsets
get_offsets-AreListOffsets r h =
    let shape_at = λ (row : ℕ). if is_fixed r then get_shape r else get_row_shape r row in
    let start = replicate (r.ndim - 1) new_level in
    let zero_left : 0 + n_rows r ≡ n_rows r = omega arith in
    let size = length-replicate (r.ndim - 1) new_level in
    builders-AreListOffsets (n_rows r) (row_loop shape_at (n_rows r) 0 start) (
      subst (λ n. AreNested n (row_loop shape_at (n_rows r) 0 start)) zero_left
        (row_loop-AreNested shape_at (n_rows r) 0 start
          (λ row lt. omega (arith, size, h row (omega arith))) (new_levels-AreNested (r.ndim - 1))))
