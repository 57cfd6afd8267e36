-- ===== src/Shape/Offsets/Sizes.antt =====
-- The offsets of GetOffsets in cpp/arcae/result_shape.cc against the sizes of the lists.
pub mod Sums
use mathlib.Core.List.{append_assoc, append-nil}
use casa_arrow.Base.{
  ℕ, zero, suc, ◌+◌, ◌-◌, ◌*◌, ◌≡◌, refl, ◌∙◌, sym, ap, ap₂, List, [], ◌∷◌, ◌++◌, map, length,
  replicate, length-replicate, iota, take, product, arith, subst, if◌then◌else◌,
}
use casa_arrow.Base.Words.{wrap, wrap-add_left, wrap-mul_left}
use casa_arrow.Shape.{ResultShapeData, IPosition, is_fixed, get_shape, get_row_shape, n_rows}
use casa_arrow.Shape.Offsets.{
  Level, to_int32, append_lists, size_product, append_row, row_loop, new_level, get_offsets,
}
use casa_arrow.Shape.Offsets.Levels.{
  AreListOffsets, HasAllDimensions, get_offsets-AreListOffsets, to_int32-wrap, length-append_row,
}
use casa_arrow.Shape.Offsets.Sizes.Sums.{
  running_sums, sum, offsets_of, row_sizes, append_sizes, level_sizes, running_sums-append,
  sum-append, map-append_one, wrap-low,
}

-- A level holds the offsets of the lists so far.
abbrev Holds : Level → List ℕ → Type 0
Holds l sizes = (l.running_offset ≡ wrap (sum sizes)) × (l.builder ≡ offsets_of sizes)

append_lists-Holds :
    (p n : ℕ) (l : Level) (sizes : List ℕ)
    → Holds l sizes
    → Holds (append_lists p n l) (sizes ++ replicate p n)
unfolding append_lists
append_lists-Holds zero n l sizes h = subst (Holds l) (sym (append-nil sizes)) h
append_lists-Holds (suc p) n l sizes (running, built) =
    let next = wrap (l.running_offset + n) in
    let l' : Level = record { running_offset = next; builder = l.builder ++ to_int32 next ∷ [] } in
    let total : next ≡ wrap (0 + sum sizes + n) =
      ap (λ o. wrap (o + n)) running ∙ wrap-add_left (sum sizes) n ∙ ap wrap (omega arith) in
    let count : wrap (0 + sum sizes + n) ≡ wrap (sum (sizes ++ n ∷ [])) =
      ap wrap (omega (arith, sum-append sizes (n ∷ []))) in
    let offset : to_int32 next ≡ to_int32 (0 + sum sizes + n) =
      ap to_int32 total
      ∙ to_int32-wrap (wrap (0 + sum sizes + n)) (0 + sum sizes + n)
          (wrap-low (0 + sum sizes + n)) in
    let built' : l'.builder ≡ offsets_of (sizes ++ n ∷ []) =
      ap₂ (λ b x. b ++ x ∷ []) built offset
      ∙ sym (map-append_one (running_sums 0 sizes) (0 + sum sizes + n))
      ∙ ap (map to_int32) (sym (running_sums-append 0 n sizes)) in
    subst (Holds (append_lists p n l')) (append_assoc sizes (n ∷ []) (replicate p n))
      (append_lists-Holds p n l' (sizes ++ n ∷ []) (total ∙ count, built'))

abbrev AllHold : List Level → List (List ℕ) → Type 0
AllHold [] [] = Unit {0}
AllHold (l ∷ levels) (sizes ∷ rest) = Holds l sizes × AllHold levels rest
AllHold _ _ = ⊥

one_small : 1 ≡ wrap 1
unfolding wrap
one_small = omega arith

size_product-take :
    (shape : IPosition) (levels : List Level)
    → size_product shape levels ≡ wrap (product (take (length levels) shape))
unfolding size_product
size_product-take [] [] = one_small
size_product-take [] (l ∷ levels) = one_small
size_product-take (n ∷ shape) [] = one_small
size_product-take (n ∷ shape) (l ∷ levels) =
    let rest = product (take (length levels) shape) in
    let e : rest * n ≡ n * rest = omega arith in
    ap (λ k. wrap (k * n)) (size_product-take shape levels) ∙ wrap-mul_left rest n ∙ ap wrap e

append_row-AllHold :
    (shape : IPosition) (levels : List Level) (sizes : List (List ℕ))
    → AllHold levels sizes
    → AllHold (append_row shape levels) (append_sizes sizes (row_sizes (length levels) shape))
unfolding append_row
append_row-AllHold [] [] [] h = tt
append_row-AllHold (n ∷ shape) [] [] h = tt
append_row-AllHold [] (l ∷ levels) (xs ∷ sizes) h =
    (subst (Holds l) (sym (append-nil xs)) h.0, append_row-AllHold [] levels sizes h.1)
append_row-AllHold (n ∷ shape) (l ∷ levels) (xs ∷ sizes) h = (
  subst (λ k. Holds (append_lists (size_product shape levels) n l) (xs ++ replicate k n))
      (size_product-take shape levels) (append_lists-Holds (size_product shape levels) n l xs h.0),
  append_row-AllHold shape levels sizes h.1,
)
append_row-AllHold shape [] (xs ∷ sizes) h = absurd h
append_row-AllHold shape (l ∷ levels) [] h = absurd h

append_sizes_assoc :
    (xss yss zss : List (List ℕ))
    → append_sizes (append_sizes xss yss) zss ≡ append_sizes xss (append_sizes yss zss)
append_sizes_assoc [] yss zss = refl
append_sizes_assoc (xs ∷ xss) [] zss = refl
append_sizes_assoc (xs ∷ xss) (ys ∷ yss) [] = refl
append_sizes_assoc (xs ∷ xss) (ys ∷ yss) (zs ∷ zss) =
    ap₂ ◌∷◌ (append_assoc xs ys zs) (append_sizes_assoc xss yss zss)

append_sizes-none :
    (levels : List Level) (sizes : List (List ℕ))
    → AllHold levels sizes
    → append_sizes sizes (replicate (length levels) []) ≡ sizes
append_sizes-none [] [] h = refl
append_sizes-none (l ∷ levels) (xs ∷ sizes) h =
    ap₂ ◌∷◌ (append-nil xs) (append_sizes-none levels sizes h.1)
append_sizes-none [] (xs ∷ sizes) h = absurd h
append_sizes-none (l ∷ levels) [] h = absurd h

row_loop-AllHold :
    (shape_at : ℕ → IPosition) (rounds row : ℕ) (levels : List Level) (sizes : List (List ℕ))
    → AllHold levels sizes
    → AllHold
        (row_loop shape_at rounds row levels)
        (append_sizes sizes (level_sizes (length levels) (map shape_at (iota rounds row))))
unfolding row_loop
row_loop-AllHold shape_at zero row levels sizes h =
    subst (AllHold levels) (sym (append_sizes-none levels sizes h)) h
row_loop-AllHold shape_at (suc rounds) row levels sizes h =
    let shape = shape_at row in
    let next = append_row shape levels in
    let m = length levels in
    let later = λ (k : ℕ) (r : ℕ). level_sizes k (map shape_at (iota rounds r)) in
    let here = append_sizes sizes (row_sizes m shape) in
    let one_on : row + 1 ≡ suc row = omega arith in
    let regroup : append_sizes here (later (length next) (row + 1))
        ≡ append_sizes sizes (append_sizes (row_sizes m shape) (later m (suc row))) =
      ap₂ (λ k r. append_sizes here (later k r)) (length-append_row shape levels) one_on
      ∙ append_sizes_assoc sizes (row_sizes m shape) (later m (suc row)) in
    subst (AllHold (row_loop shape_at rounds (row + 1) next)) regroup (
      row_loop-AllHold shape_at rounds (row + 1) next here
        (append_row-AllHold shape levels sizes h))

new_levels-AllHold : (n : ℕ) → AllHold (replicate n new_level) (replicate n [])
unfolding wrap to_int32
new_levels-AllHold zero = tt
new_levels-AllHold (suc n) = ((omega arith, refl), new_levels-AllHold n)

append_none-sizes :
    (n : ℕ) (yss : List (List ℕ)) → length yss ≡ n → append_sizes (replicate n []) yss ≡ yss
append_none-sizes zero [] e = refl
append_none-sizes (suc n) (ys ∷ yss) e = ap (◌∷◌ ys) (append_none-sizes n yss (omega arith))
append_none-sizes zero (ys ∷ yss) e = absurd (omega arith)
append_none-sizes (suc n) [] e = absurd (omega arith)

builders-AllHold :
    (levels : List Level) (sizes : List (List ℕ))
    → AllHold levels sizes
    → map (λ (l : Level). l.builder) levels ≡ map offsets_of sizes
builders-AllHold [] [] h = refl
builders-AllHold (l ∷ levels) (xs ∷ sizes) h = ap₂ ◌∷◌ h.0.1 (builders-AllHold levels sizes h.1)
builders-AllHold [] (xs ∷ sizes) h = absurd h
builders-AllHold (l ∷ levels) [] h = absurd h

length-row_sizes : (m : ℕ) (shape : IPosition) → length (row_sizes m shape) ≡ m
length-row_sizes zero shape = refl
length-row_sizes (suc m) [] = ap suc (length-row_sizes m [])
length-row_sizes (suc m) (n ∷ shape) = ap suc (length-row_sizes m shape)

length-append_sizes :
    (m : ℕ) (xss yss : List (List ℕ))
    → length xss ≡ m
    → length yss ≡ m
    → length (append_sizes xss yss) ≡ m
length-append_sizes m [] yss e e' = e
length-append_sizes m (xs ∷ xss) [] e e' = e'
length-append_sizes zero (xs ∷ xss) (ys ∷ yss) e e' = absurd (omega arith)
length-append_sizes (suc m) (xs ∷ xss) (ys ∷ yss) e e' =
    ap suc (length-append_sizes m xss yss (omega arith) (omega arith))

length-level_sizes : (m : ℕ) (shapes : List IPosition) → length (level_sizes m shapes) ≡ m
length-level_sizes m [] = length-replicate m []
length-level_sizes m (shape ∷ shapes) =
    length-append_sizes m (row_sizes m shape) (level_sizes m shapes) (length-row_sizes m shape)
      (length-level_sizes m shapes)

-- The shape of a row, from a fixed or a varying result.
abbrev pub shape_at : ResultShapeData → ℕ → IPosition
shape_at r row = if is_fixed r then get_shape r else get_row_shape r row

-- For a result of which every row has its secondary dimensions, fixed or varying, the offsets of
-- each level are the running sums, from 0 on and as int32, of the sizes of the lists that the rows
-- have in it, one row after the other: in a row, a level has as many lists as the dimensions
-- outside it have positions, in size_t, and each has the size of the row's dimension. The levels
-- fit together as nested Arrow lists: the last offset of a level is the number of lists of the level
-- inside it, as an int32, and the outermost level has one list for each row.
pub get_offsets-level_sizes :
    (r : ResultShapeData)
    → HasAllDimensions r
    → (get_offsets r
        ≡ map offsets_of (level_sizes (r.ndim - 1) (map (shape_at r) (iota (n_rows r) 0))))
      × AreListOffsets (n_rows r) (get_offsets r)
unfolding get_offsets
get_offsets-level_sizes r dimensions =
    let m = r.ndim - 1 in
    let start = replicate m new_level in
    let sizes = level_sizes m (map (shape_at r) (iota (n_rows r) 0)) in
    let size : length start ≡ m = length-replicate m new_level in
    let all =
      row_loop-AllHold (shape_at r) (n_rows r) 0 start (replicate m []) (new_levels-AllHold m) in
    let same : append_sizes (replicate m [])
          (level_sizes (length start) (map (shape_at r) (iota (n_rows r) 0)))
        ≡ sizes =
      ap (λ k. append_sizes (replicate m []) (level_sizes k (map (shape_at r) (iota (n_rows r) 0))))
        size
      ∙ append_none-sizes m sizes (length-level_sizes m (map (shape_at r) (iota (n_rows r) 0))) in
    (
      builders-AllHold (row_loop (shape_at r) (n_rows r) 0 start) sizes
          (subst (AllHold (row_loop (shape_at r) (n_rows r) 0 start)) same all),
      get_offsets-AreListOffsets r dimensions,
    )
