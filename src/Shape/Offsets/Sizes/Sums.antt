-- ===== src/Shape/Offsets/Sizes/Sums.antt =====
-- The sizes of lists and their running sums, for GetOffsets of cpp/arcae/result_shape.cc.
use casa_arrow.Base.{
  ℕ, zero, suc, ◌+◌, ◌%◌, ◌^◌, ◌≡◌, refl, ◌∙◌, ap, List, [], ◌∷◌, ◌++◌, map, replicate, take,
  product, arith,
}
use casa_arrow.Base.Int.{ℤ}
use casa_arrow.Base.Words.{wrap}
use casa_arrow.Shape.{IPosition}
use casa_arrow.Shape.Offsets.{to_int32}

-- The sums of the sizes so far, from a first one on.
abbrev pub running_sums : ℕ → List ℕ → List ℕ
running_sums total [] = total ∷ []
running_sums total (n ∷ sizes) = total ∷ running_sums (total + n) sizes

abbrev pub sum : List ℕ → ℕ
sum [] = 0
sum (n ∷ sizes) = n + sum sizes

-- The int32 offsets of lists with the sizes.
abbrev pub offsets_of : List ℕ → List ℤ
offsets_of sizes = map to_int32 (running_sums 0 sizes)

-- The sizes of the lists that a row has in each of m levels, the innermost first: a level has as
-- many lists, in size_t, as the dimensions outside it have positions.
abbrev pub row_sizes : ℕ → IPosition → List (List ℕ)
row_sizes zero shape = []
row_sizes (suc m) [] = [] ∷ row_sizes m []
row_sizes (suc m) (n ∷ shape) = replicate (wrap (product (take m shape))) n ∷ row_sizes m shape

abbrev pub append_sizes : List (List ℕ) → List (List ℕ) → List (List ℕ)
append_sizes (xs ∷ xss) (ys ∷ yss) = (xs ++ ys) ∷ append_sizes xss yss
append_sizes _ _ = []

-- The sizes of the lists of all rows, one row after the other.
abbrev pub level_sizes : ℕ → List IPosition → List (List ℕ)
level_sizes m [] = replicate m []
level_sizes m (shape ∷ shapes) = append_sizes (row_sizes m shape) (level_sizes m shapes)

pub running_sums-append :
    (total n : ℕ) (sizes : List ℕ)
    → running_sums total (sizes ++ n ∷ [])
      ≡ running_sums total sizes ++ (total + sum sizes + n) ∷ []
running_sums-append total n [] =
    let e : total + n ≡ total + 0 + n = omega arith in ap (λ k. total ∷ k ∷ []) e
running_sums-append total n (k ∷ sizes) =
    let e : total + k + sum sizes + n ≡ total + (k + sum sizes) + n = omega arith in
    ap (◌∷◌ total) (
      running_sums-append (total + k) n sizes
      ∙ ap (λ x. running_sums (total + k) sizes ++ x ∷ []) e)

pub sum-append : (xs ys : List ℕ) → sum (xs ++ ys) ≡ sum xs + sum ys
sum-append [] ys = omega arith
sum-append (x ∷ xs) ys = omega (arith, sum-append xs ys)

pub map-append_one :
    (xs : List ℕ) (x : ℕ) → map to_int32 (xs ++ x ∷ []) ≡ map to_int32 xs ++ to_int32 x ∷ []
map-append_one [] x = refl
map-append_one (y ∷ xs) x = ap (◌∷◌ (to_int32 y)) (map-append_one xs x)

pub wrap-low : (n : ℕ) → wrap n % 2 ^ 32 ≡ n % 2 ^ 32
unfolding wrap
wrap-low n = omega arith
