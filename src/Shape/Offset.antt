-- ===== src/Shape/Offset.antt =====
-- FlatOffset of cpp/arcae/result_shape.cc for a fixed shape.
use casa_arrow.Base.{
  ℕ, zero, suc, ◌+◌, ◌*◌, ◌≤◌, ◌<◌, ◌≡◌, refl, ◌∙◌, sym, ap, List, [], ◌∷◌, ◌++◌, length, product,
  arith, some,
}
use casa_arrow.Base.Words.{size_mod, wrap, wrap_small, wrap-lt, wrap-add_mul, wrap-add_left}
use casa_arrow.Grid.{InBox, rank}
use casa_arrow.Grid.Rank.{rank-lt-product, rank-injective}
use casa_arrow.Shape.{
  ResultShapeData, IPosition, RowShapes, is_fixed, offset_loop, sum_products, flat_offset,
  n_elements,
}

-- The loop adds the number of the position, in units of `product`.
pub offset_loop-rank :
    (bound offset product : ℕ) (index : List ℕ) (shape : IPosition)
    → InBox shape index
    → length shape ≤ bound
    → wrap (offset_loop bound offset product index shape)
      ≡ wrap (offset + product * rank shape index)
unfolding offset_loop rank
offset_loop-rank zero offset product [] [] h le = ap wrap (omega arith)
offset_loop-rank zero offset product (i ∷ index) [] h le = absurd h
offset_loop-rank zero offset product index (n ∷ shape) h le = absurd (omega arith)
offset_loop-rank (suc bound) offset product [] [] h le = ap wrap (omega arith)
offset_loop-rank (suc bound) offset product [] (n ∷ shape) h le = absurd h
offset_loop-rank (suc bound) offset product (i ∷ index) [] h le = absurd h
offset_loop-rank (suc bound) offset product (i ∷ index) (n ∷ shape) h le =
    let regroup : offset + i * product + product * n * rank shape index
        ≡ offset + product * (i + n * rank shape index) =
      omega arith in
    offset_loop-rank bound (wrap (offset + i * product)) (wrap (product * n)) index shape h.1
      (omega arith)
    ∙ wrap-add_mul (offset + i * product) (product * n) (rank shape index)
    ∙ ap wrap regroup

-- What follows the dimensions of the shape in the index is not read.
pub offset_loop-prefix :
    (bound offset product : ℕ) (index rest : List ℕ) (shape : IPosition)
    → InBox shape index
    → length shape ≤ bound
    → offset_loop bound offset product (index ++ rest) shape
      ≡ offset_loop bound offset product index shape
unfolding offset_loop
offset_loop-prefix zero offset product index rest shape h le = refl
offset_loop-prefix (suc bound) offset product [] [] [] h le = refl
offset_loop-prefix (suc bound) offset product [] (r ∷ rest) [] h le = refl
offset_loop-prefix (suc bound) offset product [] rest (n ∷ shape) h le = absurd h
offset_loop-prefix (suc bound) offset product (i ∷ index) rest [] h le = absurd h
offset_loop-prefix (suc bound) offset product (i ∷ index) rest (n ∷ shape) h le =
    offset_loop-prefix bound (wrap (offset + i * product)) (wrap (product * n)) index rest shape h.1
      (omega arith)

pub offset_loop-lt :
    (bound offset product : ℕ) (index : List ℕ) (shape : IPosition)
    → offset < size_mod
    → offset_loop bound offset product index shape < size_mod
unfolding offset_loop
offset_loop-lt zero offset product index shape h = h
offset_loop-lt (suc bound) offset product [] shape h = h
offset_loop-lt (suc bound) offset product (i ∷ index) [] h = h
offset_loop-lt (suc bound) offset product (i ∷ index) (n ∷ shape) h =
    offset_loop-lt bound (wrap (offset + i * product)) (wrap (product * n)) index shape
      (wrap-lt (offset + i * product))

-- The number of elements of all the rows.
abbrev pub total : RowShapes → ℕ
total [] = 0
total (shape ∷ shapes) = product shape + total shapes

pub sum_products-total :
    (t : ℕ) (shapes : RowShapes) → wrap (sum_products t shapes) ≡ wrap (t + total shapes)
unfolding sum_products
sum_products-total t [] = ap wrap (omega arith)
sum_products-total t (shape ∷ shapes) =
    let regroup : t + product shape + total shapes ≡ t + (product shape + total shapes) =
      omega arith in
    sum_products-total (wrap (t + product shape)) shapes
    ∙ wrap-add_left (t + product shape) (total shapes)
    ∙ ap wrap regroup

pub sum_products-lt : (t : ℕ) (shapes : RowShapes) → t < size_mod → sum_products t shapes < size_mod
unfolding sum_products
sum_products-lt t [] h = h
sum_products-lt t (shape ∷ shapes) h =
    sum_products-lt (wrap (t + product shape)) shapes (wrap-lt (t + product shape))

-- A word whose unbounded value fits is that value.
pub word_value : (w n : ℕ) → w < size_mod → n < size_mod → wrap w ≡ wrap n → w ≡ n
word_value w n h k e = sym (wrap_small h) ∙ e ∙ wrap_small k

module _ (result : ResultShapeData) (shape : IPosition) (fixed : result.shape ≡ some shape) where
  -- In a result of fixed shape FlatOffset is the number of the index in FORTRAN order, for every
  -- index in the shape, where the elements can be counted by a size_t.
  pub flat_offset-rank :
      (index : List ℕ)
      → length shape ≡ result.ndim
      → product shape ≤ size_mod
      → InBox shape index
      → flat_offset result index ≡ rank shape index
  unfolding flat_offset is_fixed
  flat_offset-rank index dims small h =
      let bound = rank-lt-product shape index h in
      rw fixed (
        word_value (offset_loop result.ndim 0 1 index shape) (rank shape index)
          (offset_loop-lt result.ndim 0 1 index shape (omega arith)) (omega arith)
          (offset_loop-rank result.ndim 0 1 index shape h (omega arith) ∙ ap wrap (omega arith)))

  pub n_elements-product : product shape < size_mod → n_elements result ≡ product shape
  unfolding n_elements is_fixed
  n_elements-product small = rw fixed (wrap_small small)

  -- Two indices of a fixed shape have one offset only if they are equal, and every offset is
  -- below the number of elements.
  pub flat_offset-injective :
      (index index' : List ℕ)
      → length shape ≡ result.ndim
      → product shape < size_mod
      → InBox shape index
      → InBox shape index'
      → (flat_offset result index < n_elements result)
        × (flat_offset result index ≡ flat_offset result index' → index ≡ index')
  flat_offset-injective index index' dims small h h' =
      let e = flat_offset-rank index dims (omega arith) h in
      let e' = flat_offset-rank index' dims (omega arith) h' in
      (
        omega (arith, e, rank-lt-product shape index h, n_elements-product small),
        λ same. rank-injective shape index index' h h' (sym e ∙ same ∙ e'),
      )
