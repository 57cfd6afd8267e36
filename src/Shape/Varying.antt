-- ===== src/Shape/Varying.antt =====
-- FlatOffset of cpp/arcae/result_shape.cc where the shape varies from row to row.
use casa_arrow.Base.{
  ℕ, zero, suc, ◌+◌, ◌-◌, ◌*◌, ◌≤◌, ◌<◌, ◌≡◌, refl, ◌∙◌, sym, ap, List, [], ◌∷◌, ◌++◌, length, take,
  get_or, product, arith, some, none, get_or-append_right,
}
use casa_arrow.Base.Words.{size_mod, wrap, wrap-add_left}
use casa_arrow.Grid.{InBox, rank}
use casa_arrow.Grid.Rank.{rank-lt-product, InBox-length}
use casa_arrow.Shape.{
  ResultShapeData, RowShapes, is_fixed, offset_loop, sum_products, flat_offset, n_elements,
}
use casa_arrow.Shape.Offset.{
  total, offset_loop-rank, offset_loop-prefix, offset_loop-lt, sum_products-total, sum_products-lt,
  word_value,
}

-- The rows up to and including one hold no more than all rows.
total-take :
    (shapes : RowShapes) (row : ℕ)
    → row < length shapes
    → total (take row shapes) + product (get_or shapes row []) ≤ total shapes
total-take [] row h = absurd (omega arith)
total-take (shape ∷ shapes) zero h = omega arith
total-take (shape ∷ shapes) (suc row) h = omega (arith, total-take shapes row (omega arith))

module _ (result : ResultShapeData) (shapes : RowShapes) (varies : result.shape ≡ none)
    (rows : result.row_shapes ≡ some shapes) where
  -- Where the shape varies, FlatOffset counts the elements of the rows before the row of the
  -- index, and then the elements of that row up to the index in FORTRAN order; the offset is
  -- below the number of elements.
  pub flat_offset-varying :
      (position : List ℕ) (row : ℕ)
      → row < length shapes
      → InBox (get_or shapes row []) position
      → result.ndim ≡ length position + 1
      → total shapes < size_mod
      → (flat_offset result (position ++ row ∷ [])
          ≡ total (take row shapes) + rank (get_or shapes row []) position)
        × (flat_offset result (position ++ row ∷ []) < n_elements result)
  unfolding flat_offset n_elements is_fixed
  flat_offset-varying position row lt h dims small =
      let shape = get_or shapes row [] in
      let d : result.ndim - 1 ≡ length position + 0 = omega arith in
      let at_row = get_or-append_right position (row ∷ []) 0 0 in
      let d' : length position + 0 ≡ length position = omega arith in
      let inner = offset_loop (length position) 0 1 position shape in
      let len = InBox-length shape position h in
      let in_row = rank-lt-product shape position h in
      let part = total-take shapes row lt in
      let value : sum_products inner (take row shapes)
          ≡ total (take row shapes) + rank shape position =
        word_value (sum_products inner (take row shapes)) _
          (sum_products-lt inner (take row shapes)
            (offset_loop-lt (length position) 0 1 position shape (omega arith)))
          (omega arith)
          (sum_products-total inner (take row shapes)
            ∙ sym (wrap-add_left inner (total (take row shapes)))
            ∙ ap (λ t. wrap (t + total (take row shapes)))
                (offset_loop-rank (length position) 0 1 position shape h (omega arith))
            ∙ wrap-add_left (0 + 1 * rank shape position) (total (take row shapes))
            ∙ ap wrap (omega arith)) in
      let all : sum_products 0 shapes ≡ total shapes =
        word_value (sum_products 0 shapes) (total shapes) (sum_products-lt 0 shapes (omega arith))
          small (sum_products-total 0 shapes ∙ ap wrap (omega arith)) in
      rw
        (
          varies,
          rows,
          d,
          at_row,
          d',
          offset_loop-prefix (length position) 0 1 position (row ∷ []) shape h (omega arith),
          value,
          all,
        )
        (refl, omega arith)
