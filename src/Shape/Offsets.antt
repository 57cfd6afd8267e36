-- ===== src/Shape/Offsets.antt =====
-- ResultShapeData::GetOffsets of cpp/arcae/result_shape.cc: the list offsets of the Arrow array, one
-- array for each secondary dimension. An Int32Builder takes the low 32 bits of a running offset.
pub mod Levels
pub mod Sizes
use casa_arrow.Base.{
  ℕ, zero, suc, ◌+◌, ◌-◌, ◌*◌, ◌%◌, ◌^◌, Bool, List, [], ◌∷◌, ◌++◌, map, length, replicate,
  if◌then◌else◌, ltb,
}
use casa_arrow.Base.Int.{ℤ, pos, negsuc}
use casa_arrow.Base.Words.{wrap}
use casa_arrow.Shape.{ResultShapeData, IPosition, is_fixed, get_shape, get_row_shape, n_rows}

-- static_cast<std::int32_t>
unfoldable pub to_int32 : ℕ → ℤ
to_int32 n = let low = n % 2 ^ 32 in if ltb low (2 ^ 31) then pos low else negsuc (2 ^ 32 - 1 - low)

-- The builder and the running offset of one dimension.
pub record Level : Type 0 where
  pub running_offset : ℕ
  pub builder : List ℤ

-- The innermost loop: `product` times one more list of `dim_size`.
unfoldable pub append_lists : ℕ → ℕ → Level → Level
unfolding to_int32
append_lists zero dim_size level = level
append_lists (suc product) dim_size level =
    let running = wrap (level.running_offset + dim_size) in
    append_lists product dim_size
      (record { running_offset = running; builder = level.builder ++ to_int32 running ∷ [] })

-- The product of the sizes of the dimensions, as far as there are levels.
unfoldable pub size_product : IPosition → List Level → ℕ
size_product (n ∷ shape) (level ∷ levels) = wrap (size_product shape levels * n)
size_product _ _ = 1

-- The loop over the dimensions from the last to the first. The levels behind a dimension are
-- visited before it, with the product of their sizes as its number of lists.
unfoldable pub append_row : IPosition → List Level → List Level
unfolding append_lists size_product
append_row (n ∷ shape) (level ∷ levels) =
    append_lists (size_product shape levels) n level ∷ append_row shape levels
append_row _ levels = levels

unfoldable pub row_loop : (ℕ → IPosition) → ℕ → ℕ → List Level → List Level
unfolding append_row
row_loop shape_at zero row levels = levels
row_loop shape_at (suc rounds) row levels =
    row_loop shape_at rounds (row + 1) (append_row (shape_at row) levels)

abbrev pub new_level : Level
new_level = record { running_offset = 0; builder = pos 0 ∷ [] }

unfoldable pub get_offsets : ResultShapeData → List (List ℤ)
unfolding row_loop is_fixed n_rows
get_offsets data' =
    let shape_at =
      λ (row : ℕ). if is_fixed data' then get_shape data' else get_row_shape data' row in
    map (λ level. level.builder)
      (row_loop shape_at (n_rows data') 0 (replicate (data'.ndim - 1) new_level))
