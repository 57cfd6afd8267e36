-- ===== src/Reading/Assembly.antt =====
-- GetConvertStrategy, MakePrimitiveArray and MakeArray of cpp/arcae/read_impl.cc: the Arrow array over
-- a buffer of values. FromArrays of the lists and the StringBuilder are arguments.
use casa_arrow.Base.{
  ℕ, ◌+◌, ◌-◌, ◌*◌, Bool, true, false, some, List, [], ◌∷◌, map, take, iota, if◌then◌else◌, Result,
  ok, err, invalid, type_error, ◌>>=◌, ◌&&◌,
}
use casa_arrow.Base.Int.{ℤ}
use casa_arrow.Base.Texts.{codes, contains}
use casa_arrow.CasaType.{
  CasaType, ArrowType, arrow_data_type, is_complex, is_string, is_primitive_type,
}
use casa_arrow.Arrow.{Buffer, ArrowArray, flat}
use casa_arrow.Configuration.{KvMap, get_default}
use casa_arrow.Shape.{ResultShapeData, IPosition, is_fixed, get_shape, n_elements}
use casa_arrow.Shape.Offsets.{to_int32, get_offsets}

pub data ConvertStrategy : Type 0 where
  fixed_lists nested_lists : ConvertStrategy

abbrev pub is_fixed_strategy : ConvertStrategy → Bool
is_fixed_strategy fixed_lists = true
is_fixed_strategy nested_lists = false

unfoldable pub get_convert_strategy : KvMap → Result ConvertStrategy
unfolding get_default
get_convert_strategy config =
    let strategy = codes (get_default config "casa.convert.strategy" "fixed") in
    if contains (codes "fixed") strategy
    then ok fixed_lists
    else if contains (codes "list") strategy
    then ok nested_lists
    else err invalid

-- What MakeArray takes from Arrow and casacore: FixedSizeListArray::FromArrays,
-- ListArray::FromArrays, a StringBuilder that is given all strings, and isNumeric.
pub record ArrayMaker (V : Type 0) : Type 0 where
  pub fixed_size_lists : ArrowArray V → ℕ → Result (ArrowArray V)
  pub lists : List ℤ → ArrowArray V → Result (ArrowArray V)
  pub build_strings : List V → Result (ArrowArray V)
  pub is_numeric : CasaType → Bool

module _ {V : Type 0} where
  unfoldable pub make_primitive_array : ArrowType → ℕ → Buffer V → ArrowArray V
  make_primitive_array dtype n buffer =
      flat (record { arrow_type = dtype; n_values = n; buffer = some buffer })

  -- The innermost array: the values, or the pairs of complex values.
  unfoldable pub make_values :
      ArrayMaker V → ConvertStrategy → CasaType → ArrowType → ℕ → Buffer V → Result (ArrowArray V)
  unfolding make_primitive_array is_complex is_primitive_type to_int32
  make_values arrow strategy casa_type dtype n buffer =
      let base = make_primitive_array dtype (2 * n) buffer in
      if is_string casa_type
      then arrow.build_strings buffer.values
      else if is_complex casa_type
      then if is_fixed_strategy strategy
        then arrow.fixed_size_lists base 2
        else arrow.lists (map (λ i. to_int32 (2 * i)) (iota (n + 1) 0)) base
      else if is_primitive_type arrow.is_numeric casa_type
      then ok (make_primitive_array dtype n buffer)
      else err type_error

  -- The lists around the values, one level for each secondary dimension.
  unfoldable pub nest_fixed : ArrayMaker V → IPosition → ArrowArray V → Result (ArrowArray V)
  nest_fixed arrow [] result = ok result
  nest_fixed arrow (n ∷ dims) result =
      arrow.fixed_size_lists result n >>= λ next. nest_fixed arrow dims next

  unfoldable pub nest_lists : ArrayMaker V → List (List ℤ) → ArrowArray V → Result (ArrowArray V)
  nest_lists arrow [] result = ok result
  nest_lists arrow (offset ∷ offsets) result =
      arrow.lists offset result >>= λ next. nest_lists arrow offsets next

  -- "Introduce shape nesting"
  unfoldable pub nest_levels :
      ArrayMaker V → ConvertStrategy → ResultShapeData → ArrowArray V → Result (ArrowArray V)
  unfolding is_fixed nest_fixed nest_lists get_offsets
  nest_levels arrow strategy result_shape values =
      if is_fixed result_shape && is_fixed_strategy strategy
      then nest_fixed arrow (take (result_shape.ndim - 1) (get_shape result_shape)) values
      else nest_lists arrow (get_offsets result_shape) values

  unfoldable pub make_array :
      ArrayMaker V → KvMap → ResultShapeData → Buffer V → Result (ArrowArray V)
  unfolding arrow_data_type n_elements get_convert_strategy make_values nest_levels
  make_array arrow config result_shape buffer = do
    dtype ← arrow_data_type result_shape.dtype
    strategy ← get_convert_strategy config
    values ← make_values arrow strategy result_shape.dtype dtype (n_elements result_shape) buffer
    nest_levels arrow strategy result_shape values
