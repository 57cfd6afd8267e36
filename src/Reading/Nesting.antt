-- ===== src/Reading/Nesting.antt =====
-- MakeArray of cpp/arcae/read_impl.cc against GetResultShapeData of cpp/arcae/result_shape.cc, for
-- results of fixed shape that are made of lists of fixed size.
pub mod Lists
use Prim.Native.String.{String}
use mathlib.Core.List.{
  reverse, reverse-cons, reverse-append, reverse-reverse, append_assoc, append-nil,
}
use casa_arrow.Base.{
  ℕ, ◌+◌, ◌-◌, ◌*◌, ◌<◌, ◌≡◌, refl, ◌∙◌, ap, ap₂, Bool, true, false, not, some, none, [], ◌∷◌, ◌++◌,
  length, length-append, length-reverse, take, take-length-append, product, arith, if◌then◌else◌,
  ok, ◌>>=◌,
}
use casa_arrow.Base.Words.{size_mod}
use casa_arrow.CasaType.{
  CasaType, ArrowType, arrow_data_type, is_complex, is_string, is_primitive_type,
}
use casa_arrow.Arrow.{Buffer, ArrowArray, nested, array_length, contents}
use casa_arrow.Configuration.{KvMap}
use casa_arrow.Grid.Rank.{IsProper}
use casa_arrow.Shape.{ResultShapeData, IPosition, is_fixed, n_elements}
use casa_arrow.Shape.Offset.{n_elements-product}
use casa_arrow.Shape.Arrays.{
  arrow_shape_of, start_state, fixed_data, get_arrow_result_shape_data, drop_pairs, to_complex,
  get_result_shape_data,
}
use casa_arrow.Shape.Read.WellFormed.{IsFixedResult}
use casa_arrow.Reading.Assembly.{
  fixed_lists, get_convert_strategy, ArrayMaker, make_values, nest_fixed, nest_levels, make_array,
}
use casa_arrow.Reading.Nesting.Lists.{
  fixed_state, MakesLists, IsNestOf, shape_loop-IsNestOf, nest_fixed-IsNestOf, pair_dims,
  make_values-IsNestOf,
}

product-append_one : (dims : IPosition) (n : ℕ) → product (dims ++ n ∷ []) ≡ n * product dims
product-append_one [] n = omega arith
product-append_one (m ∷ dims) n = grind (arith, product-append_one dims n)

reversed :
    (n : ℕ) (dims inner : IPosition)
    → reverse (n ∷ (reverse dims ++ inner)) ≡ reverse inner ++ (dims ++ n ∷ [])
reversed n dims inner =
    reverse-cons n (reverse dims ++ inner)
    ∙ ap (λ d. d ++ n ∷ [])
        (reverse-append (reverse dims) inner ∙ ap (λ d. reverse inner ++ d) (reverse-reverse dims))
    ∙ append_assoc (reverse inner) dims (n ∷ [])

-- The data of a fixed shape.
abbrev pub fixed_fields : String → CasaType → IPosition → ResultShapeData
fixed_fields name dtype shape = record {
  column_name = name;
  shape = some shape;
  ndim = length shape;
  dtype = dtype;
  row_shapes = none;
}

module _ {V : Type 0} (name : String) (dtype : CasaType) (array : ArrowArray V)
    (secondary : IPosition) (uniform : IsNestOf (reverse secondary ++ pair_dims dtype) array) where
  abbrev whole_data : ResultShapeData
  whole_data = fixed_fields name dtype (secondary ++ array_length array ∷ [])

  -- The state behind the levels, for a value of one or two numbers.
  abbrev looped_data : Bool → ResultShapeData
  looped_data b =
      let dims = reverse secondary ++ (if b then 2 ∷ [] else []) in
      fixed_data name dtype (fixed_state (array_length array ∷ dims) (1 + length dims))

  converted :
      (b : Bool)
      → (if not b
          then ok (looped_data b)
          else to_complex (looped_data b) (looped_data b).shape (looped_data b).row_shapes)
        ≡ ok whole_data
  unfolding to_complex drop_pairs
  converted false =
      let n = array_length array in
      let dims = reverse secondary ++ [] in
      let ndim : 1 + length dims ≡ length (secondary ++ n ∷ []) = omega (
        arith,
        ap length (append-nil (reverse secondary)),
        length-reverse secondary,
        length-append secondary (n ∷ []),
      ) in
      ap₂
        (λ s d. ok (record {
          column_name = name;
          shape = some s;
          ndim = d;
          dtype = dtype;
          row_shapes = none;
        }))
        (reversed n secondary []) ndim
  converted true =
      let n = array_length array in
      ap
        (λ s. drop_pairs s >>= λ c. ok (record {
          column_name = name;
          shape = some c;
          ndim = length c;
          dtype = dtype;
          row_shapes = none;
        }))
        (reversed n secondary (2 ∷ []))

  -- The shape data of nested lists of fixed size have the sizes in reverse.
  get_result_shape_data-nest : get_result_shape_data name dtype (some array) ≡ ok whole_data
  unfolding get_result_shape_data get_arrow_result_shape_data arrow_shape_of
  get_result_shape_data-nest =
      let n = array_length array in
      let dims = reverse secondary ++ pair_dims dtype in
      let convert = λ (s : ResultShapeData).
        if not (is_complex dtype) then ok s else to_complex s s.shape s.row_shapes in
      let looped = shape_loop-IsNestOf array dims (start_state n) uniform refl in
      ap (λ r. r >>= arrow_shape_of name dtype array >>= convert) looped
      ∙ converted (is_complex dtype)

-- A fixed result is its fields.
IsFixedResult-fields :
    (n : ℕ) (r : ResultShapeData) (fixed : IsFixedResult n r)
    → fixed_fields r.column_name r.dtype (fixed.secondary ++ n ∷ []) ≡ r
IsFixedResult-fields n r fixed = ground (arith, fixed.whole_shape, fixed.dimensions, fixed.no_rows)

module _ {V : Type 0} (arrow : ArrayMaker V) (config : KvMap) (r : ResultShapeData) (n : ℕ) where
  nest_levels-fixed :
      (fixed : IsFixedResult n r) (values : ArrowArray V)
      → nest_levels arrow fixed_lists r values ≡ nest_fixed arrow fixed.secondary values
  unfolding nest_levels is_fixed
  nest_levels-fixed fixed values =
      let before : length fixed.secondary + 1 - 1 ≡ length fixed.secondary = omega arith in
      rw (fixed.whole_shape, fixed.dimensions, length-append fixed.secondary (n ∷ []))
        (ap (λ k. nest_fixed arrow (take k (fixed.secondary ++ n ∷ [])) values) before
          ∙ ap (λ d. nest_fixed arrow d values) (take-length-append fixed.secondary (n ∷ [])))

  -- With lists of fixed size, MakeArray makes of the values of a fixed result with no empty
  -- secondary dimension an array of its rows over the buffer, from which GetResultShapeData reads the shape of the
  -- result back, for complex values too. The values are no strings, they can be counted by a
  -- size_t, and FromArrays makes the lists.
  pub make_array-get_result_shape_data :
      (buffer : Buffer V) (t : ArrowType) (fixed : IsFixedResult n r)
      → MakesLists arrow
      → get_convert_strategy config ≡ ok fixed_lists
      → arrow_data_type r.dtype ≡ ok t
      → is_string r.dtype ≡ false
      → is_primitive_type arrow.is_numeric r.dtype ≡ true
      → IsProper fixed.secondary
      → product (fixed.secondary ++ n ∷ []) < size_mod
      → (array : ArrowArray V) × (make_array arrow config r buffer ≡ ok array)
        × (get_result_shape_data r.column_name r.dtype (some array) ≡ ok r)
        × (array_length array ≡ n)
        × (contents array ≡ some buffer)
  unfolding make_array
  make_array-get_result_shape_data buffer t fixed law strategy typed no_string primitive proper
        small =
      let shape = fixed.secondary ++ n ∷ [] in
      let elements : n_elements r ≡ n * product fixed.secondary =
        n_elements-product r shape fixed.whole_shape small ∙ product-append_one fixed.secondary n in
      let (values, made, inner, count, held) =
        make_values-IsNestOf arrow law r.dtype t typed no_string primitive (n_elements r) buffer in
      let (array, nested', uniform, rows, same) =
        nest_fixed-IsNestOf arrow law fixed.secondary (pair_dims r.dtype) values n proper inner
          (count ∙ elements) in
      (
        array,
        ap
              (λ t. t >>= λ dtype. get_convert_strategy config >>= λ s.
                make_values arrow s r.dtype dtype (n_elements r) buffer >>= nest_levels arrow s r)
              typed
            ∙ ap
                (λ s. s >>= λ s.
                  make_values arrow s r.dtype t (n_elements r) buffer >>= nest_levels arrow s r)
                strategy
            ∙ ap (λ v. v >>= nest_levels arrow fixed_lists r) made
            ∙ nest_levels-fixed fixed values
            ∙ nested',
        get_result_shape_data-nest r.column_name r.dtype array fixed.secondary uniform
            ∙ ap (λ k. ok (fields_of k)) rows
            ∙ ap ok (IsFixedResult-fields n r fixed),
        rows,
        same ∙ held,
      )
    where
      fields_of : ℕ → ResultShapeData
      fields_of k = fixed_fields r.column_name r.dtype (fixed.secondary ++ k ∷ [])
