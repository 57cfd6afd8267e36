-- ===== src/Arrow.antt =====
-- The Arrow arrays that cpp/arcae/result_shape.cc, read_impl.cc and write_impl.cc take apart and
-- make. Arrow itself is not part of the program: the types here hold what the program asks of an
-- array, and the functions of Arrow that make arrays are arguments where they are called.
use casa_arrow.Base.{ℕ, Bool, true, false, Option, List}
use casa_arrow.Base.Int.{ℤ}
use casa_arrow.CasaType.{ArrowType, unsupported}

-- ListArray, LargeListArray and FixedSizeListArray
pub data ListKind : Type 0 where
  list large_list fixed_size_list : ListKind

abbrev pub is_fixed_size : ListKind → Bool
is_fixed_size fixed_size_list = true
is_fixed_size _ = false

-- What is asked of a list array beside its values: the methods null_count, length, value_length and
-- value_offset, and the null_count of its ArrayData, which is negative where it is not known.
pub record ListView : Type 0 where
  pub null_count : ℕ
  pub known_nulls : ℤ
  pub list_length : ℕ
  pub value_length : ℕ → ℕ
  pub value_offset : ℕ → ℕ

-- A buffer of `n_bytes` bytes, with the values that it holds.
pub record Buffer (V : Type 0) : Type 0 where
  pub n_bytes : ℕ
  pub values : List V

-- An array of a type that is no list: its length and its buffer of values, if it has one.
pub record FlatArray (V : Type 0) : Type 0 where
  pub arrow_type : ArrowType
  pub n_values : ℕ
  pub buffer : Option (Buffer V)

pub data ArrowArray (V : Type 0) : Type 0 where
  flat : FlatArray V → ArrowArray V
  nested : ListKind → ListView → ArrowArray V → ArrowArray V

-- Array::length
abbrev pub array_length : {V : Type 0} → ArrowArray V → ℕ
array_length (flat a) = a.n_values
array_length (nested kind view values) = view.list_length

-- The types of values that the shape of an array is derived for, and that an array is flattened to.
unfoldable pub is_value_type : ArrowType → Bool
is_value_type unsupported = false
is_value_type _ = true

-- The buffer behind all lists.
abbrev pub contents : {V : Type 0} → ArrowArray V → Option (Buffer V)
contents (flat a) = a.buffer
contents (nested kind view values) = contents values
