-- ===== src/CasaType.antt =====
-- cpp/arcae/type_traits.h, cpp/arcae/type_traits.cc and cpp/arcae/table_utils.cc: the data types of
-- casacore and the Arrow types that stand for them.
use casa_arrow.Base.{ℕ, Bool, true, false, ◌||◌, ◌==◌, Result, ok, err, not_implemented, type_error}

-- casacore::DataType; `tp_other` is every type that the program does not handle.
pub data CasaType : Type 0 where
  tp_bool tp_char tp_uchar tp_short tp_ushort tp_int tp_uint tp_int64 : CasaType
  tp_float tp_double tp_complex tp_dcomplex tp_string tp_other : CasaType

-- The Arrow types that the traits name, those that the arrays of a write may have beside them, and
-- `unsupported` for every other type that is no list.
pub data ArrowType : Type 0 where
  int8 uint8 int16 uint16 int32 uint32 int64 float32 float64 utf8 : ArrowType
  boolean uint64 unsupported : ArrowType

-- sizeof the CasaType of the traits; that of casacore::String is a parameter.
unfoldable pub casa_data_type_size : ℕ → CasaType → Result ℕ
casa_data_type_size string_size tp_bool = ok 1
casa_data_type_size string_size tp_char = ok 1
casa_data_type_size string_size tp_uchar = ok 1
casa_data_type_size string_size tp_short = ok 2
casa_data_type_size string_size tp_ushort = ok 2
casa_data_type_size string_size tp_int = ok 4
casa_data_type_size string_size tp_uint = ok 4
casa_data_type_size string_size tp_int64 = ok 8
casa_data_type_size string_size tp_float = ok 4
casa_data_type_size string_size tp_double = ok 8
casa_data_type_size string_size tp_complex = ok 8
casa_data_type_size string_size tp_dcomplex = ok 16
casa_data_type_size string_size tp_string = ok string_size
casa_data_type_size string_size tp_other = err not_implemented

unfoldable pub arrow_data_type : CasaType → Result ArrowType
arrow_data_type tp_bool = ok uint8
arrow_data_type tp_char = ok int8
arrow_data_type tp_uchar = ok uint8
arrow_data_type tp_short = ok int16
arrow_data_type tp_ushort = ok uint16
arrow_data_type tp_int = ok int32
arrow_data_type tp_uint = ok uint32
arrow_data_type tp_int64 = ok int64
arrow_data_type tp_float = ok float32
arrow_data_type tp_double = ok float64
arrow_data_type tp_complex = ok float32
arrow_data_type tp_dcomplex = ok float64
arrow_data_type tp_string = ok utf8
arrow_data_type tp_other = err type_error

-- is_complex of the traits
unfoldable pub is_complex : CasaType → Bool
is_complex tp_complex = true
is_complex tp_dcomplex = true
is_complex _ = false

abbrev is_bool : CasaType → Bool
is_bool tp_bool = true
is_bool _ = false

abbrev pub is_string : CasaType → Bool
is_string tp_string = true
is_string _ = false

abbrev is_int64 : CasaType → Bool
is_int64 tp_int64 = true
is_int64 _ = false

-- The test of IsPrimitiveType, over casacore's isNumeric, which is a parameter.
unfoldable pub is_primitive_type : (CasaType → Bool) → CasaType → Bool
is_primitive_type is_numeric data_type =
    is_numeric data_type || is_bool data_type || is_int64 data_type

-- A number for each Arrow type, and DataType::Equals.
abbrev type_id : ArrowType → ℕ
type_id int8 = 0
type_id uint8 = 1
type_id int16 = 2
type_id uint16 = 3
type_id int32 = 4
type_id uint32 = 5
type_id int64 = 6
type_id float32 = 7
type_id float64 = 8
type_id utf8 = 9
type_id boolean = 10
type_id uint64 = 11
type_id unsupported = 12

abbrev pub same_type : ArrowType → ArrowType → Bool
same_type a b = type_id a == type_id b
