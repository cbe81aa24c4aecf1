-- ===== src/Ipc/Types.antt =====
-- ipc++/include/MgKdbType.H: sizes on the wire, type codes and results.
use mgkdb.Prelude.{ℕ, ◌+◌}

abbrev pub sz_byte : ℕ
sz_byte = 1

abbrev pub sz_short : ℕ
sz_short = 2

abbrev pub sz_int : ℕ
sz_int = 4

abbrev pub sz_long : ℕ
sz_long = 8

abbrev pub sz_guid : ℕ
sz_guid = 16

abbrev pub sz_vec_meta : ℕ
sz_vec_meta = 5

abbrev pub sz_vec_hdr : ℕ
sz_vec_hdr = sz_byte + sz_vec_meta

abbrev pub sz_msg_hdr : ℕ
sz_msg_hdr = 8

pub data KdbType : Type 0 where
  exception time_atom second_atom minute_atom timespan_atom datetime_atom date_atom : KdbType
  month_atom timestamp_atom symbol_atom char_atom float_atom real_atom long_atom : KdbType
  int_atom short_atom byte_atom guid_atom bool_atom list bool_vector guid_vector : KdbType
  byte_vector short_vector int_vector long_vector real_vector float_vector : KdbType
  char_vector symbol_vector timestamp_vector month_vector date_vector : KdbType
  datetime_vector timespan_vector minute_vector second_vector time_vector table : KdbType
  dict function unary_primitive binary_primitive ternary_primitive projection : KdbType
  step_dict : KdbType

-- `static_cast<int8_t>(typ)`, as the byte that stands for it: -n is 256 - n.
abbrev pub i8typ : KdbType → ℕ
i8typ exception = 128
i8typ time_atom = 237
i8typ second_atom = 238
i8typ minute_atom = 239
i8typ timespan_atom = 240
i8typ datetime_atom = 241
i8typ date_atom = 242
i8typ month_atom = 243
i8typ timestamp_atom = 244
i8typ symbol_atom = 245
i8typ char_atom = 246
i8typ float_atom = 247
i8typ real_atom = 248
i8typ long_atom = 249
i8typ int_atom = 250
i8typ short_atom = 251
i8typ byte_atom = 252
i8typ guid_atom = 254
i8typ bool_atom = 255
i8typ list = 0
i8typ bool_vector = 1
i8typ guid_vector = 2
i8typ byte_vector = 4
i8typ short_vector = 5
i8typ int_vector = 6
i8typ long_vector = 7
i8typ real_vector = 8
i8typ float_vector = 9
i8typ char_vector = 10
i8typ symbol_vector = 11
i8typ timestamp_vector = 12
i8typ month_vector = 13
i8typ date_vector = 14
i8typ datetime_vector = 15
i8typ timespan_vector = 16
i8typ minute_vector = 17
i8typ second_vector = 18
i8typ time_vector = 19
i8typ table = 98
i8typ dict = 99
i8typ function = 100
i8typ unary_primitive = 101
i8typ binary_primitive = 102
i8typ ternary_primitive = 103
i8typ projection = 104
i8typ step_dict = 127

-- What the elements of the fixed-width atoms and vectors are.
pub data Elem : Type 0 where
  time second minute timespan date month timestamp char : Elem
  float real long int short byte guid bool : Elem

-- The `m_typ` of the class for an atom of these elements.
abbrev pub atom_type : Elem → KdbType
atom_type time = time_atom
atom_type second = second_atom
atom_type minute = minute_atom
atom_type timespan = timespan_atom
atom_type date = date_atom
atom_type month = month_atom
atom_type timestamp = timestamp_atom
atom_type char = char_atom
atom_type float = float_atom
atom_type real = real_atom
atom_type long = long_atom
atom_type int = int_atom
atom_type short = short_atom
atom_type byte = byte_atom
atom_type guid = guid_atom
atom_type bool = bool_atom

-- The `m_typ` of the class for a vector of these elements.
abbrev pub vector_type : Elem → KdbType
vector_type time = time_vector
vector_type second = second_vector
vector_type minute = minute_vector
vector_type timespan = timespan_vector
vector_type date = date_vector
vector_type month = month_vector
vector_type timestamp = timestamp_vector
vector_type char = char_vector
vector_type float = float_vector
vector_type real = real_vector
vector_type long = long_vector
vector_type int = int_vector
vector_type short = short_vector
vector_type byte = byte_vector
vector_type guid = guid_vector
vector_type bool = bool_vector

-- `sizeof(m_val)` of the atom's class: it is also the size of an element of the vector's class.
abbrev pub elem_size : Elem → ℕ
elem_size time = 4
elem_size second = 4
elem_size minute = 4
elem_size timespan = 8
elem_size date = 4
elem_size month = 4
elem_size timestamp = 8
elem_size char = 1
elem_size float = 8
elem_size real = 4
elem_size long = 8
elem_size int = 4
elem_size short = 2
elem_size byte = 1
elem_size guid = 16
elem_size bool = 1

-- The classes derived from `KdbPrimitive`.
pub data Primitive : Type 0 where
  unary binary ternary : Primitive

abbrev pub primitive_type : Primitive → KdbType
primitive_type unary = unary_primitive
primitive_type binary = binary_primitive
primitive_type ternary = ternary_primitive

pub data WriteResult : Type 0 where
  wr_ok wr_incomplete : WriteResult
