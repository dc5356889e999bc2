-- ===== src/DataType.antt =====
-- `enum canmat_data_type`, which canmatc generates from `[enum:data_type]` of eds/dsp301.eds, and
-- the switch over it that src/sdo.c writes twice.

pub data DataType : Type 0 where
  boolean integer8 integer16 integer32 unsigned8 unsigned16 unsigned32 real32 : DataType
  visible_string octet_string unicode_string time_of_day time_difference domain int24 : DataType
  real64 integer40 integer48 integer56 integer64 uint24 unsigned40 unsigned48 unsigned56 : DataType
  unsigned64 pdo_com pdo_map sdo_parm identity void unknown : DataType

-- The cases of `switch( src->data_type )` in `canmat_sdo2can`, which are those of
-- `switch( dst->data_type )` in `canmat_can2sdo`: how many bytes of data a type has, or `unsupported`
-- for `default`.
pub data Size : Type 0 where
  four two one zero_bytes unsupported : Size

unfoldable pub size_case : DataType → Size
size_case real32 = four
size_case unsigned32 = four
size_case integer32 = four
size_case unsigned16 = two
size_case integer16 = two
size_case unsigned8 = one
size_case integer8 = one
size_case void = zero_bytes
size_case _ = unsupported
