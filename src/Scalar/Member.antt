-- ===== src/Scalar/Member.antt =====
-- The members of `union canmat_scalar` for which the library instantiates its typed functions
-- (`CANMAT_SDO_TYPE_FUN` in include/socanmatic/sdo.h, `CANMAT_OBJ_TYPE_FUN` in
-- include/socanmatic/dict_fun.h), with the data type of each.
use socanmatic.Base.{ℕ, ◌%◌, ◌^◌, ◌≡◌}
use socanmatic.DataType.{DataType}
use socanmatic.Scalar
use socanmatic.Scalar.{Scalar}
use socanmatic.Scalar.Laws.{u8-set_u8, u16-set_u16, u32-set_u32}

pub data Member : Type 0 where
  u8 u16 u32 i8 i16 i32 : Member

unfoldable pub type_of : Member → DataType
type_of u8 = DataType.unsigned8
type_of u16 = DataType.unsigned16
type_of u32 = DataType.unsigned32
type_of i8 = DataType.integer8
type_of i16 = DataType.integer16
type_of i32 = DataType.integer32

-- The number of values of a member's C type.
abbrev pub modulus : Member → ℕ
modulus u8 = 2 ^ 8
modulus u16 = 2 ^ 16
modulus u32 = 2 ^ 32
modulus i8 = 2 ^ 8
modulus i16 = 2 ^ 16
modulus i32 = 2 ^ 32

unfoldable pub read : Member → Scalar → ℕ
read u8 s = Scalar.u8 s
read u16 s = Scalar.u16 s
read u32 s = Scalar.u32 s
read i8 s = Scalar.u8 s
read i16 s = Scalar.u16 s
read i32 s = Scalar.u32 s

unfoldable pub write : Member → Scalar → ℕ → Scalar
write u8 s v = Scalar.set_u8 s v
write u16 s v = Scalar.set_u16 s v
write u32 s v = Scalar.set_u32 s v
write i8 s v = Scalar.set_u8 s v
write i16 s v = Scalar.set_u16 s v
write i32 s v = Scalar.set_u32 s v

-- Reading a member gives the value that was written to it, at its width.
pub read-write : (m : Member) (s : Scalar) (v : ℕ) → read m (write m s v) ≡ v % modulus m
unfolding read write
read-write u8 s v = u8-set_u8 s v
read-write u16 s v = u16-set_u16 s v
read-write u32 s v = u32-set_u32 s v
read-write i8 s v = u8-set_u8 s v
read-write i16 s v = u16-set_u16 s v
read-write i32 s v = u32-set_u32 s v
