-- ===== src/Dict.antt =====
-- The object dictionary (include/socanmatic/dict.h, src/dict.c): the description of an object and
-- its size. The descriptors that serve printing are in Dict.Print, and `parameter_name` is its
-- bytes.
pub mod Transfer
pub mod Typed
pub mod Parse
pub mod Search
pub mod Print
use socanmatic.Base.{ℕ, List}
use socanmatic.Base.Int.{ℤ, pos, negsuc}
use socanmatic.DataType.{
  DataType, integer8, unsigned8, integer16, unsigned16, integer32, unsigned32,
}

-- `canmat_obj_t`
pub record Obj : Type 0 where
  pub index : ℕ
  pub subindex : ℕ
  pub parameter_name : List ℕ
  pub sub_number : ℕ
  pub access_type : ℕ
  pub object_type : ℕ
  pub data_type : DataType
  pub pdo_mapping : ℕ

type_bitsize : DataType → ℤ
type_bitsize integer8 = pos 8
type_bitsize unsigned8 = pos 8
type_bitsize integer16 = pos 16
type_bitsize unsigned16 = pos 16
type_bitsize integer32 = pos 32
type_bitsize unsigned32 = pos 32
type_bitsize _ = negsuc 0

-- `canmat_obj_bitsize`
unfoldable pub obj_bitsize : Obj → ℤ
unfolding type_bitsize
obj_bitsize obj = type_bitsize obj.data_type
