-- ===== src/Scalar.antt =====
-- `union canmat_scalar` (include/socanmatic/dict.h) on a little-endian host: four bytes, which
-- each member reads and writes as a number, lowest byte first. A signed member is its two's
-- complement pattern, the number that the unsigned member of its width reads.
pub mod Laws
pub mod Wire
pub mod Member
use socanmatic.Base.{ℕ, ◌+◌, ◌*◌, ◌/◌, ◌%◌, ◌^◌, ◌<◌}

pub record Scalar : Type 0 where
  pub byte0 : ℕ
  pub byte1 : ℕ
  pub byte2 : ℕ
  pub byte3 : ℕ

abbrev pub IsScalar : Scalar → Type 0
IsScalar s = (s.byte0 < 256) × (s.byte1 < 256) × (s.byte2 < 256) × (s.byte3 < 256)

abbrev pub zero_scalar : Scalar
zero_scalar = record { byte0 = 0; byte1 = 0; byte2 = 0; byte3 = 0 }

unfoldable pub u8 : Scalar → ℕ
u8 s = s.byte0

unfoldable pub u16 : Scalar → ℕ
u16 s = s.byte0 + s.byte1 * 2 ^ 8

unfoldable pub u32 : Scalar → ℕ
u32 s = s.byte0 + s.byte1 * 2 ^ 8 + s.byte2 * 2 ^ 16 + s.byte3 * 2 ^ 24

-- A store to a member leaves the bytes above it alone.
unfoldable pub set_u8 : Scalar → ℕ → Scalar
set_u8 s v = record s { byte0 = v % 2 ^ 8 }

unfoldable pub set_u16 : Scalar → ℕ → Scalar
set_u16 s v = record s { byte0 = v % 2 ^ 8; byte1 = v / 2 ^ 8 % 2 ^ 8 }

unfoldable pub set_u32 : Scalar → ℕ → Scalar
set_u32 s v = record {
  byte0 = v % 2 ^ 8;
  byte1 = v / 2 ^ 8 % 2 ^ 8;
  byte2 = v / 2 ^ 16 % 2 ^ 8;
  byte3 = v / 2 ^ 24 % 2 ^ 8;
}
