-- ===== src/Byteorder.antt =====
-- Little-endian loads and stores (include/socanmatic/byteorder.h). A store returns the bytes that
-- it writes at `p`, `p + 1`, …, and a load takes them.
pub mod RoundTrip
mod Tests
use socanmatic.Base.{ℕ, ◌*◌, ◌/◌, ◌%◌, ◌^◌, bit_or}

pub record Bytes2 : Type 0 where
  pub q0 : ℕ
  pub q1 : ℕ

pub record Bytes4 : Type 0 where
  pub q0 : ℕ
  pub q1 : ℕ
  pub q2 : ℕ
  pub q3 : ℕ

unfoldable pub stle32 : ℕ → Bytes4
stle32 u = record {
  q0 = u % 2 ^ 8;
  q1 = u / 2 ^ 8 % 2 ^ 8;
  q2 = u / 2 ^ 16 % 2 ^ 8;
  q3 = u / 2 ^ 24 % 2 ^ 8;
}

unfoldable pub stle16 : ℕ → Bytes2
stle16 u = record { q0 = u % 2 ^ 8; q1 = u / 2 ^ 8 % 2 ^ 8 }

unfoldable pub stle8 : ℕ → ℕ
stle8 u = u % 2 ^ 8

-- Each shifted byte is cast to `uint32_t`.
unfoldable pub ldle32 : Bytes4 → ℕ
ldle32 q =
    bit_or (bit_or (bit_or q.q0 (q.q1 * 2 ^ 8 % 2 ^ 32)) (q.q2 * 2 ^ 16 % 2 ^ 32))
      (q.q3 * 2 ^ 24 % 2 ^ 32)

-- The second byte is cast to `uint16_t` after its shift.
unfoldable pub ldle16 : Bytes2 → ℕ
ldle16 q = bit_or q.q0 (q.q1 * 2 ^ 8 % 2 ^ 16)

unfoldable pub ldle8 : ℕ → ℕ
ldle8 q = q
