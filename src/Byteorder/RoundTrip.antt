-- ===== src/Byteorder/RoundTrip.antt =====
-- Loads and stores of include/socanmatic/byteorder.h undo each other.
use socanmatic.Base.{ℕ, ◌+◌, ◌*◌, ◌%◌, ◌^◌, ◌<◌, ◌≡◌, arith, bit_or_low_high}
use socanmatic.Byteorder.{Bytes2, Bytes4, stle32, stle16, ldle32, ldle16}

abbrev pub AreBytes2 : Bytes2 → Type 0
AreBytes2 q = (q.q0 < 256) × (q.q1 < 256)

abbrev pub AreBytes4 : Bytes4 → Type 0
AreBytes4 q = (q.q0 < 256) × (q.q1 < 256) × (q.q2 < 256) × (q.q3 < 256)

pub stle32-AreBytes4 : (u : ℕ) → AreBytes4 (stle32 u)
unfolding stle32
stle32-AreBytes4 u = omega arith

pub stle16-AreBytes2 : (u : ℕ) → AreBytes2 (stle16 u)
unfolding stle16
stle16-AreBytes2 u = omega arith

byte_shift : (k b n : ℕ) → b * k < n → b * k % n ≡ b * k
byte_shift k b n h = grind arith

-- A load is the base-256 number that its bytes spell, lowest first.
pub ldle16-eq_sum : (q : Bytes2) → AreBytes2 q → ldle16 q ≡ q.q0 + q.q1 * 2 ^ 8
unfolding ldle16
ldle16-eq_sum q h =
    rw (byte_shift (2 ^ 8) q.q1 (2 ^ 16) (omega arith), bit_or_low_high 8 q.q0 q.q1 (omega arith))

pub ldle32-eq_sum :
    (q : Bytes4) → AreBytes4 q → ldle32 q ≡ q.q0 + q.q1 * 2 ^ 8 + q.q2 * 2 ^ 16 + q.q3 * 2 ^ 24
unfolding ldle32
ldle32-eq_sum q h = rw (
  byte_shift (2 ^ 8) q.q1 (2 ^ 32) (omega arith),
  byte_shift (2 ^ 16) q.q2 (2 ^ 32) (omega arith),
  byte_shift (2 ^ 24) q.q3 (2 ^ 32) (omega arith),
  bit_or_low_high 8 q.q0 q.q1 (omega arith),
  bit_or_low_high 16 (q.q0 + q.q1 * 2 ^ 8) q.q2 (omega arith),
  bit_or_low_high 24 (q.q0 + q.q1 * 2 ^ 8 + q.q2 * 2 ^ 16) q.q3 (omega arith),
)

-- For every number below 2^32 and every number below 2^16, the load of what the store wrote gives
-- the number back.
pub ldle-stle :
    (u v : ℕ) → u < 2 ^ 32 → v < 2 ^ 16 → (ldle32 (stle32 u) ≡ u) × (ldle16 (stle16 v) ≡ v)
unfolding stle32 stle16
ldle-stle u v h h' = (
  omega (arith, ldle32-eq_sum (stle32 u) (stle32-AreBytes4 u)),
  omega (arith, ldle16-eq_sum (stle16 v) (stle16-AreBytes2 v)),
)

-- Storing what was loaded gives the bytes back, for two and for four bytes.
pub stle-ldle :
    (p : Bytes2) (q : Bytes4)
    → AreBytes2 p
    → AreBytes4 q
    → (stle16 (ldle16 p) ≡ p) × (stle32 (ldle32 q) ≡ q)
unfolding stle32 stle16
stle-ldle p q h h' = (rw (ldle16-eq_sum p h) (ground arith), rw (ldle32-eq_sum q h') (ground arith))
