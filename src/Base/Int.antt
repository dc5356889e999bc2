-- ===== src/Base/Int.antt =====
-- C's `int` as a mathematical integer: `negsuc n` is -(n + 1).
use socanmatic.Base.Tests.{ltb, leb, ◌==◌, if◌then◌else◌}
use Prim.Native.Nat.{ℕ, ◌-◌, ◌%◌, ◌^◌}
use mathlib.Core.Bool.{Bool, true, false}

pub data ℤ : Type 0 where
  pos : ℕ → ℤ
  negsuc : ℕ → ℤ

-- `x > n` and `x >= 0`
abbrev pub exceeds : ℤ → ℕ → Bool
exceeds (pos x) n = ltb n x
exceeds (negsuc x) n = false

abbrev pub is_nonneg : ℤ → Bool
is_nonneg (pos x) = true
is_nonneg (negsuc x) = false

-- The conversion to an unsigned type of `w` bits.
abbrev pub to_unsigned : ℕ → ℤ → ℕ
to_unsigned w (pos x) = x % 2 ^ w
to_unsigned w (negsuc x) = (2 ^ w - 1 - x % 2 ^ w) % 2 ^ w

-- The conversion of `w` bits to a signed type, and `x == y`.
abbrev pub to_signed : ℕ → ℕ → ℤ
to_signed w x = if ltb x (2 ^ (w - 1)) then pos x else negsuc (2 ^ w - 1 - x)

abbrev pub same_int : ℤ → ℤ → Bool
same_int (pos x) (pos y) = x == y
same_int (pos x) (negsuc y) = false
same_int (negsuc x) (pos y) = false
same_int (negsuc x) (negsuc y) = x == y

-- `x <= y`
abbrev pub le_int : ℤ → ℤ → Bool
le_int (pos x) (pos y) = leb x y
le_int (pos x) (negsuc y) = false
le_int (negsuc x) (pos y) = true
le_int (negsuc x) (negsuc y) = leb y x
