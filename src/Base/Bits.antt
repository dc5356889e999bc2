-- ===== src/Base/Bits.antt =====
-- Facts about C's `|` and `&` at variables. Both work on the high and the low digits of their
-- arguments apart, so that on disjoint fields `|` is a sum and a mask of ones keeps a field.
mod Step
use Step.{bit_or_step, bit_and_step, bit_and-zero, zero-bit_and}
pub use Step.{zero-bit_or, bit_or-zero}
use Prim.Native.Nat.{ℕ, zero, suc, ◌+◌, ◌-◌, ◌*◌, ◌/◌, ◌%◌, ◌^◌, ◌<◌, bit_and, bit_or}
use mathlib.Core.Path.{◌≡◌, ap}
use native.Mathlib.Nat.{pow-suc, one-le-pow}
use native.Mathlib.Omega.{arith}

times_two_pow : (q k : ℕ) → q * 2 ^ suc k ≡ q * 2 ^ k * 2
times_two_pow q k = omega (arith, ap (λ (t : ℕ). q * t) (pow-suc 2 k))

lone : (q : ℕ) → q * 2 ^ 0 + 0 ≡ q
lone q = omega arith

pub bit_or_split :
    (k q r p s : ℕ)
    → r < 2 ^ k
    → s < 2 ^ k
    → bit_or (q * 2 ^ k + r) (p * 2 ^ k + s) ≡ bit_or q p * 2 ^ k + bit_or r s
bit_or_split zero q zero p zero h h' = rw (lone q, lone p) (omega arith)
bit_or_split zero q zero p (suc s) h h' = absurd (omega arith)
bit_or_split zero q (suc r) p s h h' = absurd (omega arith)
bit_or_split (suc k) q r p s h h' = ground (
  arith,
  bit_or_step (q * 2 ^ suc k + r) (p * 2 ^ suc k + s),
  bit_or_step r s,
  times_two_pow q k,
  times_two_pow p k,
  times_two_pow (bit_or q p) k,
  pow-suc 2 k,
  bit_or_split k q (r / 2) p (s / 2) (omega (arith, pow-suc 2 k)) (omega (arith, pow-suc 2 k)),
)

pub bit_and_split :
    (k q r p s : ℕ)
    → r < 2 ^ k
    → s < 2 ^ k
    → bit_and (q * 2 ^ k + r) (p * 2 ^ k + s) ≡ bit_and q p * 2 ^ k + bit_and r s
bit_and_split zero q zero p zero h h' = rw (lone q, lone p) (omega arith)
bit_and_split zero q zero p (suc s) h h' = absurd (omega arith)
bit_and_split zero q (suc r) p s h h' = absurd (omega arith)
bit_and_split (suc k) q r p s h h' = ground (
  arith,
  bit_and_step (q * 2 ^ suc k + r) (p * 2 ^ suc k + s),
  bit_and_step r s,
  times_two_pow q k,
  times_two_pow p k,
  times_two_pow (bit_and q p) k,
  pow-suc 2 k,
  bit_and_split k q (r / 2) p (s / 2) (omega (arith, pow-suc 2 k)) (omega (arith, pow-suc 2 k)),
)

-- `(q << k) | r` is `q * 2^k + r` where `r` has `k` bits.
pub bit_or_disjoint : (k q r : ℕ) → r < 2 ^ k → bit_or (q * 2 ^ k) r ≡ q * 2 ^ k + r
bit_or_disjoint k q r h =
    ground
      (arith, bit_or_split k q 0 0 r (one-le-pow k 2 (omega arith)) h, bit_or-zero q, zero-bit_or r)

-- The same with the low field first, `r | (q << k)`.
pub bit_or_low_high : (k r q : ℕ) → r < 2 ^ k → bit_or r (q * 2 ^ k) ≡ r + q * 2 ^ k
bit_or_low_high k r q h =
    ground
      (arith, bit_or_split k 0 r q 0 h (one-le-pow k 2 (omega arith)), bit_or-zero r, zero-bit_or q)

-- A mask with `k` low zeros works on the number shifted right by `k`.
pub bit_and_high : (k a m : ℕ) → bit_and a (m * 2 ^ k) ≡ bit_and (a / 2 ^ k) m * 2 ^ k
bit_and_high k a m =
    ground
      (arith, one-le-pow k 2, bit_and_split k (a / 2 ^ k) (a % 2 ^ k) m 0, bit_and-zero (a % 2 ^ k))

low_ones : (k r : ℕ) → r < 2 ^ k → bit_and r (2 ^ k - 1) ≡ r
low_ones zero r h = omega (arith, bit_and-zero r)
low_ones (suc k) r h = ground (
  arith,
  bit_and_step r (2 ^ suc k - 1),
  pow-suc 2 k,
  one-le-pow k 2,
  low_ones k (r / 2) (omega (arith, pow-suc 2 k)),
)

-- A mask of `k` low ones is the remainder by `2^k`.
pub bit_and_low : (k a : ℕ) → bit_and a (2 ^ k - 1) ≡ a % 2 ^ k
bit_and_low k a = ground (
  arith,
  one-le-pow k 2,
  bit_and_split k (a / 2 ^ k) (a % 2 ^ k) 0 (2 ^ k - 1),
  bit_and-zero (a / 2 ^ k),
  low_ones k (a % 2 ^ k),
)

-- A mask below `2 ^ k` reads only the low `k` bits.
pub bit_and_mod : (k a m : ℕ) → m < 2 ^ k → bit_and a m ≡ bit_and (a % 2 ^ k) m
bit_and_mod k a m h =
    ground
      (arith, one-le-pow k 2, bit_and_split k (a / 2 ^ k) (a % 2 ^ k) 0 m, bit_and-zero (a / 2 ^ k))

bit_or_bound : (k r s : ℕ) → r < 2 ^ k → s < 2 ^ k → bit_or r s < 2 ^ k
bit_or_bound zero zero zero h h' = omega arith
bit_or_bound zero zero (suc s) h h' = absurd (omega arith)
bit_or_bound zero (suc r) s h h' = absurd (omega arith)
bit_or_bound (suc k) r s h h' = omega (
  arith,
  bit_or_step r s,
  pow-suc 2 k,
  bit_or_bound k (r / 2) (s / 2) (omega (arith, pow-suc 2 k)) (omega (arith, pow-suc 2 k)),
)

bit_and_bound : (k r s : ℕ) → r < 2 ^ k → s < 2 ^ k → bit_and r s < 2 ^ k
bit_and_bound zero zero zero h h' = omega arith
bit_and_bound zero zero (suc s) h h' = absurd (omega arith)
bit_and_bound zero (suc r) s h h' = absurd (omega arith)
bit_and_bound (suc k) r s h h' = omega (
  arith,
  bit_and_step r s,
  pow-suc 2 k,
  bit_and_bound k (r / 2) (s / 2) (omega (arith, pow-suc 2 k)) (omega (arith, pow-suc 2 k)),
)

mod_of_split : (k x q r : ℕ) → x ≡ q * 2 ^ k + r → r < 2 ^ k → x % 2 ^ k ≡ r
mod_of_split k x q r e h = grind (arith, e, one-le-pow k 2)

-- The low `k` bits of `|` and of `&` are those of the low `k` bits.
pub mod-bit_or : (k a b : ℕ) → bit_or a b % 2 ^ k ≡ bit_or (a % 2 ^ k) (b % 2 ^ k)
mod-bit_or k a b =
    let low : (x : ℕ) → x % 2 ^ k < 2 ^ k = λ x. grind (arith, one-le-pow k 2) in
    mod_of_split k (bit_or a b) (bit_or (a / 2 ^ k) (b / 2 ^ k)) (bit_or (a % 2 ^ k) (b % 2 ^ k))
      (ground
        (arith, one-le-pow k 2, bit_or_split k (a / 2 ^ k) (a % 2 ^ k) (b / 2 ^ k) (b % 2 ^ k)))
      (bit_or_bound k (a % 2 ^ k) (b % 2 ^ k) (low a) (low b))

pub mod-bit_and : (k a b : ℕ) → bit_and a b % 2 ^ k ≡ bit_and (a % 2 ^ k) (b % 2 ^ k)
mod-bit_and k a b =
    let low : (x : ℕ) → x % 2 ^ k < 2 ^ k = λ x. grind (arith, one-le-pow k 2) in
    mod_of_split k (bit_and a b) (bit_and (a / 2 ^ k) (b / 2 ^ k)) (bit_and (a % 2 ^ k) (b % 2 ^ k))
      (ground
        (arith, one-le-pow k 2, bit_and_split k (a / 2 ^ k) (a % 2 ^ k) (b / 2 ^ k) (b % 2 ^ k)))
      (bit_and_bound k (a % 2 ^ k) (b % 2 ^ k) (low a) (low b))
