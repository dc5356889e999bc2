-- ===== src/Base/Below.antt =====
-- Tests of every number below a bound, and what a test that holds says.
use Prim.Native.Nat.{ℕ, zero, suc, ◌<◌}
use mathlib.Core.Path.{◌≡◌, refl, ap, ◌∙◌}
use mathlib.Core.Bool.{Bool, true, false, ◌&&◌}
use native.Mathlib.Omega.{arith}
use native.Mathlib.Decide.{ℕ_discrete}

unfoldable pub all_below : ℕ → (ℕ → Bool) → Bool
all_below zero p = true
all_below (suc n) p = p n && all_below n p

both : (a b : Bool) → (a && b) ≡ true → (a ≡ true) × (b ≡ true)
both true b h = (refl, h)
both false b h = absurd (cc)

pub all_below-holds : (n : ℕ) (p : ℕ → Bool) → all_below n p ≡ true → (x : ℕ) → x < n → p x ≡ true
unfolding all_below
all_below-holds zero p h x lt = absurd (omega arith)
all_below-holds (suc n) p h x lt = elim (ℕ_discrete x n) [
  | yes e ↦ ap p e ∙ (both (p n) (all_below n p) h).0
  | no ne ↦ all_below-holds n p (both (p n) (all_below n p) h).1 x (omega arith)
]
