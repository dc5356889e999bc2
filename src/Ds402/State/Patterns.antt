-- ===== src/Ds402/State/Patterns.antt =====
-- The status word patterns of src/ds402.c exclude each other, so the order of its tests does not
-- matter.
use socanmatic.Base.{
  ℕ, ◌%◌, ◌^◌, ◌≡◌, ◌≢◌, refl, sym, ap, ◌∙◌, Bool, true, ◌==◌, if◌then◌else◌, ==→eq, ==-refl,
  bit_and, bit_and_mod, arith, all_below, all_below-holds, same, same-eq,
}
use socanmatic.Ds402.State.{
  StateVal, off_nrdy, off_sw_on_disable, off_rdy, on_op_dis, on_op_en, on_quick_stop,
  fault_reaction_active, fault, unknown, value_of, mask_of, matches, state,
}

-- Only the low seven bits of a status word are looked at.
matches_mod : (s : ℕ) (v : StateVal) → v ≢ unknown → matches s v ≡ matches (s % 2 ^ 7) v
unfolding matches
matches_mod s unknown h = absurd (h refl)
matches_mod s v h = ap (λ x. value_of v == x) (bit_and_mod 7 s (mask_of v) (omega arith))

pub state_mod : (s : ℕ) → state s ≡ state (s % 2 ^ 7)
unfolding state
state_mod s =
    rw
      (
        matches_mod s off_nrdy (λ e. absurd (cc)),
        matches_mod s off_sw_on_disable (λ e. absurd (cc)),
        matches_mod s off_rdy (λ e. absurd (cc)),
        matches_mod s on_op_dis (λ e. absurd (cc)),
        matches_mod s on_op_en (λ e. absurd (cc)),
        matches_mod s on_quick_stop (λ e. absurd (cc)),
        matches_mod s fault_reaction_active (λ e. absurd (cc)),
        matches_mod s fault (λ e. absurd (cc)),
      )
      refl

-- Two states have the same value only if they are the same.
from_value : ℕ → StateVal
from_value n =
    if n == 0x00
    then off_nrdy
    else if n == 0x40
    then off_sw_on_disable
    else if n == 0x21
    then off_rdy
    else if n == 0x23
    then on_op_dis
    else if n == 0x27
    then on_op_en
    else if n == 0x07
    then on_quick_stop
    else if n == 0x0F
    then fault_reaction_active
    else if n == 0x08
    then fault
    else unknown

from_value-value_of : (v : StateVal) → from_value (value_of v) ≡ v
unfolding from_value
from_value-value_of unknown = refl
from_value-value_of v = refl

value_of-injective : (v w : StateVal) → value_of v ≡ value_of w → v ≡ w
value_of-injective v w h = sym (from_value-value_of v) ∙ (ap from_value h ∙ from_value-value_of w)

-- The table of the 128 words, for one state.
agrees : StateVal → ℕ → Bool
agrees v s = same (value_of (state s) == value_of v) (matches s v)

table : (v : StateVal) → v ≢ unknown → all_below 128 (agrees v) ≡ true
unfolding all_below agrees state matches
table unknown h = absurd (h refl)
table v h = refl

-- `canmat_402_state` returns a state other than `CANMAT_402_STATE_VAL_UNKNOWN` exactly when the
-- test of that state alone succeeds, of its value against the masked status word: the order in
-- which the tests are made does not matter.
pub state-eq_test :
    (s : ℕ) (v : StateVal)
    → v ≢ unknown
    → (value_of (state s) == value_of v) ≡ (value_of v == bit_and s (mask_of v))
unfolding agrees matches
state-eq_test s v h =
    rw (state_mod s, matches_mod s v h)
      (same-eq (value_of (state (s % 2 ^ 7)) == value_of v) (matches (s % 2 ^ 7) v)
        (all_below-holds 128 (agrees v) (table v h) (s % 2 ^ 7) (omega arith)))

-- A word that matches a state's pattern is of that state.
pub state-of_value :
    (s : ℕ) (v : StateVal) → v ≢ unknown → value_of v ≡ bit_and s (mask_of v) → state s ≡ v
state-of_value s v h e = value_of-injective (state s) v (
    ==→eq (value_of (state s)) (value_of v)
      (state-eq_test s v h ∙ (ap (λ x. value_of v == x) (sym e) ∙ ==-refl (value_of v))))
