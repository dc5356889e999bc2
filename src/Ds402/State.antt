-- ===== src/Ds402/State.antt =====
-- `canmat_402_state` (src/ds402.c): the drive's state from its status word.
pub mod Patterns
use socanmatic.Base.{ℕ, Bool, ◌==◌, if◌then◌else◌, bit_and}

-- `canmat_402_state_val_t`
pub data StateVal : Type 0 where
  off_nrdy off_sw_on_disable off_rdy on_op_dis on_op_en : StateVal
  on_quick_stop fault_reaction_active fault unknown : StateVal

-- The enumerators' values, and those of `canmat_402_state_val_mask_t`, which has none for
-- `unknown`.
abbrev pub value_of : StateVal → ℕ
value_of off_nrdy = 0x00
value_of off_sw_on_disable = 0x40
value_of off_rdy = 0x21
value_of on_op_dis = 0x23
value_of on_op_en = 0x27
value_of on_quick_stop = 0x07
value_of fault_reaction_active = 0x0F
value_of fault = 0x08
value_of unknown = 0xFFFF

abbrev pub mask_of : StateVal → ℕ
mask_of off_nrdy = 0x4F
mask_of off_sw_on_disable = 0x4F
mask_of off_rdy = 0x6F
mask_of on_op_dis = 0x6F
mask_of on_op_en = 0x6F
mask_of on_quick_stop = 0x6F
mask_of fault_reaction_active = 0x4F
mask_of fault = 0x4F
mask_of unknown = 0xFFFF

-- `VALUE == (s & MASK)` for one state
matches : ℕ → StateVal → Bool
matches s v = value_of v == bit_and s (mask_of v)

unfoldable pub state : ℕ → StateVal
unfolding matches
state s =
    if matches s off_nrdy
    then off_nrdy
    else if matches s off_sw_on_disable
    then off_sw_on_disable
    else if matches s off_rdy
    then off_rdy
    else if matches s on_op_dis
    then on_op_dis
    else if matches s on_op_en
    then on_op_en
    else if matches s on_quick_stop
    then on_quick_stop
    else if matches s fault_reaction_active
    then fault_reaction_active
    else if matches s fault
    then fault
    else unknown
