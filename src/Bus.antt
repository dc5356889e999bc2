-- ===== src/Bus.antt =====
-- What the protocol functions run on: a CAN interface, by the two entries of
-- `struct canmat_iface_vtable` (include/socanmatic/iface.h) that they call, and the contents of
-- their uninitialised local variables.
use socanmatic.Base.{Bool, true, false}
use socanmatic.Can.{CanFrame, Status, ok}
use socanmatic.Scalar.{Scalar}
use socanmatic.Sdo.Msg.{SdoMsg}

-- `send` and `recv` are the drivers' functions, which call the operating system: they may do
-- anything to the state and return any status. `recv` is given the frame that it overwrites.
-- `stack_frame`, `stack_msg` and `stack_scalar` are what a local `struct can_frame`,
-- `canmat_sdo_msg_t` and `canmat_scalar_t` hold before anything is stored in them.
pub record Bus : Type 1 where
  pub State : Type 0
  pub send : State → CanFrame → Status × State
  pub recv : State → CanFrame → Status × CanFrame × State
  pub stack_frame : State → CanFrame
  pub stack_msg : State → SdoMsg
  pub stack_scalar : State → Scalar

-- `CANMAT_OK == r`
abbrev pub is_ok : Status → Bool
is_ok ok = true
is_ok _ = false
