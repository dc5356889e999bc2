-- ===== src/Can402/Halt.antt =====
-- Halting and stopping the drives (`halt` and `stop` of src/can402.c).
pub mod Word
pub mod Sent
use socanmatic.Base.{
  ℕ, zero, suc, ◌^◌, ◌%◌, Bool, true, false, not, same, List, [], ◌∷◌, ◌==◌, if◌then◌else◌, bit_and,
  bit_or,
}
use socanmatic.Base.Int.{to_unsigned}
use socanmatic.Can.{CanFrame, Status}
use socanmatic.Bus.{Bus, is_ok}
use socanmatic.Run.{Run, fault, returned, ◌>>=◌}
use socanmatic.Dict.Typed.{objects_of}
use socanmatic.Pdo.Send.{rpdo_send_u16}
use socanmatic.Ds402.Start.{Drive, Outcome}
use socanmatic.Ds402.Start
use socanmatic.Ds402.OpMode.{is_halted}
use socanmatic.Can402.{Servo, Cx, each}

-- `CANMAT_402_CTRLMASK_HALT`, and its complement on 16 bits
abbrev pub ctrlmask_halt : ℕ
ctrlmask_halt = 2 ^ 8

abbrev pub ctrlmask_not_halt : ℕ
ctrlmask_not_halt = 0xFEFF

-- `new_ctrl`
unfoldable pub halt_word : Bool → ℕ → ℕ
halt_word b old_ctrl =
    (if b then bit_or old_ctrl ctrlmask_halt else bit_and old_ctrl ctrlmask_not_halt) % 2 ^ 16

module _ {W : Type 0} where
  -- `drive->ctrl_word = ctrl`
  abbrev pub with_ctrl : Servo W → ℕ → Servo W
  with_ctrl d ctrl = record d { drive = record (d.drive) { ctrl_word = ctrl } }

module _ (bus : Bus) {W : Type 0} where
  open bus use {State}

  -- The body of the loop: whether the loop goes on, the drive and the network. It ends when the
  -- word of an unhalted drive is not sent.
  unfoldable pub halt_one : Bool → Servo W → State → Run (Bool × Servo W × State)
  halt_one b d s =
      if same b (is_halted d.drive)
      then returned (true, d, s)
      else let new_ctrl = halt_word b d.drive.ctrl_word in
        rpdo_send_u16 bus s d.drive.node_id (to_unsigned 8 d.rpdo_ctrl) new_ctrl >>= λ r.
        returned (if is_ok r.0 then (true, with_ctrl d new_ctrl, r.1) else (b, d, r.1))

  unfoldable pub halt_loop : Bool → ℕ → List (Servo W) → State → Run (Bool × List (Servo W) × State)
  halt_loop b zero ds s = returned (true, ds, s)
  halt_loop b (suc n) [] s = fault
  halt_loop b (suc n) (d ∷ ds) s = halt_one b d s >>= λ o.
      if o.0
      then (halt_loop b n ds o.2 >>= λ r. returned (r.0, o.1 ∷ r.1, r.2))
      else returned (false, o.1 ∷ ds, o.2)

module _ (bus : Bus) {W Header Time Stamp : Type 0} where
  open bus use {State}

  -- `halt( cx, 1 )`, whose loop never ends early
  unfoldable pub halt_all : Cx W Header Time Stamp → State → Run (Cx W Header Time Stamp × State)
  halt_all cx s = halt_loop bus true cx.count cx.drives s >>= λ r.
      returned (record cx { drives = r.1; is_halt = true }, r.2)

  -- `halt`
  unfoldable pub halt : Bool → Cx W Header Time Stamp → State → Run (Cx W Header Time Stamp × State)
  halt b cx s = halt_loop bus b cx.count cx.drives s >>= λ r.
      if r.0
      then returned (record cx { drives = r.1; is_halt = b }, r.2)
      else halt_all (record cx { drives = r.1 }) r.2

-- A drive is stopped by SDO transfers; a failure is logged.
module _ (bus : Bus) (fuel : ℕ) {W : Type 0} where
  open bus use {State}

  unfoldable pub stop_one : Servo W → State → Run (Servo W × State)
  stop_one d s = Start.stop (objects_of bus fuel) d.drive s >>= λ o.
      returned (record d { drive = o.drive }, o.after)

module _ (bus : Bus) (fuel : ℕ) {W Header Time Stamp : Type 0} where
  open bus use {State}

  unfoldable pub stop_all : Cx W Header Time Stamp → State → Run (Cx W Header Time Stamp × State)
  stop_all cx s = each (stop_one bus fuel) cx.count cx.drives s >>= λ r.
      returned (record cx { drives = r.0 }, r.1)
