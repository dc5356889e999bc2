-- ===== src/Can402/Setup.antt =====
-- The start of the daemon (`init` of src/can402.c): each drive is read, its PDOs are mapped, its mode
-- is set, and it is started; the first failure stops all drives and ends the process.
pub mod Enabled
mod Tests
use socanmatic.Base.{
  ℕ, zero, suc, ◌≡◌, refl, sym, ap, ◌∙◌, Bool, true, false, List, [], ◌∷◌, Option, none, some,
  if◌then◌else◌, Bool-cases, inl, inr, arith,
}
use mathlib.Core.Path.{subst}
use socanmatic.Base.Int.{ℤ, pos, negsuc, is_nonneg, to_unsigned}
use socanmatic.Can.{Status, ok}
use socanmatic.DataType.{integer32, unsigned16}
use socanmatic.Bus.{Bus, is_ok}
use socanmatic.Run.{Run, fault, exited, returned, ◌>>=◌, >>=-eq-returned}
use socanmatic.Dict.{Obj}
use socanmatic.Dict.Typed.{objects_of}
use socanmatic.Client.OfBus.{client_of}
use socanmatic.Pdo.{Direction, dl, ul, remap}
use socanmatic.Ds402.State.{on_op_en, state}
use socanmatic.Ds402.Start.{Drive, Outcome, start, controlword_index, statusword_index}
use socanmatic.Ds402.Start.Enabled.{start-Enabled}
use socanmatic.Ds402.OpMode.{mode_velocity, vl_target_velocity, told, set_op_mode}
use socanmatic.Can402.{Double, Servo, Cx}
use socanmatic.Can402.First.{FirstAll, returned_inj}
use socanmatic.Can402.Halt.{stop_all}
use socanmatic.Can402.Init.{position_actual_value, velocity_actual_value, init_servo}

-- The objects that are mapped, from the table that canmatc generates.
abbrev pub obj_controlword : Obj
obj_controlword = record vl_target_velocity { index = controlword_index; data_type = unsigned16 }

abbrev pub obj_statusword : Obj
obj_statusword = record vl_target_velocity { index = statusword_index; data_type = unsigned16 }

abbrev pub obj_position : Obj
obj_position = record vl_target_velocity { index = position_actual_value; data_type = integer32 }

abbrev pub obj_velocity : Obj
obj_velocity = record vl_target_velocity { index = velocity_actual_value; data_type = integer32 }

-- A loop over the array that ends at the first status that is not OK; `false` tells that it did.
module _ {A S : Type 0} where
  unfoldable pub each_ok : (A → S → Run (Status × A × S)) → ℕ → List A → S → Run (Bool × List A × S)
  each_ok body zero xs s = returned (true, xs, s)
  each_ok body (suc n) [] s = fault
  each_ok body (suc n) (x ∷ xs) s = body x s >>= λ o.
      if is_ok o.0
      then (each_ok body n xs o.2 >>= λ r. returned (r.0, o.1 ∷ r.1, r.2))
      else returned (false, o.1 ∷ xs, o.2)

-- `comm` is the content of the uninitialised local variable of `canmat_pdo_remap`; the others are as
-- in `canmat_402_init`.
module _ (bus : Bus) (fuel comm : ℕ) {W : Type 0} (f : Double W)
    (stack_mode stack_min stack_max : ℕ) (margin : W) where
  open bus use {State}

  -- A function of the drive, as the body of a loop.
  unfoldable pub on_drive :
      (Drive → State → Run (Outcome State)) → Servo W → State → Run (Status × Servo W × State)
  on_drive g d s = g d.drive s >>= λ o. returned (o.status, record d { drive = o.drive }, o.after)

  unfoldable pub read_one : Servo W → State → Run (Status × Servo W × State)
  read_one d s =
      init_servo (objects_of bus fuel) f stack_mode stack_min stack_max margin d.drive.node_id d s

  -- `canmat_pdo_remap` through `&drive->abort_code`
  unfoldable pub map_one :
      ℤ → Direction → ℤ → ℤ → ℕ → List Obj → Servo W → State → Run (Status × Servo W × State)
  map_one pdo dir type timer cnt objs d s =
      on_drive
        (λ drive t. told bus fuel drive (
          remap (client_of bus fuel) drive.node_id (to_unsigned 8 pdo) dir type (negsuc 0) timer cnt
            objs comm t (some drive.abort_code)))
        d s

  unfoldable pub map_control : Servo W → State → Run (Status × Servo W × State)
  map_control d s = map_one d.rpdo_ctrl dl (pos 0xFF) (negsuc 0) 1 (obj_controlword ∷ []) d s

  unfoldable pub map_feedback : Servo W → State → Run (Status × Servo W × State)
  map_feedback d s =
      map_one (pos d.tpdo_user) ul (pos 0xFE) (pos 10) 2 (obj_position ∷ obj_velocity ∷ []) d s
      >>= λ o.
          if is_ok o.0
          then (if is_nonneg o.1.tpdo_stat
              then map_one o.1.tpdo_stat ul (pos 0xFE) (pos 10) 1 (obj_statusword ∷ []) o.1 o.2
              else returned o)
          else returned o

  unfoldable pub set_velocity : Servo W → State → Run (Status × Servo W × State)
  set_velocity d s = on_drive (set_op_mode bus fuel mode_velocity comm) d s

  unfoldable pub start_one : Servo W → State → Run (Status × Servo W × State)
  start_one d s = on_drive (start (objects_of bus fuel)) d s

  module _ {Header Time Stamp : Type 0} where
    -- One of the loops, and `goto FAIL` when a drive fails.
    unfoldable pub phase :
        (Servo W → State → Run (Status × Servo W × State))
        → Cx W Header Time Stamp
        → State
        → (Cx W Header Time Stamp → State → Run (Cx W Header Time Stamp × State))
        → Run (Cx W Header Time Stamp × State)
    phase body cx s k = each_ok body cx.count cx.drives s >>= λ r.
        let cx1 : Cx W Header Time Stamp = record cx { drives = r.1 } in
        if r.0 then k cx1 r.2 else (stop_all bus fuel cx1 r.2 >>= λ o. exited)

    -- A drive that cannot be read ends the process at once.
    unfoldable pub setup : Cx W Header Time Stamp → State → Run (Cx W Header Time Stamp × State)
    setup cx s = each_ok read_one cx.count cx.drives s >>= λ r.
        if r.0
        then (phase map_control (record cx { drives = r.1 }) r.2
            λ cx1 s1. phase map_feedback cx1 s1 λ cx2 s2.
              phase set_velocity cx2 s2
                λ cx3 s3. phase start_one cx3 s3 λ cx4 s4. returned (cx4, s4))
        else exited
