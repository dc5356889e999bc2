-- ===== src/Can402.antt =====
-- The state of the drive daemon (src/can402.c): the set of drives, the reference message and the
-- arithmetic on doubles.
pub mod First
pub mod Safe
pub mod Limits
pub mod Again
pub mod Heard
pub mod Fixture
mod Tests
pub mod Init
pub mod Options
pub mod Setup
pub mod Halt
pub mod Process
pub mod Feedback
pub mod Main
use socanmatic.Base.{ℕ, zero, suc, Bool, true, false, List, [], ◌∷◌, Option}
use socanmatic.Base.Int.{ℤ, pos, negsuc}
use socanmatic.Run.{Run, fault, returned, ◌>>=◌}
use socanmatic.Ds402.Start.{Drive}

-- All that the daemon does with a `double`. `trunc` is the conversion to an integer type, `none`
-- where the value is in no range; `huge` is `HUGE_VAL`.
pub record Double (W : Type 0) : Type 0 where
  pub of_int : ℤ → W
  pub trunc : W → Option ℤ
  pub huge : W
  pub neg : W → W
  pub add : W → W → W
  pub sub : W → W → W
  pub mul : W → W → W
  pub div : W → W → W
  pub gt : W → W → Bool
  pub lt : W → W → Bool

-- `struct canmat_402_drive`, with the fields of `Drive`. The currents, which nothing writes, are
-- left out; `tpdo_user` is an `int` that the daemon only sets to 0.
pub record Servo (W : Type 0) : Type 0 where
  pub drive : Drive
  pub pos_factor : W
  pub vel_factor : W
  pub actual_pos_raw : ℤ
  pub actual_vel_raw : ℤ
  pub target_vel_raw : ℤ
  pub pos_max_soft : W
  pub pos_min_soft : W
  pub pos_max_hard : W
  pub pos_min_hard : W
  pub actual_pos : W
  pub actual_vel : W
  pub pos_offset : W
  pub tpdo_user : ℕ
  pub tpdo_stat : ℤ
  pub rpdo_ctrl : ℤ

-- `SNS_MOTOR_MODE_VEL`, `SNS_MOTOR_MODE_POS_OFFSET` and the other modes
pub data Mode : Type 0 where
  mode_vel mode_pos_offset : Mode
  mode_other : ℕ → Mode

-- `struct sns_msg_motor_ref`: `header.n` and the rest of the header, the mode, and the array `u`.
pub record MotorRef (W Header : Type 0) : Type 0 where
  pub header : Header
  pub n : ℕ
  pub mode : Mode
  pub u : List W

-- `struct sns_msg_motor_state`: `header.seq` and the times of the header, and the positions and
-- velocities `X`.
pub record MotorState (W Stamp : Type 0) : Type 0 where
  pub seq : ℕ
  pub stamp : Stamp
  pub values : List (W × W)

-- `struct can402_cx`: `drives` is the array `drive_set.drive` and `count` is `drive_set.n`. The
-- operation mode, which nothing reads, and the channels are left out.
pub record Cx (W Header Time Stamp : Type 0) : Type 0 where
  pub drives : List (Servo W)
  pub count : ℕ
  pub msg_ref : MotorRef W Header
  pub msg_state : MotorState W Stamp
  pub is_halt : Bool
  pub now : Time

-- `for( size_t i = 0; i < n; i ++ )` over the array, with what the body passes on.
module _ {A S : Type 0} where
  unfoldable pub each : (A → S → Run (A × S)) → ℕ → List A → S → Run (List A × S)
  each body zero xs s = returned (xs, s)
  each body (suc n) [] s = fault
  each body (suc n) (x ∷ xs) s =
      body x s >>= λ o. each body n xs o.1 >>= λ r. returned (o.0 ∷ r.0, r.1)

-- The same over the array and another beside it.
module _ {A B S : Type 0} where
  unfoldable pub each2 : (A → B → S → Run (A × S)) → ℕ → List A → List B → S → Run (List A × S)
  each2 body zero xs ys s = returned (xs, s)
  each2 body (suc n) [] ys s = fault
  each2 body (suc n) (x ∷ xs) [] s = fault
  each2 body (suc n) (x ∷ xs) (y ∷ ys) s =
      body x y s >>= λ o. each2 body n xs ys o.1 >>= λ r. returned (o.0 ∷ r.0, r.1)
