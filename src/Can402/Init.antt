-- ===== src/Can402/Init.antt =====
-- The reading of a drive's state at the start of the daemon (`canmat_402_init` of src/ds402.c).
use socanmatic.Base.{ℕ, some, if◌then◌else◌}
use socanmatic.Base.Int.{to_unsigned, to_signed}
use socanmatic.Can.{Status, ok}
use socanmatic.Bus.{is_ok}
use socanmatic.Run.{Run, returned, ◌>>=◌}
use socanmatic.Scalar.Member.{Member, u16, i8, i16, i32}
use socanmatic.Client.{Client}
use socanmatic.Ds402.Start.{controlword_index, statusword_index, code_of}
use socanmatic.Can402.{Double, Servo}

-- The objects of eds/dsp402.eds
abbrev pub position_actual_value : ℕ
position_actual_value = 0x6064

abbrev pub velocity_actual_value : ℕ
velocity_actual_value = 0x606C

abbrev pub vl_target : ℕ
vl_target = 0x6042

abbrev pub modes_of_operation : ℕ
modes_of_operation = 0x6060

abbrev pub software_position_limit : ℕ
software_position_limit = 0x607D

-- `stack_mode`, `stack_min` and `stack_max` are what the local variables of the mode and of the
-- limits hold; `margin` is the value of `5*M_PI/180`.
module _ (c : Client) {W : Type 0} (f : Double W) (stack_mode stack_min stack_max : ℕ)
    (margin : W) where
  open c use {State, upload}

  -- `CHECK_STATUS` of an upload over `old`, before the rest of the function.
  unfoldable pub ul_then :
      Member
      → ℕ
      → ℕ
      → ℕ
      → Servo W
      → State
      → (ℕ → Servo W → State → Run (Status × Servo W × State))
      → Run (Status × Servo W × State)
  ul_then m idx subix old d s k =
      upload m s d.drive.node_id idx subix old (some d.drive.abort_code) >>= λ u.
      let told : Servo W = record d {
        drive = record (d.drive) { abort_code = code_of c d.drive.abort_code u.err };
      } in
      if is_ok u.status then k u.val told u.after else returned (u.status, told, u.after)

  -- The limits in radians, from the raw ones.
  unfoldable pub with_limits : ℕ → ℕ → Servo W → Servo W
  with_limits min max d =
      let max_hard = f.sub (f.div (f.of_int (to_signed 32 max)) d.pos_factor) margin in
      let min_hard = f.add (f.div (f.of_int (to_signed 32 min)) d.pos_factor) margin in
      record d {
        pos_max_hard = max_hard;
        pos_min_hard = min_hard;
        pos_max_soft = f.sub max_hard margin;
        pos_min_soft = f.add min_hard margin;
      }

  unfoldable pub init_limits : Servo W → State → Run (Status × Servo W × State)
  init_limits d s = ul_then i32 software_position_limit 1 stack_min d s λ min d1 s1.
      ul_then i32 software_position_limit 2 stack_max d1 s1
        λ max d2 s2. returned (ok, with_limits min max d2, s2)

  unfoldable pub init_mode : Servo W → State → Run (Status × Servo W × State)
  init_mode d s =
      ul_then i8 modes_of_operation 0 stack_mode d s
        λ i d1 s1. init_limits (record d1 { drive = record (d1.drive) { op_mode = i } }) s1

  unfoldable pub init_values : Servo W → State → Run (Status × Servo W × State)
  init_values d s =
      ul_then i32 position_actual_value 0 (to_unsigned 32 d.actual_pos_raw) d s λ p d1 s1.
        let q1 : Servo W = record d1 { actual_pos_raw = to_signed 32 p } in
        ul_then i32 velocity_actual_value 0 (to_unsigned 32 d.actual_vel_raw) q1 s1 λ v d2 s2.
          let q2 : Servo W = record d2 { actual_vel_raw = to_signed 32 v } in
          ul_then i16 vl_target 0 (to_unsigned 16 d.target_vel_raw) q2 s2
            λ t d3 s3. init_mode (record d3 { target_vel_raw = to_signed 16 t }) s3

  unfoldable pub init_servo : ℕ → Servo W → State → Run (Status × Servo W × State)
  init_servo id d s =
      let named : Servo W = record d { drive = record (d.drive) { node_id = id } } in
      ul_then u16 controlword_index 0 d.drive.ctrl_word named s λ w d1 s1.
        let q1 : Servo W = record d1 { drive = record (d1.drive) { ctrl_word = w } } in
        ul_then u16 statusword_index 0 d.drive.stat_word q1 s1
          λ x d2 s2. init_values (record d2 { drive = record (d2.drive) { stat_word = x } }) s2
