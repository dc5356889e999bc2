-- ===== src/Can402/Process.antt =====
-- The targets that a reference message sets (`pos_limit` and `process` of src/can402.c).
use socanmatic.Base.{Bool, false, none, some, if◌then◌else◌}
use socanmatic.Base.Int.{ℤ, pos, negsuc, to_unsigned, same_int}
use socanmatic.Bus.{Bus, is_ok}
use socanmatic.Run.{Run, fault, returned, ◌>>=◌}
use socanmatic.Pdo.Send.{rpdo_send_i16}
use socanmatic.Can402.{Double, Servo, Mode, mode_vel, mode_pos_offset, mode_other, Cx, each2}
use socanmatic.Can402.Halt.{halt}

-- `VEL_MAX` and `VEL_MIN`
abbrev pub vel_max : ℤ
vel_max = pos 32767

abbrev pub vel_min : ℤ
vel_min = negsuc 32766

module _ {W : Type 0} (f : Double W) where
  open f use {of_int, trunc, huge, neg, add, sub, mul, div, gt, lt}

  unfoldable pub pos_limit : Servo W → W → W
  pos_limit d val =
      let p = d.actual_pos in
      if gt p d.pos_max_soft
      then (if gt p d.pos_max_hard
          then neg huge
          else add val (div (sub p d.pos_max_soft) (sub p d.pos_max_hard)))
      else if lt p d.pos_min_soft
      then (if lt p d.pos_min_hard
          then huge
          else add val (neg (div (sub p d.pos_min_soft) (sub p d.pos_min_hard))))
      else add val (of_int (pos 0))

  -- `vl_target`: the clamped value of `val`; the conversion of a value in no range is undefined.
  unfoldable pub clamp : W → Run ℤ
  clamp val =
      if gt val (of_int vel_max)
      then returned vel_max
      else if lt val (of_int vel_min)
      then returned vel_min
      else elim (trunc val) [ none ↦ fault | some z ↦ returned z ]

  unfoldable pub next_target : Servo W → W → Run ℤ
  next_target d u = clamp (mul (pos_limit d u) d.vel_factor)

module _ {W : Type 0} where
  abbrev pub with_target : Servo W → ℤ → Servo W
  with_target d t = record d { target_vel_raw = t }

  -- The body of the loop over the position offsets.
  abbrev pub offset_one : {S : Type 0} → Servo W → W → S → Run (Servo W × S)
  offset_one d u s = returned (record d { pos_offset = u }, s)

module _ (bus : Bus) {W : Type 0} (f : Double W) where
  open bus use {State}

  -- The body of the loop over the drives: a target that changes is sent, and kept once it is sent.
  unfoldable pub drive_one : Servo W → W → State → Run (Servo W × State)
  drive_one d u s = next_target f d u >>= λ t.
      if same_int t d.target_vel_raw
      then returned (d, s)
      else (rpdo_send_i16 bus s d.drive.node_id (to_unsigned 8 d.drive.rpdo_user) t >>= λ r.
          returned (if is_ok r.0 then with_target d t else d, r.1))

-- `is_expired` is `sns_msg_is_expired`.
module _ (bus : Bus) {W Header Time Stamp : Type 0} (f : Double W)
    (is_expired : Header → Time → Bool) where
  open bus use {State}

  -- After `halt( cx, 0 )`
  unfoldable pub drive_all : Cx W Header Time Stamp → State → Run (Cx W Header Time Stamp × State)
  drive_all cx s =
      if cx.is_halt
      then returned (cx, s)
      else (each2 (drive_one bus f) cx.msg_ref.n cx.drives cx.msg_ref.u s >>= λ r.
          returned (record cx { drives = r.0 }, r.1))

  -- The switch over the mode of the message
  unfoldable pub process_mode :
      Mode → Cx W Header Time Stamp → State → Run (Cx W Header Time Stamp × State)
  process_mode mode_vel cx s = halt bus false cx s >>= λ o. drive_all o.0 o.1
  process_mode mode_pos_offset cx s =
      each2 (offset_one) cx.msg_ref.n cx.drives cx.msg_ref.u s >>= λ r.
      returned (record cx { drives = r.0 }, r.1)
  process_mode (mode_other m) cx s = returned (cx, s)

  unfoldable pub process : Cx W Header Time Stamp → State → Run (Cx W Header Time Stamp × State)
  process cx s =
      if is_expired cx.msg_ref.header cx.now
      then returned (cx, s)
      else process_mode cx.msg_ref.mode cx s
