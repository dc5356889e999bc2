-- ===== src/Can402/Safe.antt =====
-- The invariant of the drive daemon: while the halt flag is false, no drive of the set is halted.
-- It holds over every interleaving of the main thread's steps and the feedback thread's frames.
pub mod Feedback
pub mod Reach
use socanmatic.Base.{
  ℕ, zero, suc, ◌≡◌, refl, sym, ap, ◌∙◌, Bool, true, false, same, same-eq, List, [], ◌∷◌, Option,
  none, some, Bool-cases, inl, inr, if◌then◌else◌, ◌&&◌, ◌==◌, arith,
}
use mathlib.Core.Path.{subst}
use Prim.{Unit}
use socanmatic.Base.Int.{to_unsigned, same_int}
use socanmatic.Can.{CanFrame, Status}
use socanmatic.Bus.{Bus, is_ok}
use socanmatic.Run.{Run, returned, ◌>>=◌, >>=-eq-returned}
use socanmatic.Pdo.Send.{rpdo_send_u16, rpdo_send_i16}
use socanmatic.Ds402.OpMode.{is_halted}
use socanmatic.Can402.{
  Double, Servo, MotorState, Mode, mode_vel, mode_pos_offset, mode_other, Cx, each, each2,
}
use socanmatic.Can402.First.{FirstAll, returned_inj, each-FirstAll, each2-FirstAll}
use socanmatic.Can402.Halt.{halt_word, with_ctrl, halt_one, halt_loop, halt_all, halt}
use socanmatic.Can402.Halt.Word.{has_halt-halt_word}
use socanmatic.Can402.Process.{next_target, drive_one, offset_one, drive_all, process_mode, process}
use socanmatic.Can402.Feedback.{
  is_tpdo, take_raw, feedback_frame, convert, update_feedback, values_of, send_feedback,
}
use socanmatic.Can402.Main.{
  ach_timeout, ach_ok, ach_missed_frame, ach_bug, ach_corrupt, ach_canceled, ach_stale_frames,
  ach_other, Sns, Context, validate, act_on, time_of, get_msg,
}

-- The drive's control word has no halt bit.
abbrev pub Unhalted : {W : Type 0} → Servo W → Type 0
Unhalted d = is_halted d.drive ≡ false

-- While the halt flag is false, no drive of the set is halted.
abbrev pub Safe : {W Header Time Stamp : Type 0} → Cx W Header Time Stamp → Type 0
Safe cx = cx.is_halt ≡ false → FirstAll Unhalted cx.count cx.drives

module _ (bus : Bus) {W : Type 0} where
  open bus use {State}

  halt_one-Unhalted :
      (d : Servo W) (s : State) (o : Bool × Servo W × State)
      → halt_one bus false d s ≡ returned o
      → o.0 ≡ true
      → Unhalted o.1
  unfolding halt_one
  halt_one-Unhalted d s o h go = elim (Bool-cases (is_halted d.drive)) [
    | inr off ↦ ground (arith, off, rw (off) at h)
    | inl on ↦
        let (r, e, h1) =
          >>=-eq-returned
            (rpdo_send_u16 bus s d.drive.node_id (to_unsigned 8 d.rpdo_ctrl)
              (halt_word false d.drive.ctrl_word))
            _ (rw (on) at h) in
        elim (Bool-cases (is_ok r.0)) [
          | inl t ↦ ground (arith, has_halt-halt_word false d.drive.ctrl_word, rw (t) at h1)
          | inr t ↦ absurd (ground (arith, go, rw (t) at h1))
        ]
  ]

  halt_loop-Unhalted :
      (n : ℕ) (ds : List (Servo W)) (s : State) (r : Bool × List (Servo W) × State)
      → halt_loop bus false n ds s ≡ returned r
      → r.0 ≡ true
      → FirstAll Unhalted n r.1
  unfolding halt_loop
  halt_loop-Unhalted zero ds s r h go = _
  halt_loop-Unhalted (suc n) [] s r h go = absurd (cc)
  halt_loop-Unhalted (suc n) (d ∷ ds) s r h go =
      let (o, e, h1) = >>=-eq-returned (halt_one bus false d s) _ h in
      elim (Bool-cases o.0) [
        | inr off ↦ absurd (ground (arith, go, rw (off) at h1))
        | inl on ↦
            let (rest, e2, h2) =
              >>=-eq-returned (halt_loop bus false n ds o.2) (λ r. returned (r.0, o.1 ∷ r.1, r.2))
                (rw (on) at h1) in
            let whole = returned_inj h2 in
            subst (λ (q : Bool × List (Servo W) × State). FirstAll Unhalted (suc n) q.1) whole
              (
                halt_one-Unhalted d s o e on,
                halt_loop-Unhalted n ds o.2 rest e2
                    (ap (λ (q : Bool × List (Servo W) × State). q.0) whole ∙ go),
              )
      ]

module _ (bus : Bus) {W Header Time Stamp : Type 0} where
  open bus use {State}

  halt_all-Safe :
      (cx : Cx W Header Time Stamp) (s : State) (o : Cx W Header Time Stamp × State)
      → halt_all bus cx s ≡ returned o
      → Safe o.0
  unfolding halt_all
  halt_all-Safe cx s o h off =
      let (r, e, h1) = >>=-eq-returned (halt_loop bus true cx.count cx.drives s) _ h in
      absurd (ground (arith, off, h1))

  -- However its sending goes, `halt` leaves the daemon safe.
  pub halt-Safe :
      (b : Bool) (cx : Cx W Header Time Stamp) (s : State) (o : Cx W Header Time Stamp × State)
      → halt bus b cx s ≡ returned o
      → Safe o.0
  unfolding halt
  halt-Safe b cx s o h =
      let (r, e, h1) = >>=-eq-returned (halt_loop bus b cx.count cx.drives s) _ h in
      elim (Bool-cases r.0) [
        | inr t ↦ halt_all-Safe (record cx { drives = r.1 }) r.2 o (rw (t) at h1)
        | inl t ↦
            let whole : (record cx { drives = r.1; is_halt = b }, r.2) ≡ o =
              returned_inj (rw (t) at h1) in
            subst (λ (q : Cx W Header Time Stamp × State). Safe q.0) whole
              (λ off. halt_loop-Unhalted bus cx.count cx.drives s r (rw (off) at e) t)
      ]

module _ (bus : Bus) {W : Type 0} (f : Double W) where
  open bus use {State}

  pub drive_one-Unhalted :
      (d : Servo W) (u : W) (s : State) (o : Servo W × State)
      → drive_one bus f d u s ≡ returned o
      → Unhalted d
      → Unhalted o.0
  unfolding drive_one
  drive_one-Unhalted d u s o h good =
      let (t, e, h1) = >>=-eq-returned (next_target f d u) _ h in
      elim (Bool-cases (same_int t d.target_vel_raw)) [
        | inl y ↦ ground (arith, good, rw (y) at h1)
        | inr n ↦
            let (r, e2, h2) =
              >>=-eq-returned
                (rpdo_send_i16 bus s d.drive.node_id (to_unsigned 8 d.drive.rpdo_user) t) _
                (rw (n) at h1) in
            elim (Bool-cases (is_ok r.0)) [
              | inl y ↦ ground (arith, good, rw (y) at h2)
              | inr n2 ↦ ground (arith, good, rw (n2) at h2)
            ]
      ]

module _ (bus : Bus) {W Header Time Stamp : Type 0} (f : Double W)
    (is_expired : Header → Time → Bool) where
  open bus use {State}

  drive_all-Safe :
      (cx : Cx W Header Time Stamp) (s : State) (o : Cx W Header Time Stamp × State)
      → drive_all bus f is_expired cx s ≡ returned o
      → Safe cx
      → Safe o.0
  unfolding drive_all
  drive_all-Safe cx s o h safe = elim (Bool-cases cx.is_halt) [
    | inl t ↦
        subst (λ (q : Cx W Header Time Stamp × State). Safe q.0) (returned_inj (rw (t) at h))
          (λ off. absurd (cc))
    | inr t ↦
        let (r, e, h1) =
          >>=-eq-returned (each2 (drive_one bus f) cx.msg_ref.n cx.drives cx.msg_ref.u s)
            (λ r. returned (record cx { drives = r.0; is_halt = false }, r.1)) (rw (t) at h) in
        subst (λ (q : Cx W Header Time Stamp × State). Safe q.0) (returned_inj h1)
          (λ off.
            each2-FirstAll Unhalted (drive_one bus f) (drive_one-Unhalted bus f) cx.count
              cx.msg_ref.n cx.drives cx.msg_ref.u s r e (safe t))
  ]

  process_mode-Safe :
      (m : Mode) (cx : Cx W Header Time Stamp) (s : State) (o : Cx W Header Time Stamp × State)
      → process_mode bus f is_expired m cx s ≡ returned o
      → Safe cx
      → Safe o.0
  unfolding process_mode
  process_mode-Safe mode_vel cx s o h safe =
      let (o1, e, h1) = >>=-eq-returned (halt bus false cx s) _ h in
      drive_all-Safe o1.0 o1.1 o h1 (halt-Safe bus false cx s o1 e)
  process_mode-Safe mode_pos_offset cx s o h safe =
      let (r, e, h1) =
        >>=-eq-returned (each2 offset_one cx.msg_ref.n cx.drives cx.msg_ref.u s) _ h in
      subst (λ (q : Cx W Header Time Stamp × State). Safe q.0) (returned_inj h1)
        (λ off.
          each2-FirstAll Unhalted offset_one
            (λ x y t p g good. subst (λ (q : Servo W × State). Unhalted q.0) (returned_inj g) good)
            cx.count cx.msg_ref.n cx.drives cx.msg_ref.u s r e (safe off))
  process_mode-Safe (mode_other k) cx s o h safe =
      subst (λ (q : Cx W Header Time Stamp × State). Safe q.0) (returned_inj h) safe

  -- A reference message that is processed keeps the daemon safe.
  pub process-Safe :
      (cx : Cx W Header Time Stamp) (s : State) (o : Cx W Header Time Stamp × State)
      → process bus f is_expired cx s ≡ returned o
      → Safe cx
      → Safe o.0
  unfolding process
  process-Safe cx s o h safe =
      let same_cx : returned (cx, s) ≡ returned o → Safe o.0 =
        λ e. subst (λ (q : Cx W Header Time Stamp × State). Safe q.0) (returned_inj e) safe in
      elim (Bool-cases (is_expired cx.msg_ref.header cx.now)) [
        | inl t ↦ same_cx (rw (t) at h)
        | inr t ↦ process_mode-Safe cx.msg_ref.mode cx s o (rw (t) at h) safe
      ]
