-- ===== src/Can402/Safe/Feedback.antt =====
-- The feedback keeps the daemon safe (`feedback_recv`, `update_feedback` and `send_feedback` of
-- src/can402.c).
use socanmatic.Base.{ℕ, ◌≡◌, Bool, true, false, List, Bool-cases, inl, inr, arith}
use mathlib.Core.Path.{subst}
use socanmatic.Can.{CanFrame}
use socanmatic.Run.{returned, >>=-eq-returned}
use socanmatic.Can402.{Double, Servo, MotorState, Cx, each}
use socanmatic.Can402.First.{FirstAll, returned_inj, each-FirstAll}
use socanmatic.Can402.Feedback.{
  is_tpdo, take_raw, feedback_frame, convert, update_feedback, values_of, send_feedback,
}
use socanmatic.Can402.Safe.{Unhalted, Safe}

take_raw-Unhalted :
    {W : Type 0} (can : CanFrame) (d : Servo W) → Unhalted d → Unhalted (take_raw can d)
unfolding take_raw
take_raw-Unhalted can d good = ground (arith, good)

module _ {W Header Time Stamp : Type 0} where
  -- A loop that passes drives on keeps the daemon safe.
  kept_by_each :
      {S : Type 0} (g : Servo W → Servo W)
      → ((d : Servo W) → Unhalted d → Unhalted (g d))
      → (cx : Cx W Header Time Stamp) (s : S) (r : List (Servo W) × S)
      → each (λ d t. returned (g d, t)) cx.count cx.drives s ≡ returned r
      → Safe cx
      → cx.is_halt ≡ false
      → FirstAll Unhalted cx.count r.0
  kept_by_each {S = S} g keeps cx s r e safe off =
      each-FirstAll Unhalted (λ d t. returned (g d, t))
        (λ d t o q good. subst (λ (p : Servo W × S). Unhalted p.0) (returned_inj q) (keeps d good))
        cx.count cx.count cx.drives s r e (safe off)

  pub feedback_frame-Safe :
      (can : CanFrame) (cx cx' : Cx W Header Time Stamp)
      → feedback_frame can cx ≡ returned cx'
      → Safe cx
      → Safe cx'
  unfolding feedback_frame
  feedback_frame-Safe can cx cx' h safe = elim (Bool-cases (is_tpdo can)) [
    | inr n ↦ subst Safe (returned_inj (rw (n) at h)) safe
    | inl y ↦
        let (r, e, h1) =
          >>=-eq-returned
            (each {S = Bool} (λ d s. returned (take_raw can d, s)) cx.count cx.drives true)
            (λ r. returned (record cx { drives = r.0 })) (rw (y) at h) in
        subst Safe (returned_inj h1)
          (kept_by_each (take_raw can) (take_raw-Unhalted can) cx true r e safe)
  ]

  pub update_feedback-Safe :
      (f : Double W) (cx cx' : Cx W Header Time Stamp)
      → update_feedback f cx ≡ returned cx'
      → Safe cx
      → Safe cx'
  unfolding update_feedback convert
  update_feedback-Safe f cx cx' h safe =
      let (r, e, h1) =
        >>=-eq-returned (each {S = Bool} (λ d s. returned (convert f d, s)) cx.count cx.drives true)
          (λ r. returned (record cx { drives = r.0 })) h in
      subst Safe (returned_inj h1) (kept_by_each (convert f) (λ d good. good) cx true r e safe)

  pub send_feedback-Safe :
      {State : Type 0} (f : Double W) (seq_bits : ℕ) (set_time : Stamp → Time → Stamp)
      (put : State → MotorState W Stamp → State) (cx : Cx W Header Time Stamp) (s : State)
      (o : Cx W Header Time Stamp × State)
      → send_feedback f seq_bits set_time put cx s ≡ returned o
      → Safe cx
      → Safe o.0
  unfolding send_feedback
  send_feedback-Safe {State} f seq_bits set_time put cx s o h safe =
      let (vs, e, h1) = >>=-eq-returned (values_of f cx.count cx.drives) _ h in
      subst (λ (q : Cx W Header Time Stamp × State). Safe q.0) (returned_inj h1) safe
