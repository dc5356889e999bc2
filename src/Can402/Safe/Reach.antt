-- ===== src/Can402/Safe/Reach.antt =====
-- The daemon stays safe along every interleaving of its two threads (src/can402.c).
use socanmatic.Base.{
  ℕ, ◌≡◌, true, false, Option, none, some, Bool-cases, inl, inr, ◌&&◌, ◌==◌, arith,
}
use mathlib.Core.Path.{subst}
use socanmatic.Can.{CanFrame}
use socanmatic.Bus.{Bus}
use socanmatic.Run.{returned, >>=-eq-returned}
use socanmatic.Can402.{Double, MotorRef}
use socanmatic.Can402.First.{FirstAll, returned_inj}
use socanmatic.Can402.Feedback.{feedback_frame, update_feedback, send_feedback}
use socanmatic.Can402.Main.{
  AchStatus, ach_timeout, ach_ok, ach_missed_frame, ach_bug, ach_corrupt, ach_canceled,
  ach_stale_frames, ach_other, Sns, Context, validate, act_on, time_of, get_msg, round,
}
use socanmatic.Can402.Safe.{Unhalted, Safe, halt-Safe, process-Safe}
use socanmatic.Can402.Safe.Feedback.{feedback_frame-Safe, update_feedback-Safe, send_feedback-Safe}

module _ (bus : Bus) {W : Type 0} (f : Double W) (sns : Sns bus.State W) where
  open bus use {State}
  open sns use {Header, Time, Stamp, Chan}

  -- The steps of the main thread between two accesses to the drives, and a frame of the feedback
  -- thread, which may come between any of them. `fetch` stores any message and any time.
  pub data Step : Context bus f sns × State → Context bus f sns × State → Type 0 where
    fetch :
        {cx : Context bus f sns} {s s' : State} (ref : MotorRef W Header) (t : Time)
        → Step (cx, s) (record cx { msg_ref = ref; now = t }, s')
    update :
        {cx cx' : Context bus f sns} {s : State}
        → update_feedback f cx ≡ returned cx'
        → Step (cx, s) (cx', s)
    acts :
        {cx : Context bus f sns} {s : State} {o : Context bus f sns × State} (r : AchStatus)
        (expected_size frame_size : ℕ)
        → act_on bus f sns r expected_size frame_size cx s ≡ returned o
        → Step (cx, s) o
    report :
        {cx : Context bus f sns} {s : State} {o : Context bus f sns × State}
        → send_feedback f sns.seq_bits sns.set_time sns.ach_put cx s ≡ returned o
        → Step (cx, s) o
    feed :
        {cx cx' : Context bus f sns} {s s' : State} (can : CanFrame)
        → feedback_frame can cx ≡ returned cx'
        → Step (cx, s) (cx', s')

  pub data Reaches : Context bus f sns × State → Context bus f sns × State → Type 0 where
    stay : {a : Context bus f sns × State} → Reaches a a
    goes : {a b c : Context bus f sns × State} → Reaches a b → Step b c → Reaches a c

  validate-Safe :
      (expected_size frame_size : ℕ) (cx : Context bus f sns) (s : State)
      (o : Context bus f sns × State)
      → validate bus f sns expected_size frame_size cx s ≡ returned o
      → Safe cx
      → Safe o.0
  unfolding validate
  validate-Safe m n cx s o h safe = elim (Bool-cases (sns.check_size cx.msg_ref n && n == m)) [
    | inl t ↦ process-Safe bus f sns.is_expired cx s o (rw (t) at h) safe
    | inr t ↦ subst (λ (q : Context bus f sns × State). Safe q.0) (returned_inj (rw (t) at h)) safe
  ]

  act_on-Safe :
      (r : AchStatus) (expected_size frame_size : ℕ) (cx : Context bus f sns) (s : State)
      (o : Context bus f sns × State)
      → act_on bus f sns r expected_size frame_size cx s ≡ returned o
      → Safe cx
      → Safe o.0
  unfolding act_on
  act_on-Safe ach_timeout m n cx s o h safe =
      elim (Bool-cases (sns.is_expired cx.msg_ref.header cx.now)) [
        | inl t ↦ halt-Safe bus true cx s o (rw (t) at h)
        | inr t ↦ validate-Safe m n cx s o (rw (t) at h) safe
      ]
  act_on-Safe ach_missed_frame m n cx s o h safe = validate-Safe m n cx s o h safe
  act_on-Safe ach_ok m n cx s o h safe = validate-Safe m n cx s o h safe
  act_on-Safe ach_bug m n cx s o h safe = absurd (cc)
  act_on-Safe ach_corrupt m n cx s o h safe = absurd (cc)
  act_on-Safe ach_canceled m n cx s o h safe =
      subst (λ (q : Context bus f sns × State). Safe q.0) (returned_inj h) safe
  act_on-Safe ach_stale_frames m n cx s o h safe =
      subst (λ (q : Context bus f sns × State). Safe q.0) (returned_inj h) safe
  act_on-Safe (ach_other k) m n cx s o h safe =
      subst (λ (q : Context bus f sns × State). Safe q.0) (returned_inj h) safe

  Step-Safe : (a b : Context bus f sns × State) → Step a b → Safe a.0 → Safe b.0
  Step-Safe (cx, s) _ (fetch ref t) safe = safe
  Step-Safe (cx, s) _ (update {cx' = cx'} e) safe = update_feedback-Safe f cx cx' e safe
  Step-Safe (cx, s) o (acts r m n e) safe = act_on-Safe r m n cx s o e safe
  Step-Safe (cx, s) o (report e) safe =
      send_feedback-Safe f sns.seq_bits sns.set_time sns.ach_put cx s o e safe
  Step-Safe (cx, s) _ (feed {cx' = cx'} can e) safe = feedback_frame-Safe can cx cx' e safe

  Reaches-Safe : (a b : Context bus f sns × State) → Reaches a b → Safe a.0 → Safe b.0
  Reaches-Safe a _ stay safe = safe
  Reaches-Safe a c (goes {b = b} r st) safe = Step-Safe b c st (Reaches-Safe a b r safe)

  -- A daemon that starts with the halt flag set, as `main` starts it, and whose messages and frames
  -- come in any order, has no halted drive in its set whenever the flag is false, whatever words
  -- could not be sent on the way.
  pub daemon-Safe :
      (a b : Context bus f sns × State)
      → Reaches a b
      → a.0.is_halt ≡ true
      → b.0.is_halt ≡ false
      → FirstAll Unhalted b.0.count b.0.drives
  daemon-Safe a b r started = Reaches-Safe a b r (λ off. absurd (ground (arith, off, started)))

  Reaches-trans : {a b c : Context bus f sns × State} → Reaches a b → Reaches b c → Reaches a c
  Reaches-trans r stay = r
  Reaches-trans r (goes q st) = goes (Reaches-trans r q) st

  get_msg-Reaches :
      (chan : Chan) (timeout : Time) (cx : Context bus f sns) (s : State)
      (o : Context bus f sns × State)
      → get_msg bus f sns chan timeout cx s ≡ returned o
      → Reaches (cx, s) o
  unfolding get_msg
  get_msg-Reaches chan timeout cx s o h =
      let got = sns.ach_get s chan (sns.size_n cx.count) timeout cx.msg_ref in
      let t = time_of bus f sns got.0 timeout got.3 in
      let cx0 : Context bus f sns = record cx { msg_ref = got.1; now = t.0 } in
      let (cx1, e, h1) = >>=-eq-returned (update_feedback f cx0) _ h in
      goes
        (goes (goes stay (fetch {cx = cx} {s = s} {s' = t.1} got.1 t.0))
          (update {cx = cx0} {cx' = cx1} {s = t.1} e))
        (acts {cx = cx1} {s = t.1} {o = o} got.0 (sns.size_n cx.count) got.2 h1)

  -- A round of the main loop is a sequence of such steps.
  pub round-Reaches :
      (chan : Chan) (event : Option Chan) (cx : Context bus f sns) (s : State)
      (o : Context bus f sns × State)
      → round bus f sns chan event cx s ≡ returned o
      → Reaches (cx, s) o
  unfolding round
  round-Reaches chan none cx s o h =
      let (o1, e, h1) = >>=-eq-returned (get_msg bus f sns chan (sns.time_add cx.now) cx s) _ h in
      goes (get_msg-Reaches chan (sns.time_add cx.now) cx s o1 e) (report {cx = o1.0} {s = o1.1} h1)
  round-Reaches chan (some c) cx s o h =
      let (o1, e, h1) = >>=-eq-returned (get_msg bus f sns chan (sns.time_add cx.now) cx s) _ h in
      let (o2, e2, h2) =
        >>=-eq-returned (get_msg bus f sns c (sns.time_add cx.now) o1.0 o1.1) _ h1 in
      goes
        (Reaches-trans (get_msg-Reaches chan (sns.time_add cx.now) cx s o1 e)
          (get_msg-Reaches c (sns.time_add cx.now) o1.0 o1.1 o2 e2))
        (report {cx = o2.0} {s = o2.1} h2)
