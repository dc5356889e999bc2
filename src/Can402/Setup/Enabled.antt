-- ===== src/Can402/Setup/Enabled.antt =====
-- The daemon goes on only with started drives (`init` of src/can402.c).
use socanmatic.Base.{
  ℕ, zero, suc, ◌≡◌, ap, ◌∙◌, Bool, true, List, [], ◌∷◌, Bool-cases, inl, inr, arith,
}
use mathlib.Core.Path.{subst}
use socanmatic.Can.{Status}
use socanmatic.Bus.{Bus, is_ok}
use socanmatic.Run.{Run, returned, exited, >>=-eq-returned}
use socanmatic.Dict.Typed.{objects_of}
use socanmatic.Ds402.State.{on_op_en, state}
use socanmatic.Ds402.Start.{start}
use socanmatic.Ds402.Start.Enabled.{start-Enabled}
use socanmatic.Can402.{Double, Servo, Cx}
use socanmatic.Can402.First.{FirstAll, returned_inj}
use socanmatic.Can402.Halt.{stop_all}
use socanmatic.Can402.Setup.{
  each_ok, on_drive, read_one, map_control, map_feedback, set_velocity, start_one, phase, setup,
}

-- The status word that was read last is that of the state "operation enabled".
abbrev pub Started : {W : Type 0} → Servo W → Type 0
Started d = state d.drive.stat_word ≡ on_op_en

module _ {A S : Type 0} (Q : A → Type 0) (body : A → S → Run (Status × A × S)) where
  -- A loop that ended without a failure has done all its elements.
  each_ok-FirstAll :
      ((x : A) (s : S) (o : Status × A × S) → body x s ≡ returned o → is_ok o.0 ≡ true → Q o.1)
      → (n : ℕ) (xs : List A) (s : S) (r : Bool × List A × S) → each_ok body n xs s ≡ returned r
      → r.0 ≡ true
      → FirstAll Q n r.1
  unfolding each_ok
  each_ok-FirstAll does zero xs s r h good = _
  each_ok-FirstAll does (suc n) [] s r h good = absurd (cc)
  each_ok-FirstAll does (suc n) (x ∷ xs) s r h good =
      let (o, e, h1) = >>=-eq-returned (body x s) _ h in
      elim (Bool-cases (is_ok o.0)) [
        | inr off ↦ absurd (ground (arith, good, rw (off) at h1))
        | inl on ↦
            let (rest, e2, h2) =
              >>=-eq-returned (each_ok body n xs o.2) (λ q. returned (q.0, o.1 ∷ q.1, q.2))
                (rw (on) at h1) in
            let whole = returned_inj h2 in
            subst (λ (q : Bool × List A × S). FirstAll Q (suc n) q.1) whole
              (
                does x s o e on,
                each_ok-FirstAll does n xs o.2 rest e2
                    (ap (λ (q : Bool × List A × S). q.0) whole ∙ good),
              )
      ]

module _ (bus : Bus) (fuel comm : ℕ) {W : Type 0} (f : Double W)
    (stack_mode stack_min stack_max : ℕ) (margin : W) where
  open bus use {State}

  start_one-Started :
      (d : Servo W) (s : State) (o : Status × Servo W × State)
      → start_one bus fuel comm f stack_mode stack_min stack_max margin d s ≡ returned o
      → is_ok o.0 ≡ true
      → Started o.1
  unfolding start_one on_drive
  start_one-Started d s o h good =
      let (q, e, h1) = >>=-eq-returned (start (objects_of bus fuel) d.drive s) _ h in
      let whole = returned_inj h1 in
      subst (λ (p : Status × Servo W × State). Started p.1) whole
        (start-Enabled (objects_of bus fuel) d.drive s q e
          (ap (λ (p : Status × Servo W × State). is_ok p.0) whole ∙ good))

  module _ {Header Time Stamp : Type 0} where
    phase-eq-returned :
        (body : Servo W → State → Run (Status × Servo W × State)) (cx : Cx W Header Time Stamp)
        (s : State) (k : Cx W Header Time Stamp → State → Run (Cx W Header Time Stamp × State))
        (o : Cx W Header Time Stamp × State)
        → phase bus fuel comm f stack_mode stack_min stack_max margin body cx s k ≡ returned o
        → (r : Bool × List (Servo W) × State) × (each_ok body cx.count cx.drives s ≡ returned r)
          × (r.0 ≡ true)
          × (k (record cx { drives = r.1 }) r.2 ≡ returned o)
    unfolding phase
    phase-eq-returned body cx s k o h =
        let (r, e, h1) = >>=-eq-returned (each_ok body cx.count cx.drives s) _ h in
        elim (Bool-cases r.0) [
          | inl t ↦ (r, e, t, rw (t) at h1)
          | inr t ↦
              let (q, e2, h2) =
                >>=-eq-returned (stop_all bus fuel (record cx { drives = r.1 }) r.2) (λ p. exited)
                  (rw (t) at h1) in
              absurd (cc)
        ]

    -- When `init` returns, every drive of the set is in the state "operation enabled" by its last
    -- status word.
    pub setup-Started :
        (cx : Cx W Header Time Stamp) (s : State) (o : Cx W Header Time Stamp × State)
        → setup bus fuel comm f stack_mode stack_min stack_max margin cx s ≡ returned o
        → FirstAll Started o.0.count o.0.drives
    unfolding setup
    setup-Started cx s o h =
        let (r, e, h1) =
          >>=-eq-returned
            (each_ok (read_one bus fuel comm f stack_mode stack_min stack_max margin) cx.count
              cx.drives s)
            _ h in
        elim (Bool-cases r.0) [
          | inr t ↦ absurd (ground (arith, rw (t) at h1))
          | inl t ↦
              let (r1, e1, t1, h2) =
                phase-eq-returned
                  (map_control bus fuel comm f stack_mode stack_min stack_max margin)
                  (record cx { drives = r.1 }) r.2 _ o (rw (t) at h1) in
              let (r2, e2, t2, h3) =
                phase-eq-returned
                  (map_feedback bus fuel comm f stack_mode stack_min stack_max margin)
                  (record cx { drives = r1.1 }) r1.2 _ o h2 in
              let (r3, e3, t3, h4) =
                phase-eq-returned
                  (set_velocity bus fuel comm f stack_mode stack_min stack_max margin)
                  (record cx { drives = r2.1 }) r2.2 _ o h3 in
              let (r4, e4, t4, h5) =
                phase-eq-returned (start_one bus fuel comm f stack_mode stack_min stack_max margin)
                  (record cx { drives = r3.1 }) r3.2 (λ cx4 s4. returned (cx4, s4)) o h4 in
              subst (λ (q : Cx W Header Time Stamp × State). FirstAll Started q.0.count q.0.drives)
                (returned_inj h5)
                (each_ok-FirstAll Started
                  (start_one bus fuel comm f stack_mode stack_min stack_max margin)
                  start_one-Started cx.count r3.1 r3.2 r4 e4 t4)
        ]
