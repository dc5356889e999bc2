-- ===== src/Can402/Again.antt =====
-- A reference that is repeated sends nothing (`process` of src/can402.c).
use socanmatic.Base.{
  ℕ, zero, suc, ◌≤◌, ◌≡◌, refl, sym, ap, ◌∙◌, Bool, true, false, List, [], ◌∷◌, length, arith,
  Bool-cases, inl, inr, ==-refl,
}
use mathlib.Core.Path.{subst}
use socanmatic.Base.Int.{ℤ, pos, negsuc, to_unsigned, same_int}
use socanmatic.Can.{CanFrame, Status}
use socanmatic.Bus.{Bus, is_ok}
use socanmatic.Run.{Run, returned, ◌>>=◌, >>=-eq-returned}
use socanmatic.Pdo.Send.{rpdo_send, rpdo_send_i16, bytes_of}
use socanmatic.Can402.{Double, Servo, mode_vel, Cx, each2}
use socanmatic.Can402.First.{FirstAll, map_first, length-map_first, returned_inj, each2-FirstAll}
use socanmatic.Can402.Halt.{halt_one, halt_loop, halt}
use socanmatic.Can402.Halt.Sent.{halt_as, Fits, halt-sent}
use socanmatic.Can402.Process.{
  pos_limit, next_target, with_target, drive_one, drive_all, process_mode, process,
}
use socanmatic.Can402.Safe.{Unhalted, drive_one-Unhalted, halt-Safe}

same_int_refl : (z : ℤ) → same_int z z ≡ true
same_int_refl (pos x) = ==-refl x
same_int_refl (negsuc x) = ==-refl x

module _ {A B S : Type 0} (body : A → B → S → Run (A × S)) where
  -- A loop whose body leaves alone what it made leaves alone what it made.
  each2-again :
      ((x : A) (y : B) (s : S) (o : A × S)
        → body x y s ≡ returned o
        → (t : S) → body o.0 y t ≡ returned (o.0, t))
      → (n : ℕ) (xs : List A) (ys : List B) (s : S) (r : List A × S)
      → each2 body n xs ys s ≡ returned r
      → (t : S) → (each2 body n r.0 ys t ≡ returned (r.0, t)) × (length r.0 ≡ length xs)
  unfolding each2
  each2-again again zero xs ys s r h t =
      let e : (xs, s) ≡ r = returned_inj h in (refl, ap (λ (q : List A × S). length q.0) (sym e))
  each2-again again (suc n) [] ys s r h t = absurd (cc)
  each2-again again (suc n) (x ∷ xs) [] s r h t = absurd (cc)
  each2-again again (suc n) (x ∷ xs) (y ∷ ys) s r h t =
      let (o, e, h1) = >>=-eq-returned (body x y s) _ h in
      let (rest, e2, h2) = >>=-eq-returned (each2 body n xs ys o.1) _ h1 in
      let (ih, len) = each2-again again n xs ys o.1 rest e2 t in
      subst
        (λ (q : List A × S).
          (each2 body (suc n) q.0 (y ∷ ys) t ≡ returned (q.0, t)) × (length q.0 ≡ suc (length xs)))
        (returned_inj h2) (rw (again x y s o e t, ih) refl, ap suc len)

module _ (bus : Bus) {W : Type 0} (f : Double W)
    (sent : (s : bus.State) (can : CanFrame) → is_ok (bus.send s can).0 ≡ true) where
  open bus use {State}

  drive_one-kept :
      (d : Servo W) (u : W) (z : ℤ) (t : State)
      → next_target f d u ≡ returned z
      → same_int z d.target_vel_raw ≡ true
      → drive_one bus f d u t ≡ returned (d, t)
  unfolding drive_one
  drive_one-kept d u z t e y = rw (e, y) refl

  -- The target is computed from fields that no send changes.
  next_target-with_target :
      (d : Servo W) (u : W) (z : ℤ) → next_target f (with_target d z) u ≡ next_target f d u
  unfolding next_target pos_limit
  next_target-with_target d u z = refl

  rpdo_send_i16-sent :
      (s : State) (node pdo : ℕ) (val : ℤ)
      → (r : Status × State) × (rpdo_send_i16 bus s node pdo val ≡ returned r) × (is_ok r.0 ≡ true)
  unfolding rpdo_send_i16 rpdo_send bytes_of
  rpdo_send_i16-sent s node pdo val = (_, refl, sent s _)

  -- Once a drive has its target, the same reference sends nothing.
  drive_one-again :
      (d : Servo W) (u : W) (s : State) (o : Servo W × State)
      → drive_one bus f d u s ≡ returned o
      → (t : State) → drive_one bus f o.0 u t ≡ returned (o.0, t)
  unfolding drive_one
  drive_one-again d u s o h t =
      let (z, e, h1) = >>=-eq-returned (next_target f d u) _ h in
      elim (Bool-cases (same_int z d.target_vel_raw)) [
        | inl y ↦
            subst (λ (q : Servo W × State). drive_one bus f q.0 u t ≡ returned (q.0, t))
              (returned_inj (rw (y) at h1)) (drive_one-kept d u z t e y)
        | inr n ↦
            let (r, e2, good) =
              rpdo_send_i16-sent s d.drive.node_id (to_unsigned 8 d.drive.rpdo_user) z in
            subst (λ (q : Servo W × State). drive_one bus f q.0 u t ≡ returned (q.0, t))
              (returned_inj (rw (n, e2, good) at h1))
              (drive_one-kept (with_target d z) u z t (next_target-with_target d u z ∙ e)
                (same_int_refl z))
      ]

module _ (bus : Bus) {W : Type 0} where
  open bus use {State}

  -- `halt( cx, 0 )` sends nothing when no drive is halted.
  halt_loop-idle :
      (n : ℕ) (ds : List (Servo W)) (s : State)
      → n ≤ length ds
      → FirstAll Unhalted n ds
      → halt_loop bus false n ds s ≡ returned (true, ds, s)
  unfolding halt_loop halt_one
  halt_loop-idle zero ds s h all = refl
  halt_loop-idle (suc n) [] s h all = absurd (omega arith)
  halt_loop-idle (suc n) (d ∷ ds) s h all =
      rw (all.0, halt_loop-idle n ds s (omega arith) all.1) refl

module _ (bus : Bus) {W Header Time Stamp : Type 0} (f : Double W)
    (is_expired : Header → Time → Bool)
    (sent : (s : bus.State) (can : CanFrame) → is_ok (bus.send s can).0 ≡ true) where
  open bus use {State}

  process-eq :
      (cx : Cx W Header Time Stamp) (s : State)
      → is_expired cx.msg_ref.header cx.now ≡ false
      → cx.msg_ref.mode ≡ mode_vel
      → process bus f is_expired cx s
        ≡ (halt bus false cx s >>= λ o. drive_all bus f is_expired o.0 o.1)
  unfolding process process_mode
  process-eq cx s fresh vel = rw (fresh, vel) refl

  -- The state while the drives run.
  ran : Cx W Header Time Stamp → List (Servo W) → Cx W Header Time Stamp
  ran cx ds = record cx { drives = ds; is_halt = false }

  drive_all-again :
      (cx : Cx W Header Time Stamp) (ds : List (Servo W)) (s : State)
      (o : Cx W Header Time Stamp × State)
      → cx.count ≤ length ds
      → FirstAll Unhalted cx.count ds
      → drive_all bus f is_expired (ran cx ds) s ≡ returned o
      → (t : State)
      → (ds' : List (Servo W)) × (o.0 ≡ ran cx ds')
        × ((halt bus false (ran cx ds') t >>= λ p. drive_all bus f is_expired p.0 p.1)
            ≡ returned (ran cx ds', t))
  unfolding drive_all halt ran
  drive_all-again cx ds s o h all e t =
      let (r, e1, h1) =
        >>=-eq-returned (each2 (drive_one bus f) cx.msg_ref.n ds cx.msg_ref.u s) _ e in
      let (again, len) =
        each2-again (drive_one bus f) (drive_one-again bus f sent) cx.msg_ref.n ds cx.msg_ref.u s r
          e1 t in
      let idle = halt_loop-idle bus cx.count r.0 t (omega (arith, len, h)) (
        each2-FirstAll Unhalted (drive_one bus f) (drive_one-Unhalted bus f) cx.count cx.msg_ref.n
          ds cx.msg_ref.u s r e1 all) in
      (
        r.0,
        ap (λ (q : Cx W Header Time Stamp × State). q.0) (sym (returned_inj h1)),
        rw (idle, again) refl,
      )

  -- A velocity reference that is processed again, with no feedback in between, sends no frame and
  -- changes nothing, when the frames of the first time were sent.
  pub process-again :
      (cx : Cx W Header Time Stamp) (s : State) (o : Cx W Header Time Stamp × State)
      → is_expired cx.msg_ref.header cx.now ≡ false
      → cx.msg_ref.mode ≡ mode_vel
      → cx.count ≤ length cx.drives
      → FirstAll Fits cx.count cx.drives
      → process bus f is_expired cx s ≡ returned o
      → (t : State) → process bus f is_expired o.0 t ≡ returned (o.0, t)
  unfolding ran
  process-again cx s o fresh vel h fits e t =
      let ds = map_first cx.count (halt_as false) cx.drives in
      let (s1, q) = halt-sent bus sent false cx s h fits in
      let safe = halt-Safe bus false cx s (ran cx ds, s1) q refl in
      let (ds', e1, e2) =
        drive_all-again cx ds s1 o
          (omega (arith, h, length-map_first cx.count (halt_as false) cx.drives)) safe
          (rw (process-eq cx s fresh vel, q) at e) t in
      subst (λ (c : Cx W Header Time Stamp). process bus f is_expired c t ≡ returned (c, t))
        (sym e1) (process-eq (ran cx ds') t fresh vel ∙ e2)
