-- ===== src/Can402/Halt/Sent.antt =====
-- What `halt` does when the words that it sends are sent (src/can402.c).
use socanmatic.Base.{
  ℕ, zero, suc, ◌+◌, ◌*◌, ◌/◌, ◌%◌, ◌^◌, ◌<◌, ◌≤◌, ◌≡◌, refl, ap, ◌∙◌, sym, Bool, true, false, same,
  same-eq, List, [], ◌∷◌, length, ◌==◌, ==→eq, if◌then◌else◌, arith, bit_and, bit_or, bit_and_high,
  bit_and_low, bit_and_split, bit_or_split, bit_or-zero, all_below, all_below-holds, Bool-cases,
  inl, inr,
}
use socanmatic.Base.Int.{to_unsigned}
use socanmatic.Can.{CanFrame, Status}
use socanmatic.Bus.{Bus, is_ok}
use socanmatic.Run.{returned}
use socanmatic.Pdo.Send.{rpdo_send, rpdo_send_u16, bytes_of}
use socanmatic.Ds402.OpMode.{is_halted}
use socanmatic.Can402.{Servo, Cx}
use socanmatic.Can402.First.{FirstAll, map_first}
use socanmatic.Can402.Halt.{halt_word, with_ctrl, halt_one, halt_loop, halt}
use socanmatic.Can402.Halt.Word.{has_halt}

-- The word `w` with bit 8 replaced by `b`.
abbrev pub halt_at : Bool → ℕ → ℕ
halt_at b w = w / 2 ^ 9 * 2 ^ 9 + (if b then 2 ^ 8 else 0) + w % 2 ^ 8

or_table : all_below 256 (λ x. bit_or x 1 == x / 2 * 2 + 1) ≡ true
unfolding all_below
or_table = refl

and_table : all_below 256 (λ x. bit_and x 0xFE == x / 2 * 2) ≡ true
unfolding all_below
and_table = refl

halt_word-eq : (b : Bool) (w : ℕ) → w < 2 ^ 16 → halt_word b w ≡ halt_at b w
unfolding halt_word
halt_word-eq true w h =
    let q = w / 2 ^ 8 in
    let put : bit_or q 1 ≡ q / 2 * 2 + 1 =
      ==→eq _ _ (all_below-holds 256 (λ x. bit_or x 1 == x / 2 * 2 + 1) or_table q (omega arith)) in
    let parts : bit_or w 256 ≡ bit_or (q * 2 ^ 8 + w % 2 ^ 8) (1 * 2 ^ 8 + 0) =
      ap (λ x. bit_or x 256) (omega arith) in
    let sum : bit_or w 256 ≡ bit_or q 1 * 2 ^ 8 + bit_or (w % 2 ^ 8) 0 =
      parts ∙ bit_or_split 8 q (w % 2 ^ 8) 1 0 (omega arith) (omega arith) in
    omega (arith, h, put, sum, bit_or-zero (w % 2 ^ 8))
halt_word-eq false w h =
    let q = w / 2 ^ 8 in
    let put : bit_and q 0xFE ≡ q / 2 * 2 =
      ==→eq _ _
        (all_below-holds 256 (λ x. bit_and x 0xFE == x / 2 * 2) and_table q (omega arith)) in
    let parts : bit_and w 0xFEFF ≡ bit_and (q * 2 ^ 8 + w % 2 ^ 8) (0xFE * 2 ^ 8 + 0xFF) =
      ap (λ x. bit_and x 0xFEFF) (omega arith) in
    let sum : bit_and w 0xFEFF ≡ bit_and q 0xFE * 2 ^ 8 + bit_and (w % 2 ^ 8) 0xFF =
      parts ∙ bit_and_split 8 q (w % 2 ^ 8) 0xFE 0xFF (omega arith) (omega arith) in
    omega (arith, h, put, sum, bit_and_low 8 (w % 2 ^ 8))

has_halt-eq : (w : ℕ) → has_halt w ≡ (w / 2 ^ 8 % 2 == 1)
has_halt-eq w = ground (arith, bit_and_high 8 w 1, bit_and_low 1 (w / 2 ^ 8))

halt_at-same : (b : Bool) (w : ℕ) → has_halt w ≡ b → halt_at b w ≡ w
halt_at-same true w h = ground (arith, h, has_halt-eq w)
halt_at-same false w h = ground (arith, h, has_halt-eq w)

-- A drive whose control word has bit 8 replaced by `b`.
abbrev pub halt_as : {W : Type 0} → Bool → Servo W → Servo W
halt_as b d = with_ctrl d (halt_at b d.drive.ctrl_word)

-- The control word is a `uint16_t`.
abbrev pub Fits : {W : Type 0} → Servo W → Type 0
Fits d = d.drive.ctrl_word < 2 ^ 16

module _ (bus : Bus)
    (sent : (s : bus.State) (can : CanFrame) → is_ok (bus.send s can).0 ≡ true) where
  open bus use {State}

  rpdo_send-sent :
      (s : State) (node pdo val : ℕ)
      → (r : Status × State) × (rpdo_send_u16 bus s node pdo val ≡ returned r) × (is_ok r.0 ≡ true)
  unfolding rpdo_send_u16 rpdo_send bytes_of
  rpdo_send-sent s node pdo val = (_, refl, sent s _)

module _ (bus : Bus) {W : Type 0}
    (sent : (s : bus.State) (can : CanFrame) → is_ok (bus.send s can).0 ≡ true) where
  open bus use {State}

  halt_one-sent :
      (b : Bool) (d : Servo W) (s : State)
      → Fits d
      → (s' : State) × (halt_one bus b d s ≡ returned (true, halt_as b d, s'))
  unfolding halt_one
  halt_one-sent b d s fits = elim (Bool-cases (same b (is_halted d.drive))) [
    | inl t ↦
        (s, rw (t, halt_at-same b d.drive.ctrl_word (sym (same-eq b (is_halted d.drive) t))) refl)
    | inr t ↦
        let (r, e, good) =
          rpdo_send-sent bus sent s d.drive.node_id (to_unsigned 8 d.rpdo_ctrl)
            (halt_word b d.drive.ctrl_word) in
        (r.1, rw (t, e, good, halt_word-eq b d.drive.ctrl_word fits) refl)
  ]

  halt_loop-sent :
      (b : Bool) (n : ℕ) (ds : List (Servo W)) (s : State)
      → n ≤ length ds
      → FirstAll Fits n ds
      → (s' : State) × (halt_loop bus b n ds s ≡ returned (true, map_first n (halt_as b) ds, s'))
  unfolding halt_loop
  halt_loop-sent b zero ds s h all = (s, refl)
  halt_loop-sent b (suc n) [] s h all = absurd (omega arith)
  halt_loop-sent b (suc n) (d ∷ ds) s h all =
      let (s1, e) = halt_one-sent b d s all.0 in
      let (s2, e2) = halt_loop-sent b n ds s1 (omega arith) all.1 in (s2, rw (e, e2) refl)

  -- When every frame is sent, `halt` sets or clears the halt bit in the control word of each drive
  -- of the set and changes nothing else but the flag, which it sets to its argument.
  pub halt-sent :
      {Header Time Stamp : Type 0} (b : Bool) (cx : Cx W Header Time Stamp) (s : State)
      → cx.count ≤ length cx.drives
      → FirstAll Fits cx.count cx.drives
      → (s' : State) × (halt bus b cx s
          ≡ returned
              (record cx { drives = map_first cx.count (halt_as b) cx.drives; is_halt = b }, s'))
  unfolding halt
  halt-sent b cx s h all =
      let (s1, e) = halt_loop-sent b cx.count cx.drives s h all in (s1, rw (e) refl)
