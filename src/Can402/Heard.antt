-- ===== src/Can402/Heard.antt =====
-- A feedback frame from the drive to the main thread's values (src/can402.c).
use socanmatic.Base.{
  ℕ, zero, suc, ◌+◌, ◌*◌, ◌^◌, ◌<◌, ◌≤◌, ◌≡◌, refl, ap, fun_ext, Bool-cases, inl, inr, ◌∙◌, Bool,
  true, List, [], ◌∷◌, length, ◌==◌, if◌then◌else◌, arith, bit_or, bit_or_disjoint,
}
use socanmatic.Base.Int.{to_signed}
use socanmatic.Can.{CanFrame}
use socanmatic.Byteorder.{stle32, ldle32}
use socanmatic.Byteorder.RoundTrip.{ldle-stle}
use socanmatic.Run.{returned, ◌>>=◌}
use socanmatic.Can402.{Double, Servo, Cx, each}
use socanmatic.Can402.First.{map_first, map_first-twice, length-map_first}
use socanmatic.Can402.Feedback.{
  tpdo_cobid, is_tpdo, low_half, high_half, take_raw, feedback_frame, convert, update_feedback,
}

-- The frame in which node `node` reports a position and a velocity by its TPDO `num`.
abbrev pub report_frame : ℕ → ℕ → ℕ → ℕ → CanFrame
report_frame node num p v =
    let low = stle32 p in
    let high = stle32 v in
    record {
      can_id = tpdo_cobid node num;
      can_dlc = 8;
      d0 = low.q0;
      d1 = low.q1;
      d2 = low.q2;
      d3 = low.q3;
      d4 = high.q0;
      d5 = high.q1;
      d6 = high.q2;
      d7 = high.q3;
    }

-- What a drive holds after a report: the drives with its COB-ID have the reported values.
abbrev pub reported : {W : Type 0} → ℕ → ℕ → ℕ → ℕ → Servo W → Servo W
reported node num p v d =
    if tpdo_cobid d.drive.node_id d.tpdo_user == tpdo_cobid node num
    then record d { actual_pos_raw = to_signed 32 p; actual_vel_raw = to_signed 32 v }
    else d

tpdo_cobid-eq : (node num : ℕ) → node < 128 → tpdo_cobid node num ≡ 384 + num * 256 + node
unfolding tpdo_cobid
tpdo_cobid-eq node num h =
    let shape : bit_or (384 + num * 2 ^ 8) node ≡ bit_or ((3 + num * 2) * 2 ^ 7) node =
      ap (λ x. bit_or x node) (omega arith) in
    shape ∙ (bit_or_disjoint 7 (3 + num * 2) node h ∙ omega arith)

each-pure :
    {A : Type 0} (g : A → A) (n : ℕ) (xs : List A) (s : Bool)
    → n ≤ length xs
    → each (λ x t. returned (g x, t)) n xs s ≡ returned (map_first n g xs, s)
unfolding each
each-pure g zero xs s h = refl
each-pure g (suc n) [] s h = absurd (omega arith)
each-pure g (suc n) (x ∷ xs) s h = rw (each-pure g n xs s (omega arith)) refl

take_raw-reported :
    {W : Type 0} (node num p v : ℕ) (d : Servo W)
    → p < 2 ^ 32
    → v < 2 ^ 32
    → take_raw (report_frame node num p v) d ≡ reported node num p v d
unfolding take_raw
take_raw-reported node num p v d hp hv =
    let low : ldle32 (low_half (report_frame node num p v)) ≡ p =
      (ldle-stle p 0 hp (omega arith)).0 in
    let high : ldle32 (high_half (report_frame node num p v)) ≡ v =
      (ldle-stle v 0 hv (omega arith)).0 in
    elim (Bool-cases (tpdo_cobid d.drive.node_id d.tpdo_user == tpdo_cobid node num)) [
      | inl t ↦ rw (t, low, high) refl
      | inr t ↦ rw (t) refl
    ]

-- The identifier is in the range of the TPDOs.
report-Tpdo :
    (node num p v : ℕ) → node < 128 → num < 256 → is_tpdo (report_frame node num p v) ≡ true
report-Tpdo node num p v hn hk =
    rw
      (
        tpdo_cobid-eq node num hn,
        tpdo_cobid-eq 0 0 (omega arith),
        tpdo_cobid-eq 0x7F 0xFF (omega arith),
      )
      (ground arith)

module _ {W Header Time Stamp : Type 0} (f : Double W) where
  -- A report of a node by one of its TPDOs reaches the drives with that COB-ID, at the values that
  -- were reported, and no others; the main thread then converts the values of all drives of the
  -- set.
  pub update_feedback-feedback_frame :
      (node num p v : ℕ) (cx : Cx W Header Time Stamp)
      → node < 128
      → num < 256
      → p < 2 ^ 32
      → v < 2 ^ 32
      → cx.count ≤ length cx.drives
      → (feedback_frame (report_frame node num p v) cx >>= λ cx1. update_feedback f cx1)
        ≡ returned (record cx {
          drives = map_first cx.count (λ d. convert f (reported node num p v d)) cx.drives;
        })
  unfolding feedback_frame update_feedback
  update_feedback-feedback_frame node num p v cx hn hk hp hv h =
      let same_take : ◌≡◌ {A = Servo W → Servo W} (take_raw (report_frame node num p v))
          (reported node num p v) =
        fun_ext (λ d. take_raw-reported node num p v d hp hv) in
      let ds = map_first cx.count (reported node num p v) cx.drives in
      let heard = each-pure (take_raw (report_frame node num p v)) cx.count cx.drives true h in
      let converted =
        each-pure (convert f) cx.count ds true
          (omega (arith, h, length-map_first cx.count (reported node num p v) cx.drives)) in
      rw
        (
          report-Tpdo node num p v hn hk,
          heard,
          same_take,
          converted,
          map_first-twice cx.count (convert f) (reported node num p v) cx.drives,
        )
        refl
