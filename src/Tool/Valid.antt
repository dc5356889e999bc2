-- ===== src/Tool/Valid.antt =====
-- What the command `send` (src/canmat.c) puts on the bus.
use Prim.Native.String.{String}
use mathlib.Core.Path.{subst}
use socanmatic.Base.{
  ℕ, suc, ◌+◌, ◌%◌, ◌^◌, ◌≤◌, ◌<◌, ◌≡◌, refl, inl, inr, Bool, true, false, not, List, [], ◌∷◌,
  length, arith, Bool-cases, leb, ◌==◌, if◌then◌else◌,
}
use socanmatic.Bus.{is_ok}
use socanmatic.Can.{CanFrame, IsFrame}
use socanmatic.Out.{Arg, dump_frame}
use socanmatic.Run.{Run, returned, >>=-eq-returned, returned_inj}
use socanmatic.Tool.{
  Host, Settings, World, hard_assert, parse_u, parse_uhex, send_frame, send_each, verbf,
}
use socanmatic.Tool.Send.{parse_data, parse_frame, put_data_byte, cmd_send}

-- What passes a `hard_assert` passed its test.
pub hard_assert-eq-returned :
    {A : Type 0} (test : Bool) (k : Run A) (a : A)
    → hard_assert test k ≡ returned a
    → (test ≡ true) × (k ≡ returned a)
hard_assert-eq-returned true k a h = (refl, h)
hard_assert-eq-returned false k a h = absurd (cc)

-- A number that is accepted is at most the maximum.
pub parse_u_bound :
    (strtoul : List ℕ → ℕ → ℕ × Bool) (arg : List ℕ) (base max u : ℕ)
    → parse_u strtoul arg base max ≡ returned u
    → u ≤ max
unfolding parse_u
parse_u_bound strtoul arg base max u h =
    let (_, h1) = hard_assert-eq-returned (not (strtoul arg base).1) _ u h in
    let (fits, h2) = hard_assert-eq-returned (leb (strtoul arg base).0 max) _ u h1 in
    let same = returned_inj h2 in ground (arith, fits, same)

pub parse_uhex_bound :
    (strtoul : List ℕ → ℕ → ℕ × Bool) (arg : List ℕ) (max u : ℕ)
    → parse_uhex strtoul arg max ≡ returned u
    → u ≤ max
unfolding parse_uhex
parse_uhex_bound strtoul arg max u h = parse_u_bound strtoul arg 16 max u h

-- The world that a message leaves has the same state.
pub verbf_after :
    {State : Type 0} (verbosity level : ℕ) (format : String) (args : List Arg) (w : World State)
    → (verbf verbosity level format args w).after ≡ w.after
unfolding verbf
verbf_after verbosity level format args w = elim (Bool-cases (leb level verbosity)) [
  | inl a ↦ rw (a, verbf) refl
  | inr a ↦ rw (a, verbf) refl
]

-- A frame with a standard identifier and at most eight bytes.
abbrev pub IsStandard : CanFrame → Type 0
IsStandard f = (f.can_id ≤ 0x7FF) × (f.can_dlc ≤ 8)

-- A byte that is stored, or not, is a byte.
chosen : (b : Bool) (v old : ℕ) → v < 256 → old < 256 → (if b then v else old) < 256
chosen true v old h k = h
chosen false v old h k = k

put_data_byte-IsFrame :
    (can : CanFrame) (i v : ℕ) → IsFrame can → v < 256 → IsFrame (put_data_byte can i v)
put_data_byte-IsFrame can i v f h = record {
  id_in = f.id_in;
  dlc_in = f.dlc_in;
  d0_in = chosen (i == 0) v can.d0 h f.d0_in;
  d1_in = chosen (i == 1) v can.d1 h f.d1_in;
  d2_in = chosen (i == 2) v can.d2 h f.d2_in;
  d3_in = chosen (i == 3) v can.d3 h f.d3_in;
  d4_in = chosen (i == 4) v can.d4 h f.d4_in;
  d5_in = chosen (i == 5) v can.d5 h f.d5_in;
  d6_in = chosen (i == 6) v can.d6 h f.d6_in;
  d7_in = chosen (i == 7) v can.d7 h f.d7_in;
}

-- The identifier and the length are not changed by the parsing of the data.
module _ (h : Host) (cfg : Settings) where
  open h use {State, strtoul}

  parse_data_keeps :
      (args : List (List ℕ)) (i : ℕ) (can f : CanFrame)
      → parse_data h cfg args i can ≡ returned f
      → IsFrame can
      → (f.can_id ≡ can.can_id) × (f.can_dlc ≡ can.can_dlc) × IsFrame f
  unfolding parse_data
  parse_data_keeps [] i can f e v =
      subst (λ (x : CanFrame). (x.can_id ≡ can.can_id) × (x.can_dlc ≡ can.can_dlc) × IsFrame x)
        (returned_inj e) (refl, refl, v)
  parse_data_keeps (arg ∷ args) i can f e v =
      let (u, got, rest) = >>=-eq-returned (parse_uhex strtoul arg 0xFF) _ e in
      parse_data_keeps args (suc i) (put_data_byte can i (u % 2 ^ 8)) f rest
        (put_data_byte-IsFrame can i (u % 2 ^ 8) v (omega arith))

  -- The frame made of the arguments is a standard frame, whatever its unwritten bytes held.
  pub parse_frame-IsStandard :
      (args : List (List ℕ)) (can f : CanFrame)
      → parse_frame h cfg args can ≡ returned f
      → IsFrame can
      → IsStandard f × IsFrame f × (f.can_dlc + 1 ≡ length args)
  unfolding parse_frame
  parse_frame-IsStandard [] can f e v = absurd (cc)
  parse_frame-IsStandard (id ∷ bytes) can f e v =
      let (few, e1) = hard_assert-eq-returned (leb (length bytes) 8) _ f e in
      let (u, got, rest) = >>=-eq-returned (parse_uhex strtoul id 0x7FF) _ e1 in
      let bound = parse_uhex_bound strtoul id 0x7FF u got in
      let short : length bytes ≤ 8 = ground (arith, few) in
      let start : CanFrame = record can { can_id = u % 2 ^ 16; can_dlc = length bytes % 2 ^ 8 } in
      let start_in : IsFrame start = record {
        id_in = omega arith;
        dlc_in = omega arith;
        d0_in = v.d0_in;
        d1_in = v.d1_in;
        d2_in = v.d2_in;
        d3_in = v.d3_in;
        d4_in = v.d4_in;
        d5_in = v.d5_in;
        d6_in = v.d6_in;
        d7_in = v.d7_in;
      } in
      let (same_id, same_dlc, f_in) = parse_data_keeps bytes 0 start f rest start_in in
      (
        (omega (arith, same_id, bound), omega (arith, same_dlc, short)),
        f_in,
        omega (arith, same_dlc, short),
      )

  send_each_keeps :
      (P : State → Type 0) (can : CanFrame)
      → ((i : ℕ) (s : State) → P s → P (h.send i s can).1)
      → (names : List (List ℕ)) (i : ℕ) (w : World State) → P w.after
      → P (send_each h cfg names i can w).after
  unfolding send_each
  send_each_keeps P can k [] i w p = p
  send_each_keeps P can k (n ∷ names) i w p = elim (Bool-cases (is_ok (h.send i w.after can).0)) [
    | inl a ↦ rw (a, send_each) (send_each_keeps P can k names (suc i) _ (k i w.after p))
    | inr a ↦ rw (a, send_each) (send_each_keeps P can k names (suc i) _ (k i w.after p))
  ]

  send_frame_keeps :
      (P : State → Type 0) (can : CanFrame)
      → ((i : ℕ) (s : State) → P s → P (h.send i s can).1)
      → (w o : World State) → P w.after
      → send_frame h cfg can w ≡ returned o
      → P o.after
  unfolding send_frame
  send_frame_keeps P can k w o p e = elim (Bool-cases (cfg.verbosity == 0)) [
    | inl quiet ↦
        subst (λ (x : World State). P x.after) (returned_inj (rw (quiet, send_frame) at e))
          (send_each_keeps P can k cfg.names 0 w p)
    | inr loud ↦
        let (out, got, rest) = >>=-eq-returned (dump_frame can) _ (rw (loud, send_frame) at e) in
        subst (λ (x : World State). P x.after) (returned_inj rest)
          (send_each_keeps P can k cfg.names 0 _
            (rw (verbf_after cfg.verbosity 1 "Sending " [] w) p))
  ]

  -- The tool sends standard frames only: a property of the interfaces that sending a frame keeps,
  -- when the frame has an identifier of at most 0x7FF, at most eight bytes and every field in range,
  -- still holds when the command `send` returns, whatever its arguments and the drivers' answers.
  pub cmd_send-Keeps :
      (P : State → Type 0)
      → ((i : ℕ) (s : State) (f : CanFrame) → IsStandard f → IsFrame f → P s → P (h.send i s f).1)
      → (args : List (List ℕ)) (w o : World State) → IsFrame (h.stack_frame w.after)
      → P w.after
      → cmd_send h cfg args w ≡ returned o
      → P o.after
  unfolding cmd_send
  cmd_send-Keeps P k args w o stack p e =
      let (f, parsed, sent) =
        >>=-eq-returned (parse_frame h cfg args (h.stack_frame w.after)) _ e in
      let (standard, f_in, _) =
        parse_frame-IsStandard args (h.stack_frame w.after) f parsed stack in
      send_frame_keeps P f (λ i s q. k i s f standard f_in q) w o p sent
