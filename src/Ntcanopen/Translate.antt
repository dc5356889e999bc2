-- ===== src/Ntcanopen/Translate.antt =====
-- The legacy client's command byte and messages: the command is the byte of the newer library, and
-- a message is read back from its translation.
use socanmatic.Base.{
  ℕ, ◌+◌, ◌-◌, ◌*◌, ◌/◌, ◌%◌, ◌^◌, ◌<◌, ◌≤◌, ◌≡◌, refl, Bool, true, false, not, ltb, leb, ◌==◌,
  ◌&&◌, ◌||◌, Bool-cases, inl, inr, if◌then◌else◌, arith,
}
use socanmatic.Run.{assert_failed, returned, ◌>>=◌}
use socanmatic.Ntcan.{Cmsg}
use socanmatic.Ntcanopen.{NtSdo, filled, translate_sdo, translate_can, can_open_command}
use socanmatic.Sdo.Command.{sdo2can_cmd_ex}

-- What `canOpenCommand` asserts: `n` has two bits, and is 0 unless `e` and `s` are set.
abbrev pub allowed : ℕ → ℕ → ℕ → Bool
allowed n e s = leb n 3 && ((not (e == 0) && not (s == 0)) || n == 0)

-- For every command specifier and all flags, `canOpenCommand` computes the byte that
-- `canmat_sdo2can_cmd_ex` stores for the same fields, or fails an assertion exactly where the
-- fields are not allowed.
pub can_open_command-eq-sdo2can_cmd_ex :
    (cs n e s : ℕ)
    → can_open_command cs n e s ≡ (
        if allowed n e s
        then returned (sdo2can_cmd_ex (record { s = s; e = e; n = n; x = 0; cs = cs }))
        else assert_failed)
unfolding can_open_command sdo2can_cmd_ex
can_open_command-eq-sdo2can_cmd_ex cs n e s = ground arith

-- Every field is in the range of its C type, at most four bytes are data, and the bytes after them
-- are 0.
pub record IsNtSdo (m : NtSdo) : Type 0 where
  pub index_in : m.index < 2 ^ 16
  pub node_in : m.node < 2 ^ 8
  pub length_in : m.length ≤ 4
  pub rest0 : m.length ≤ 0 → m.b0 ≡ 0
  pub rest1 : m.length ≤ 1 → m.b1 ≡ 0
  pub rest2 : m.length ≤ 2 → m.b2 ≡ 0
  pub rest3 : m.length ≤ 3 → m.b3 ≡ 0

filled-eq : (n i x : ℕ) → (n ≤ i → x ≡ 0) → filled n i x ≡ x
filled-eq n i x h = elim (Bool-cases (ltb i n)) [
  | inl t ↦ ground (arith, t)
  | inr t ↦ ground (arith, t, h (ground (arith, t)))
]

-- The frame of a message in range.
frame_of : NtSdo → Bool → Cmsg
frame_of m r = record {
  id = if r then 0x580 + m.node else 0x600 + m.node;
  len = m.length + 4;
  b0 = m.command;
  b1 = m.index % 2 ^ 8;
  b2 = m.index / 2 ^ 8 % 2 ^ 8;
  b3 = m.subindex;
  b4 = m.b0;
  b5 = m.b1;
  b6 = m.b2;
  b7 = m.b3;
}

translate_sdo-eq : (m : NtSdo) (r : Bool) → IsNtSdo m → translate_sdo m r ≡ returned (frame_of m r)
unfolding translate_sdo frame_of
translate_sdo-eq m r h =
    let short : ltb 4 m.length ≡ false = ground (arith, h.length_in) in
    rw
      (
        short,
        filled-eq m.length 0 m.b0 h.rest0,
        filled-eq m.length 1 m.b1 h.rest1,
        filled-eq m.length 2 m.b2 h.rest2,
        filled-eq m.length 3 m.b3 h.rest3,
      )
      refl

node_back :
    (node : ℕ) (r : Bool)
    → node < 2 ^ 8
    → ((if r then 0x580 + node else 0x600 + node) + 2 ^ 32 - (if not r then 0x600 else 0x580))
        % 2 ^ 8
      ≡ node
node_back node true h = omega arith
node_back node false h = omega arith

read_back :
    (dst m : NtSdo) (r : Bool)
    → IsNtSdo m
    → translate_can dst (frame_of m r) (not r) ≡ returned (record m { is_amc = dst.is_amc })
unfolding translate_can frame_of
read_back dst m r h =
    let fits : ltb 8 (m.length + 4) ≡ false = ground (arith, h.length_in) in
    let short : ltb 4 m.length ≡ false = ground (arith, h.length_in) in
    let back : (m.length + 4 + 2 ^ 8 - 4) % 2 ^ 8 ≡ m.length = omega (arith, h.length_in) in
    let idx : (m.index % 2 ^ 8 + m.index / 2 ^ 8 % 2 ^ 8 * 2 ^ 8) % 2 ^ 16 ≡ m.index =
      omega (arith, h.index_in) in
    rw
      (
        fits,
        back,
        short,
        idx,
        node_back m.node r h.node_in,
        filled-eq m.length 0 m.b0 h.rest0,
        filled-eq m.length 1 m.b1 h.rest1,
        filled-eq m.length 2 m.b2 h.rest2,
        filled-eq m.length 3 m.b3 h.rest3,
      )
      refl

-- A message with an index of 16 bits, a node of 8 bits, at most four bytes of data, and 0 in the bytes
-- after these, that is translated and translated back is itself, whatever `*dst` held, but for the
-- `is_amc` mark, which no frame carries.
pub translate_can-translate_sdo :
    (dst m : NtSdo) (is_response : Bool)
    → IsNtSdo m
    → (translate_sdo m is_response >>= λ msg. translate_can dst msg (not is_response))
      ≡ returned (record m { is_amc = dst.is_amc })
translate_can-translate_sdo dst m r h = rw (translate_sdo-eq m r h) (read_back dst m r h)
