-- ===== src/Ntcanopen/Answer.antt =====
-- What an upload of the legacy client returns: the value of the node's answer, or, when its
-- request is not sent, what was on the stack.
use socanmatic.Base.{
  ℕ, zero, suc, ◌+◌, ◌-◌, ◌*◌, ◌/◌, ◌%◌, ◌^◌, ◌<◌, ◌≤◌, ◌≡◌, refl, true, false, ltb, ◌==◌,
  Bool-cases, inl, inr, if◌then◌else◌, bit_or, bit_or_low_high, zero-bit_or, arith, Option, some,
}
use socanmatic.Run.{assert_failed, returned, ◌>>=◌}
use socanmatic.Ntcan.{Cmsg, Ntcan, NtResult, success, is_success}
use socanmatic.Ntcanopen.{
  can_open_command, NtSdo, filled, nt_req_id, nt_resp_id, translate_sdo, translate_can, get_uint16,
}
use socanmatic.Ntcanopen.Exchange.{
  stored_cmd, put_sdo_ul_args, write_sdo, wait_loop, wait_sdo, sdo_write_wait, fetched, end_ul,
  ul_u16_amc,
}

module _ (nt : Ntcan) where
  open nt use {State, can_write, can_read}

  -- Reads from `s` over `msg` pass `n` messages of other identifiers and then give `got`.
  pub data Awaits (id : ℕ) : State → Cmsg → ℕ → Cmsg → State → Type 0 where
    arrives :
        {s s' : State} {msg got : Cmsg}
        → can_read s msg ≡ (success, got, s')
        → got.id ≡ id
        → Awaits id s msg 0 got s'
    passes :
        {s s' s'' : State} {msg other got : Cmsg} {n : ℕ}
        → can_read s msg ≡ (success, other, s')
        → (other.id == id) ≡ false
        → Awaits id s' other n got s''
        → Awaits id s msg (suc n) got s''

  wait_loop-got :
      (fuel id : ℕ) (s s' : State) (msg got : Cmsg) (n : ℕ)
      → Awaits id s msg n got s'
      → n < fuel
      → wait_loop nt fuel id s msg ≡ returned (success, some got, s')
  unfolding wait_loop
  wait_loop-got zero id s s' msg got n a h = absurd (omega arith)
  wait_loop-got (suc fuel) id s s' msg got n (arrives e q) h = ground (arith, e, q)
  wait_loop-got (suc fuel) id s s' msg got (suc n) (passes {s' = t} {other} e q a) h =
      ground (arith, e, q, wait_loop-got fuel id t s' other got n a (omega arith))

-- The request of an upload, as it is written.
abbrev pub ul_frame : ℕ → ℕ → ℕ → ℕ → Cmsg
ul_frame node index subindex is_amc = record {
  id = nt_req_id node;
  len = if is_amc == 1 then 8 else 4;
  b0 = 66;
  b1 = index % 2 ^ 8;
  b2 = index / 2 ^ 8 % 2 ^ 8;
  b3 = subindex;
  b4 = 0;
  b5 = 0;
  b6 = 0;
  b7 = 0;
}

-- The request that the arguments of an upload make.
ul_request : NtSdo → ℕ → ℕ → ℕ → NtSdo
ul_request sdo node index subindex = record sdo {
  command = 66;
  node = node;
  index = index;
  subindex = subindex;
  length = 0;
}

put_sdo_ul_args-eq :
    (sdo : NtSdo) (node index subindex : ℕ)
    → put_sdo_ul_args sdo node index subindex ≡ returned (ul_request sdo node index subindex)
unfolding put_sdo_ul_args can_open_command ul_request
put_sdo_ul_args-eq sdo node index subindex = refl

module _ (nt : Ntcan) where
  open nt use {State, can_write, can_read, stack_cmsg}

  write_sdo-ul :
      (s : State) (sdo : NtSdo) (node index subindex : ℕ)
      → write_sdo nt s (ul_request sdo node index subindex)
        ≡ returned (can_write s (ul_frame node index subindex sdo.is_amc))
  unfolding write_sdo translate_sdo ul_request
  write_sdo-ul s sdo node index subindex = elim (Bool-cases (sdo.is_amc == 1)) [
    | inl t ↦ rw (t) refl
    | inr t ↦ rw (t) refl
  ]

  -- The exchange when the request is not written.
  sdo_write_wait-unsent :
      (fuel : ℕ) (s s' : State) (r : NtResult) (sdo resp : NtSdo) (node index subindex : ℕ)
      → can_write s (ul_frame node index subindex sdo.is_amc) ≡ (r, s')
      → is_success r ≡ false
      → sdo_write_wait nt fuel s (ul_request sdo node index subindex) resp ≡ returned (r, resp, s')
  unfolding sdo_write_wait
  sdo_write_wait-unsent fuel s s' r sdo resp node index subindex w bad =
      rw (write_sdo-ul s sdo node index subindex, w, bad) refl

  -- The exchange when the request is written and the node answers.
  sdo_write_wait-answered :
      (fuel n : ℕ) (s s1 s2 : State) (sdo resp : NtSdo) (got : Cmsg) (node index subindex : ℕ)
      → can_write s (ul_frame node index subindex sdo.is_amc) ≡ (success, s1)
      → Awaits nt (nt_resp_id node) s1 (stack_cmsg s1) n got s2
      → n < fuel
      → sdo_write_wait nt fuel s (ul_request sdo node index subindex) resp
        ≡ (translate_can (record resp { node = node }) got false >>= λ m. returned (success, m, s2))
  unfolding sdo_write_wait wait_sdo ul_request
  sdo_write_wait-answered fuel n s s1 s2 sdo resp got node index subindex w a h =
      rw
        (
          write_sdo-ul s sdo node index subindex,
          w,
          wait_loop-got nt fuel (nt_resp_id node) s1 s2 (stack_cmsg s1) got n a h,
        )
        refl

-- An answer with two to four bytes of data.
pub record IsAnswer (got : Cmsg) : Type 0 where
  pub len_in : (6 ≤ got.len) × (got.len ≤ 8)
  pub low_in : got.b4 < 2 ^ 8
  pub high_in : got.b5 < 2 ^ 8

two_bytes :
    (x y : ℕ) → x < 2 ^ 8 → y < 2 ^ 8 → bit_or (bit_or 0 x) (y * 2 ^ 8) % 2 ^ 16 ≡ x + y * 2 ^ 8
two_bytes x y h h' = rw (zero-bit_or x, bit_or_low_high 8 x y h) (omega arith)

-- The value that is read in an answer.
read_answer :
    (resp : NtSdo) (got : Cmsg)
    → IsAnswer got
    → (m : NtSdo) × (translate_can resp got false ≡ returned m)
      × (get_uint16 m ≡ returned (got.b4 + got.b5 * 2 ^ 8))
      × (m.command ≡ got.b0)
unfolding translate_can get_uint16
read_answer resp got q =
    let len : ℕ = (got.len + 2 ^ 8 - 4) % 2 ^ 8 in
    let fits : ltb 8 got.len ≡ false = ground (arith, q.len_in) in
    let four : ltb 4 len ≡ false = ground (arith, q.len_in) in
    let two : ltb len 2 ≡ false = ground (arith, q.len_in) in
    let zeroth : ltb 0 len ≡ true = ground (arith, q.len_in) in
    let first : ltb 1 len ≡ true = ground (arith, q.len_in) in
    (
      record resp {
        node = (got.id + 2 ^ 32 - 0x580) % 2 ^ 8;
        length = len;
        command = got.b0;
        index = (got.b1 + got.b2 * 2 ^ 8) % 2 ^ 16;
        subindex = got.b3;
        b0 = filled len 0 got.b4;
        b1 = filled len 1 got.b5;
        b2 = filled len 2 got.b6;
        b3 = filled len 3 got.b7;
      },
      rw (fits, four) refl,
      rw (two, zeroth, first, two_bytes got.b4 got.b5 q.low_in q.high_in) refl,
      refl,
    )

module _ (nt : Ntcan) (stack_req stack_resp : NtSdo) where
  open nt use {State, can_write, stack_cmsg}

  -- An upload that has no frame written for it does not report a failure of its own: it fails an
  -- assertion, or stores two bytes of the uninitialised response, as `rmsg` was on the stack.
  pub ul_u16_amc-not_sent :
      (fuel : ℕ) (s s' : State) (r : NtResult) (rcmd : Option ℕ)
      (old node index subindex is_amc : ℕ)
      → can_write s (ul_frame node index subindex is_amc) ≡ (r, s')
      → is_success r ≡ false
      → ul_u16_amc nt stack_req stack_resp fuel s rcmd (some old) node index subindex is_amc ≡ (
          if ltb stack_resp.length 2
          then assert_failed
          else returned (record {
            result = r;
            rcmd = stored_cmd rcmd stack_resp.command;
            value = some (bit_or (bit_or 0 stack_resp.b0) (stack_resp.b1 * 2 ^ 8) % 2 ^ 16);
            after = s';
          }))
  unfolding ul_u16_amc end_ul fetched get_uint16
  ul_u16_amc-not_sent fuel s s' r rcmd old node index subindex is_amc w bad =
      let sdo : NtSdo = record stack_req { is_amc = is_amc } in
      rw
        (
          put_sdo_ul_args-eq sdo node index subindex,
          sdo_write_wait-unsent nt fuel s s' r sdo stack_resp node index subindex w bad,
        )
        (elim (Bool-cases (ltb stack_resp.length 2)) [ inl t ↦ rw (t) refl | inr t ↦ rw (t) refl ])

  -- An upload whose request is written and whose node answers, after any messages of other
  -- identifiers and within the fuel, returns success, the command of the answer and the
  -- little-endian value of its first two bytes of data.
  pub ul_u16_amc-answered :
      (fuel n : ℕ) (s s1 s2 : State) (rcmd : Option ℕ) (old node index subindex is_amc : ℕ)
      (got : Cmsg)
      → can_write s (ul_frame node index subindex is_amc) ≡ (success, s1)
      → Awaits nt (nt_resp_id node) s1 (stack_cmsg s1) n got s2
      → n < fuel
      → IsAnswer got
      → ul_u16_amc nt stack_req stack_resp fuel s rcmd (some old) node index subindex is_amc
        ≡ returned (record {
          result = success;
          rcmd = stored_cmd rcmd got.b0;
          value = some (got.b4 + got.b5 * 2 ^ 8);
          after = s2;
        })
  unfolding ul_u16_amc end_ul fetched
  ul_u16_amc-answered fuel n s s1 s2 rcmd old node index subindex is_amc got w a h q =
      let sdo : NtSdo = record stack_req { is_amc = is_amc } in
      rw
        (
          put_sdo_ul_args-eq sdo node index subindex,
          sdo_write_wait-answered nt fuel n s s1 s2 sdo stack_resp got node index subindex w a h,
        )
        (let (m, e, v, c) = read_answer (record stack_resp { node = node }) got q in
          rw (e, v, c) refl)
