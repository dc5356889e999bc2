-- ===== src/Ntcanopen/Tests.antt =====
-- Runs of the legacy SDO client over a library that delivers a list of messages, and its theorems
-- at concrete messages.
use socanmatic.Base.{
  ◌*◌, ◌^◌, ◌≡◌, refl, true, false, not, ltb, if◌then◌else◌, List, [], ◌∷◌, some, none, arith,
  bit_or, ◌%◌,
}
use socanmatic.Run.{assert_failed, returned, ◌>>=◌}
use socanmatic.Ntcan.{Cmsg, Ntcan, NtResult, success, tx_error, rx_timeout}
use socanmatic.Ntcanopen.{
  NtSdo, translate_sdo, translate_can, can_open_command, put_int32, put_uint32,
}
use socanmatic.Ntcanopen.Exchange.{
  put_sdo_dl_args, write_sdo, end_dl, dl_u32_amc, ul_u16_amc, sdo_write_wait, wait_sdo, wait_loop,
}
use socanmatic.Ntcanopen.Answer.{arrives, passes, ul_u16_amc-not_sent, ul_u16_amc-answered}
use socanmatic.Ntcanopen.Translate.{
  allowed, IsNtSdo, can_open_command-eq-sdo2can_cmd_ex, translate_can-translate_sdo,
}
use socanmatic.Sdo.Command.{sdo2can_cmd_ex}

abbrev blank_cmsg : Cmsg
blank_cmsg = record {
  id = 0;
  len = 0;
  b0 = 0;
  b1 = 0;
  b2 = 0;
  b3 = 0;
  b4 = 0;
  b5 = 0;
  b6 = 0;
  b7 = 0;
}

abbrev stack_sdo : NtSdo
stack_sdo = record {
  command = 9;
  index = 0;
  subindex = 0;
  b0 = 5;
  b1 = 6;
  b2 = 7;
  b3 = 8;
  node = 0;
  length = 2;
  is_amc = 0;
}

abbrev read_listed : List Cmsg → Cmsg → NtResult × Cmsg × List Cmsg
read_listed [] msg = (rx_timeout, msg, [])
read_listed (m ∷ ms) msg = (success, m, ms)

-- Writes give `r`; reads deliver the list.
abbrev listed_nt : NtResult → Ntcan
listed_nt r = record {
  State = List Cmsg;
  can_write = λ s m. (r, s);
  can_read = read_listed;
  can_id_add = λ s i. (success, s);
  can_id_delete = λ s i. (success, s);
  can_open = λ s i. (success, s);
  can_close = λ s. (success, s);
  can_set_baudrate = λ s b. (success, s);
  stack_cmsg = λ s. blank_cmsg;
}

-- Node 5 answers with 0x1234, after a heartbeat.
abbrev answer : Cmsg
answer = record blank_cmsg { id = 0x585; len = 6; b0 = 0x4B; b4 = 0x34; b5 = 0x12 }

abbrev beat : Cmsg
beat = record blank_cmsg { id = 0x705; len = 1 }

abbrev word_message : NtSdo
word_message = record stack_sdo { node = 5; index = 0x6041; length = 2; b2 = 0; b3 = 0 }

can_open_command-eq-sdo2can_cmd_ex_example : can_open_command 1 3 1 1 ≡ (
    if allowed 3 1 1
    then returned (sdo2can_cmd_ex (record { s = 1; e = 1; n = 3; x = 0; cs = 1 }))
    else assert_failed)
can_open_command-eq-sdo2can_cmd_ex_example = can_open_command-eq-sdo2can_cmd_ex 1 3 1 1

word_message-IsNtSdo : IsNtSdo word_message
word_message-IsNtSdo = record {
  index_in = omega arith;
  node_in = omega arith;
  length_in = omega arith;
  rest0 = λ h. absurd (omega arith);
  rest1 = λ h. absurd (omega arith);
  rest2 = λ h. refl;
  rest3 = λ h. refl;
}

translate_can-translate_sdo_example :
    (translate_sdo word_message true >>= λ msg. translate_can stack_sdo msg (not true))
    ≡ returned (record word_message { is_amc = 0 })
translate_can-translate_sdo_example =
    translate_can-translate_sdo stack_sdo word_message true word_message-IsNtSdo

ul_u16_amc-answered_example :
    ul_u16_amc
      (listed_nt success)
      stack_sdo
      stack_sdo
      9
      (beat ∷ answer ∷ [])
      (some 0)
      (some 0)
      5
      0x6041
      0
      0
    ≡ returned (record { result = success; rcmd = some 0x4B; value = some 0x1234; after = [] })
ul_u16_amc-answered_example =
    ul_u16_amc-answered (listed_nt success) stack_sdo stack_sdo 9 1 (beat ∷ answer ∷ [])
      (beat ∷ answer ∷ []) [] (some 0) 0 5 0x6041 0 0 answer refl
      (passes {s' = answer ∷ []} {other = beat} refl refl (arrives refl refl)) (omega arith)
      (record { len_in = (omega arith, omega arith); low_in = omega arith; high_in = omega arith })

ul_u16_amc-not_sent_example :
    ul_u16_amc (listed_nt tx_error) stack_sdo stack_sdo 9 [] (some 0) (some 0) 5 0x6041 0 0 ≡ (
      if ltb 2 2
      then assert_failed
      else returned (record {
        result = tx_error;
        rcmd = some 9;
        value = some (bit_or (bit_or 0 5) (6 * 2 ^ 8) % 2 ^ 16);
        after = [];
      }))
ul_u16_amc-not_sent_example =
    ul_u16_amc-not_sent (listed_nt tx_error) stack_sdo stack_sdo 9 [] [] tx_error (some 0) 0 5
      0x6041 0 0 refl refl

-- A download of four bytes whose message was on the stack with two says that it carries two.
stale_length :
    dl_u32_amc (listed_nt success) stack_sdo stack_sdo 9 [] none 5 0x6042 0 0x12345678 0
    ≡ returned (record { result = rx_timeout; rcmd = none; value = none; after = [] })
unfolding dl_u32_amc put_sdo_dl_args can_open_command end_dl sdo_write_wait write_sdo wait_sdo
    wait_loop translate_sdo put_uint32
stale_length = refl

-- Only two of the four bytes of a signed download are translated.
half_value :
    translate_sdo (put_int32 word_message 0x12345678) false
    ≡ returned (record {
      id = 0x605;
      len = 6;
      b0 = 9;
      b1 = 0x41;
      b2 = 0x60;
      b3 = 0;
      b4 = 0x78;
      b5 = 0x56;
      b6 = 0;
      b7 = 0;
    })
unfolding translate_sdo put_int32
half_value = refl
