-- ===== src/Sdo/Typed/Tests.antt =====
-- Each theorem on the typed transfers at an exchange with node 5.
use socanmatic.Base.{◌≡◌, refl, true, false, some, none, List, [], ◌∷◌, arith}
use socanmatic.Can.{CanFrame, ok, err_abort, zero_frame}
use socanmatic.Run.{returned}
use socanmatic.DataType.{void, size_case}
use socanmatic.Byteorder.{stle16, ldle32}
use socanmatic.Scalar.{set_u16, u16}
use socanmatic.Scalar.Member
use socanmatic.Scalar.Member.{type_of, read, write}
use socanmatic.Sdo.Msg.{SdoMsg, req_id, resp_id}
use socanmatic.Sdo.Command.{sdo2can_cmd_ex, ccs_ex_dl, scs_ex_dl}
use socanmatic.Sdo.Encode.{sdo2can}
use socanmatic.Sdo.Query.Waits.{Waits, now}
use socanmatic.Sdo.Query.Answer.{Sent}
use socanmatic.Sdo.Typed.{request, sdo_ul_member, sdo_dl_member}
use socanmatic.Sdo.Typed.Answer.{
  abort_code, sdo_ul_member_answered, sdo_ul_member_aborted, sdo_dl_member_answered,
  sdo_dl_member_aborted,
}
use socanmatic.Sdo.Typed.Fixture.{ul_request-eq_asked, aborted-Sent, aborted-Waits}
use socanmatic.Sdo.Fixture.{
  garbage, answer, listed, asked_frame, answer_frame, abort_frame, other_frame, answer-IsMsg,
  answer_encoded, asked-Sent, answer-Waits,
}

sdo_ul_member_answered_example :
    sdo_ul_member listed 2 Member.u16 (other_frame ∷ answer_frame ∷ []) 5 0x6041 0 9 none
    ≡ returned (record { status = ok; val = 0x237; err = none; after = [] })
unfolding read u16
sdo_ul_member_answered_example =
    sdo_ul_member_answered listed 2 Member.u16 (other_frame ∷ answer_frame ∷ []) 5 0x6041 0 9 none
      (other_frame ∷ answer_frame ∷ []) [] zero_frame answer_frame 1 answer answer-IsMsg
      (omega arith) (omega arith) refl (unfold type_of in refl) refl answer_encoded
      (rw ul_request-eq_asked asked-Sent) answer-Waits (omega arith)

-- The abort code says that the object does not exist.
code_of_abort : abort_code abort_frame ≡ 0x06020000
unfolding ldle32
code_of_abort = refl

sdo_ul_member_aborted_example :
    sdo_ul_member listed 1 Member.u16 (abort_frame ∷ []) 5 0x6041 0 9 (some 0)
    ≡ returned
        (record { status = err_abort; val = 9; err = some (abort_code abort_frame); after = [] })
sdo_ul_member_aborted_example =
    sdo_ul_member_aborted listed 1 Member.u16 (abort_frame ∷ []) 5 0x6041 0 9 (some 0)
      (abort_frame ∷ []) [] abort_frame 0 (omega arith, refl) aborted-Sent aborted-Waits
      (omega arith)

-- The download of a control word to node 5.
abbrev dl_request : SdoMsg
dl_request = record (request Member.u16 5 0x6040 0) {
  scalar = write Member.u16 (request Member.u16 5 0x6040 0).scalar 0x0F;
  cmd_spec = ccs_ex_dl;
}

abbrev dl_frame : CanFrame
dl_frame = record garbage {
  can_id = 0x605;
  can_dlc = 8;
  d0 = 0x2B;
  d1 = 0x40;
  d2 = 0x60;
  d3 = 0;
  d4 = 0x0F;
  d5 = 0;
}

dl_encoded : sdo2can garbage dl_request false ≡ some (ok, dl_frame)
unfolding sdo2can sdo2can_cmd_ex req_id request type_of size_case write set_u16 u16 stle16
dl_encoded = refl

dl-Sent : (s : List CanFrame) → Sent listed s dl_request s
dl-Sent s = record { request = dl_frame; status = ok; built = dl_encoded; accepted = refl }

sdo_dl_member_aborted_example :
    sdo_dl_member listed 1 Member.u16 (abort_frame ∷ []) 5 0x6040 0 0x0F none
    ≡ returned (record { status = err_abort; err = none; after = [] })
sdo_dl_member_aborted_example =
    sdo_dl_member_aborted listed 1 Member.u16 (abort_frame ∷ []) 5 0x6040 0 0x0F none
      (abort_frame ∷ []) [] abort_frame 0 (omega arith, refl) (dl-Sent (abort_frame ∷ []))
      aborted-Waits (omega arith)

abbrev confirm : SdoMsg
confirm = record answer { index = 0x6040; cmd_spec = scs_ex_dl; length = 0; data_type = void }

abbrev confirm_frame : CanFrame
confirm_frame = record asked_frame { can_id = 0x585; d0 = 0x60; d1 = 0x40 }

confirm_encoded : sdo2can zero_frame confirm true ≡ some (ok, confirm_frame)
unfolding sdo2can sdo2can_cmd_ex resp_id
confirm_encoded = refl

confirm-Waits : Waits listed (resp_id 5) (confirm_frame ∷ []) garbage 0 (ok, confirm_frame, [])
unfolding resp_id
confirm-Waits = now refl refl

sdo_dl_member_answered_example :
    sdo_dl_member listed 1 Member.u16 (confirm_frame ∷ []) 5 0x6040 0 0x0F none
    ≡ returned (record { status = ok; err = none; after = [] })
sdo_dl_member_answered_example =
    sdo_dl_member_answered listed 1 Member.u16 (confirm_frame ∷ []) 5 0x6040 0 0x0F none
      (confirm_frame ∷ []) [] zero_frame confirm_frame 0 confirm (ground arith) (omega arith)
      (omega arith) refl confirm_encoded (dl-Sent (confirm_frame ∷ [])) confirm-Waits (omega arith)
