-- ===== src/Sdo/Fixture.antt =====
-- A bus that delivers a list of frames, and the messages that the tests exchange over it.
use socanmatic.Base.{◌≡◌, refl, true, false, some, arith, List, [], ◌∷◌}
use socanmatic.Can.{CanFrame, Status, ok, err_os, zero_frame}
use socanmatic.Bus.{Bus}
use socanmatic.DataType.{unsigned16, void, size_case}
use socanmatic.Scalar.{Scalar, zero_scalar}
use socanmatic.Byteorder.{stle16}
use socanmatic.Scalar.{u16}
use socanmatic.Sdo.Msg.{SdoMsg, IsMsg, req_id, resp_id}
use socanmatic.Sdo.Command.{ccs_ex_ul, scs_ex_ul, sdo2can_cmd_ex}
use socanmatic.Sdo.Encode.{sdo2can}
use socanmatic.Sdo.Query.Waits.{Waits, now, later}
use socanmatic.Sdo.Query.Answer.{Sent}

abbrev pub recv_listed : List CanFrame → CanFrame → Status × CanFrame × List CanFrame
recv_listed [] can = (err_os, can, [])
recv_listed (f ∷ fs) can = (ok, f, fs)

abbrev pub garbage : CanFrame
garbage = record zero_frame { can_id = 77; can_dlc = 3; d5 = 9; d6 = 8; d7 = 7 }

abbrev pub status_word : Scalar
status_word = record { byte0 = 0x37; byte1 = 0x02; byte2 = 0; byte3 = 0 }

-- The upload response of node 5 for its status word.
abbrev pub answer : SdoMsg
answer = record {
  index = 0x6041;
  subindex = 0;
  node = 5;
  cmd_spec = scs_ex_ul;
  data_type = unsigned16;
  length = 2;
  scalar = status_word;
}

abbrev pub asked : SdoMsg
asked = record answer { cmd_spec = ccs_ex_ul; length = 0; scalar = zero_scalar }

abbrev pub blank : SdoMsg
blank = record {
  index = 0;
  subindex = 0;
  node = 0;
  cmd_spec = 0;
  data_type = void;
  length = 0;
  scalar = zero_scalar;
}

abbrev pub listed : Bus
listed = record {
  State = List CanFrame;
  send = λ s f. (ok, s);
  recv = recv_listed;
  stack_frame = λ s. garbage;
  stack_msg = λ s. blank;
  stack_scalar = λ s. zero_scalar;
}

abbrev pub asked_frame : CanFrame
asked_frame = record {
  can_id = 0x605;
  can_dlc = 8;
  d0 = 0x40;
  d1 = 0x41;
  d2 = 0x60;
  d3 = 0;
  d4 = 0;
  d5 = 0;
  d6 = 0;
  d7 = 0;
}

abbrev pub answer_frame : CanFrame
answer_frame = record asked_frame { can_id = 0x585; d0 = 0x4B; d4 = 0x37; d5 = 0x02 }

abbrev pub abort_frame : CanFrame
abort_frame = record answer_frame { d0 = 0x80; d4 = 0; d5 = 0; d6 = 2; d7 = 6 }

-- A frame of another node, which the wait passes over.
abbrev pub other_frame : CanFrame
other_frame = record answer_frame { can_id = 0x586 }

pub answer-IsMsg : IsMsg answer
answer-IsMsg = ground arith

pub asked-IsMsg : IsMsg asked
asked-IsMsg = ground arith

asked_encoded : sdo2can garbage asked false ≡ some (ok, asked_frame)
unfolding sdo2can sdo2can_cmd_ex req_id
asked_encoded = refl

pub answer_encoded : sdo2can zero_frame answer true ≡ some (ok, answer_frame)
unfolding sdo2can sdo2can_cmd_ex resp_id size_case stle16 u16
answer_encoded = refl

pub asked-Sent :
    Sent listed (other_frame ∷ answer_frame ∷ []) asked (other_frame ∷ answer_frame ∷ [])
asked-Sent = record { request = asked_frame; status = ok; built = asked_encoded; accepted = refl }

-- One frame of another node arrives before the answer.
pub answer-Waits :
    Waits listed (resp_id 5) (other_frame ∷ answer_frame ∷ []) garbage 1 (ok, answer_frame, [])
unfolding resp_id
answer-Waits = later refl (now refl refl)
