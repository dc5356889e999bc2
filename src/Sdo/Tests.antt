-- ===== src/Sdo/Tests.antt =====
-- Runs of the SDO functions, and each theorem on them at a concrete message.
use socanmatic.Base.{◌≡◌, refl, ◌<◌, ◌⊎◌, inl, true, false, some, arith}
use socanmatic.Can.{CanFrame, ok, err_abort, err_proto, zero_frame, frame_func}
use socanmatic.Can.FuncCode
use socanmatic.DataType.{unsigned32, unsigned16, void, size_case}
use socanmatic.Scalar.{zero_scalar, set_u32, set_u16}
use socanmatic.Byteorder.{ldle16, ldle32}
use socanmatic.Sdo.Msg.{SdoMsg}
use socanmatic.Sdo.Command.{CmdEx, can2sdo_cmd_ex, ccs_ex_ul, cs_abort}
use socanmatic.Sdo.Encode.{sdo2can}
use socanmatic.Sdo.Decode.{can2sdo, can2sdo_index, can2sdo_subindex}
use socanmatic.Sdo.Decode.Accepts.{Holds, can2sdo_accepts, can2sdo_abort}
use socanmatic.Sdo.RoundTrip.{can2sdo-sdo2can, can2sdo-sdo2can_empty, can2sdo-sdo2can_void}
use socanmatic.Sdo.Fixture.{
  garbage, answer, asked, blank, answer_frame, abort_frame, answer-IsMsg, asked-IsMsg,
}

answer_decoded : can2sdo blank answer_frame unsigned16 ≡ (ok, answer)
unfolding can2sdo can2sdo_cmd_ex size_case ldle16 set_u16 frame_func can2sdo_index can2sdo_subindex
answer_decoded = refl

can2sdo-sdo2can_example :
    (f : CanFrame) × (sdo2can zero_frame answer true ≡ some (ok, f))
    × (can2sdo blank f unsigned16 ≡ (ok, answer))
can2sdo-sdo2can_example =
    can2sdo-sdo2can zero_frame blank answer true answer-IsMsg answer (omega arith) (omega arith)
      refl (unfold size_case in refl)

can2sdo-sdo2can_empty_example :
    (f : CanFrame) × (sdo2can garbage asked false ≡ some (ok, f))
    × (can2sdo blank f unsigned32 ≡ (ok, record asked { length = 0; data_type = void }))
can2sdo-sdo2can_empty_example =
    can2sdo-sdo2can_empty garbage blank asked false asked-IsMsg unsigned32 (omega arith)
      (omega arith) refl

abbrev void_answer : SdoMsg
void_answer = record answer { data_type = void }

can2sdo-sdo2can_void_example :
    (f : CanFrame) × (sdo2can zero_frame void_answer true ≡ some (ok, f))
    × (can2sdo blank f void ≡ (err_proto, record void_answer { length = 4; scalar = zero_scalar }))
can2sdo-sdo2can_void_example =
    can2sdo-sdo2can_void zero_frame blank void_answer true (ground arith) (omega arith)
      (omega arith) refl (unfold size_case in refl)

can2sdo_accepts_example :
    Holds answer 8 (size_case unsigned16)
    × (5 < 128)
    × ((frame_func answer_frame ≡ FuncCode.sdo_tx) ⊎ (frame_func answer_frame ≡ FuncCode.sdo_rx))
can2sdo_accepts_example = can2sdo_accepts blank answer answer_frame unsigned16 answer_decoded

can2sdo_abort_example : can2sdo blank abort_frame unsigned16 ≡ (
  err_abort,
  record {
    index = can2sdo_index abort_frame;
    subindex = can2sdo_subindex abort_frame;
    node = 5;
    cmd_spec = cs_abort;
    data_type = unsigned32;
    length = 4;
    scalar = set_u32 zero_scalar (ldle32 (record { q0 = 0; q1 = 0; q2 = 2; q3 = 6 }));
  },
)
can2sdo_abort_example =
    can2sdo_abort blank abort_frame unsigned16 (inl (unfold frame_func in refl)) (omega arith) refl

abbrev ul_cmd : CmdEx
ul_cmd = record { s = 1; e = 1; n = 2; x = 0; cs = ccs_ex_ul }
