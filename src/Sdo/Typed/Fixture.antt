-- ===== src/Sdo/Typed/Fixture.antt =====
-- An upload of the status word of node 5 that the node aborts.
use socanmatic.Base.{◌≡◌, refl, [], ◌∷◌}
use socanmatic.Can.{ok}
use socanmatic.Scalar.Member
use socanmatic.Scalar.Member.{type_of}
use socanmatic.Sdo.Msg.{SdoMsg, req_id, resp_id}
use socanmatic.Sdo.Command.{sdo2can_cmd_ex, ccs_ex_ul}
use socanmatic.Sdo.Encode.{sdo2can}
use socanmatic.Sdo.Query.Waits.{Waits, now}
use socanmatic.Sdo.Query.Answer.{Sent}
use socanmatic.Sdo.Typed.{request}
use socanmatic.Sdo.Fixture.{garbage, asked, listed, asked_frame, abort_frame}

abbrev pub ul_request : SdoMsg
ul_request = record (request Member.u16 5 0x6041 0) { cmd_spec = ccs_ex_ul }

pub ul_request-eq_asked : ul_request ≡ asked
unfolding request type_of
ul_request-eq_asked = refl

pub aborted-Sent : Sent listed (abort_frame ∷ []) ul_request (abort_frame ∷ [])
unfolding sdo2can sdo2can_cmd_ex req_id request type_of
aborted-Sent = record { request = asked_frame; status = ok; built = refl; accepted = refl }

pub aborted-Waits : Waits listed (resp_id 5) (abort_frame ∷ []) garbage 0 (ok, abort_frame, [])
unfolding resp_id
aborted-Waits = now refl refl
