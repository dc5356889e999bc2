-- ===== src/Sdo/Query.antt =====
-- The exchange of an SDO request for its response (src/sdo.c).
pub mod Waits
pub mod Answer
pub mod Reads
use socanmatic.Base.{
  ℕ, zero, suc, Bool, true, false, ◌&&◌, not, Option, none, some, ◌==◌, if◌then◌else◌,
}
use socanmatic.Can.{CanFrame, Status}
use socanmatic.Bus.{Bus, is_ok}
use socanmatic.Run.{Run, assert_failed, waiting, returned}
use socanmatic.Sdo.Msg.{SdoMsg, resp_id}
use socanmatic.Sdo.Command.{ccs_ex_dl, ccs_ex_ul}
use socanmatic.Sdo.Encode.{sdo2can}
use socanmatic.Sdo.Decode.{can2sdo}

module _ (bus : Bus) where
  open bus use {State, send, recv, stack_frame}

  -- The test of the receive loop: it goes on after a frame of another identifier.
  abbrev pub foreign : ℕ → Status × CanFrame × State → Bool
  foreign id out = is_ok out.0 && not (out.1.can_id == id)

  -- `do r = recv(&can) while( CANMAT_OK == r && can.can_id != id )`, for `fuel` rounds at most;
  -- `none` means that it still waits.
  unfoldable pub recv_loop : ℕ → ℕ → State → CanFrame → Option (Status × CanFrame × State)
  recv_loop zero id s can = none
  recv_loop (suc fuel) id s can =
      let out = recv s can in
      elim (foreign id out) [ true ↦ recv_loop fuel id out.2 out.1 | false ↦ some out ]

  -- A received response is decoded at the type of the request.
  take_response : SdoMsg → SdoMsg → Status × CanFrame × State → Status × SdoMsg × State
  take_response req resp (r, can, s) =
      if is_ok r then (let (r', m) = can2sdo resp can req.data_type in (r', m, s)) else (r, resp, s)

  unfoldable pub sdo_recv : ℕ → State → SdoMsg → SdoMsg → Run (Status × SdoMsg × State)
  unfolding take_response
  sdo_recv fuel s req resp = elim (recv_loop fuel (resp_id req.node) s (stack_frame s)) [
    | none ↦ waiting
    | some out ↦ returned (take_response req resp out)
  ]

  -- `canmat_sdo_query`, which sends what `canmat_sdo2can` left in the frame, whatever its status.
  unfoldable pub sdo_query : ℕ → State → SdoMsg → SdoMsg → Run (Status × SdoMsg × State)
  sdo_query fuel s req resp = elim (sdo2can (stack_frame s) req false) [
    | none ↦ assert_failed
    | some (ignored, can) ↦
        let (r, s') = send s can in
        if is_ok r then sdo_recv fuel s' req resp else returned (r, resp, s')
  ]

  unfoldable pub sdo_dl : ℕ → State → SdoMsg → SdoMsg → Run (Status × SdoMsg × State)
  sdo_dl fuel s req resp = sdo_query fuel s (record req { cmd_spec = ccs_ex_dl }) resp

  unfoldable pub sdo_ul : ℕ → State → SdoMsg → SdoMsg → Run (Status × SdoMsg × State)
  sdo_ul fuel s req resp = sdo_query fuel s (record req { cmd_spec = ccs_ex_ul }) resp

  -- `canmat_sdo_query_resp`, the server's side.
  unfoldable pub sdo_query_resp : State → SdoMsg → Run (Status × State)
  sdo_query_resp s resp = elim (sdo2can (stack_frame s) resp true) [
    | none ↦ assert_failed
    | some (ignored, can) ↦ returned (send s can)
  ]
