-- ===== src/Sdo/Query/Answer.antt =====
-- What `canmat_sdo_query` (src/sdo.c) returns once the server's answer, or an error, arrives.
use socanmatic.Base.{ℕ, ◌≤◌, ◌<◌, ◌≡◌, refl, ◌∙◌, true, false, some, arith}
use socanmatic.Can.{CanFrame, Status, ok}
use socanmatic.Bus.{Bus}
use socanmatic.Run.{returned}
use socanmatic.DataType.{size_case}
use socanmatic.Sdo.Msg.{SdoMsg, IsMsg, resp_id}
use socanmatic.Sdo.Command.{ccs_ex_ul, scs_ex_ul}
use socanmatic.Sdo.Encode.{sdo2can}
use socanmatic.Sdo.Decode.{can2sdo}
use socanmatic.Sdo.RoundTrip.{carried, can2sdo-sdo2can}
use socanmatic.Sdo.Query.{sdo_recv, sdo_query, sdo_ul}
use socanmatic.Sdo.Query.Waits.{Waits, recv_loop_enough}

-- Every frame that the server's side builds without a failed assertion has the response
-- identifier of its message's node.
pub can_id-sdo2can :
    (stack : CanFrame) (src : SdoMsg) (r : Status) (f : CanFrame)
    → sdo2can stack src true ≡ some (r, f)
    → f.can_id ≡ resp_id src.node
unfolding sdo2can
can_id-sdo2can stack src r f h = ground arith

-- The request is sent from `s`, and the state that the exchange waits in is `t`.
pub record Sent (bus : Bus) (s : bus.State) (req : SdoMsg) (t : bus.State) : Type 0 where
  pub request : CanFrame
  pub status : Status
  pub built : sdo2can (bus.stack_frame s) req false ≡ some (status, request)
  pub accepted : bus.send s request ≡ (ok, t)

module _ (bus : Bus) (fuel : ℕ) (s : bus.State) (req resp : SdoMsg) where
  open bus use {State, stack_frame}

  -- A query whose request is sent, and whose wait ends within the fuel in a frame of the awaited
  -- identifier, returns what `canmat_can2sdo` makes of that frame.
  pub sdo_query_answered :
      (t u : State) (f : CanFrame) (k : ℕ)
      → Sent bus s req t
      → Waits bus (resp_id req.node) t (stack_frame t) k (ok, f, u)
      → k < fuel
      → sdo_query bus fuel s req resp
        ≡ returned ((can2sdo resp f req.data_type).0, (can2sdo resp f req.data_type).1, u)
  unfolding sdo_query sdo_recv
  sdo_query_answered t u f k q w h =
      ground (arith, q.built, q.accepted, recv_loop_enough bus (resp_id req.node) fuel w h)

module _ (bus : Bus) (fuel : ℕ) (s : bus.State) (req resp src m : SdoMsg) where
  open bus use {State, stack_frame}

  -- An upload request that is sent, and that a server answers within the fuel by the frame of an
  -- upload response of the requested node and type, returns OK with the server's message: its
  -- indices, its node, and the bytes that the type has.
  pub sdo_ul_answered :
      (t u : State) (server : CanFrame) (f : CanFrame) (k : ℕ)
      → IsMsg src
      → src.length ≤ 4
      → src.node < 128
      → src.node ≡ req.node
      → src.data_type ≡ req.data_type
      → src.cmd_spec ≡ scs_ex_ul
      → carried resp src (size_case src.data_type) ≡ some m
      → sdo2can server src true ≡ some (ok, f)
      → Sent bus s (record req { cmd_spec = ccs_ex_ul }) t
      → Waits bus (resp_id req.node) t (stack_frame t) k (ok, f, u)
      → k < fuel
      → sdo_ul bus fuel s req resp ≡ returned (ok, m, u)
  unfolding sdo_ul
  sdo_ul_answered t u server f k v short low same_node same_type ul c e q w h =
      let (f', e', d) = can2sdo-sdo2can server resp src true v m short low (rw ul refl) c in
      let same : f' ≡ f = cc (e, e') in
      sdo_query_answered bus fuel s (record req { cmd_spec = ccs_ex_ul }) resp t u f k q w h
      ∙ cc (d, same, same_type)
