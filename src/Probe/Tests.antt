-- ===== src/Probe/Tests.antt =====
-- Probing a node without RPDOs, which aborts every request.
use socanmatic.Base.{ℕ, ◌+◌, ◌%◌, ◌^◌, ◌≡◌, refl, Option, none, []}
use socanmatic.Bus.{Bus}
use socanmatic.Byteorder.{ldle32}
use socanmatic.Can.{CanFrame, Status, ok, frame_func}
use socanmatic.DataType.{size_case}
use socanmatic.Dict.{Obj}
use socanmatic.Probe.{Probing, probe_pdo, probe_rpdos, probe_found, ask}
use socanmatic.Probe.Reads.{probe_pdo-Keeps}
use socanmatic.Run.{Run, returned}
use socanmatic.Scalar.{zero_scalar, set_u32}
use socanmatic.Sdo.Command.{sdo2can_cmd_ex, can2sdo_cmd_ex}
use socanmatic.Sdo.Decode.{can2sdo, can2sdo_index, can2sdo_subindex}
use socanmatic.Sdo.Encode.{sdo2can}
use socanmatic.Sdo.Fixture.{blank, garbage, asked_frame}
use socanmatic.Sdo.Msg.{req_id, resp_id}
use socanmatic.Sdo.Query.{recv_loop, sdo_recv, sdo_query, sdo_ul}
use socanmatic.Sdo.Query.Reads.{KeptByReads}

-- The state is the last frame that was sent.
abbrev pub aborting : Bus
aborting = record {
  State = CanFrame;
  send = λ s f. (ok, f);
  recv = λ s can. (ok, record s { can_id = s.can_id % 2 ^ 7 + 0x580; d0 = 0x80 }, s);
  stack_frame = λ s. garbage;
  stack_msg = λ s. blank;
  stack_scalar = λ s. zero_scalar;
}

-- The last frame is an upload request.
abbrev pub LastReads : CanFrame → Type 0
LastReads s = s.d0 ≡ 0x40

pub LastReads-kept : (node : ℕ) → KeptByReads aborting node LastReads
LastReads-kept node = record { by_recv = λ s can h. h; by_read = λ s f h p. h.1 }

abbrev no_objects : ℕ → ℕ → Option Obj
no_objects index subindex = none

abbrev result : Run (Status × Probing CanFrame) → Status × Probing CanFrame
result (returned o) = o
result _ = (ok, record { resp = blank; after = garbage; printed = [] })

abbrev probed : Status × Probing CanFrame
probed = result (probe_pdo aborting 1 no_objects 5 asked_frame)

probe_returns : probe_pdo aborting 1 no_objects 5 asked_frame ≡ returned probed
unfolding probe_pdo probe_rpdos probe_found ask sdo_ul sdo_query sdo_recv recv_loop sdo2can can2sdo
    sdo2can_cmd_ex can2sdo_cmd_ex can2sdo_index can2sdo_subindex size_case req_id resp_id frame_func
    ldle32 set_u32
probe_returns = refl

probe_pdo-Keeps_example : LastReads probed.1.after
probe_pdo-Keeps_example =
    probe_pdo-Keeps aborting 1 no_objects 5 LastReads (LastReads-kept 5) asked_frame probed refl
      probe_returns
