-- ===== src/Tool/Tests.antt =====
-- Commands of the tool on one interface.
use socanmatic.Base.{
  none, ℕ, ◌+◌, ◌++◌, ◌==◌, if◌then◌else◌, ◌≤◌, ◌≡◌, refl, false, List, [], ◌∷◌, length, arith,
}
use socanmatic.Base.Int.{pos}
use socanmatic.Byteorder.{ldle32}
use socanmatic.Can.{CanFrame, ok, err_os, frame_func}
use socanmatic.DataType.{size_case}
use socanmatic.Dict.Print.{same_text}
use socanmatic.Dict.Search.Linear.{linear}
use socanmatic.Out.{Output, dump_frame, print_bytes}
use socanmatic.Probe.{probe_pdo, probe_rpdos, probe_found, ask}
use socanmatic.Probe.Tests.{aborting, LastReads, LastReads-kept}
use socanmatic.Run.{Run, returned}
use socanmatic.Scalar.{zero_scalar, set_u32}
use socanmatic.Sdo.Command.{sdo2can_cmd_ex, can2sdo_cmd_ex}
use socanmatic.Sdo.Decode.{can2sdo, can2sdo_index, can2sdo_subindex}
use socanmatic.Sdo.Encode.{sdo2can}
use socanmatic.Sdo.Fixture.{blank, garbage, asked_frame, answer_frame}
use socanmatic.Sdo.Msg.{req_id, resp_id}
use socanmatic.Sdo.Query.{recv_loop, sdo_recv, sdo_query, sdo_ul}
use socanmatic.Tool.{Host, Settings, World, parse_u, parse_uhex, send_frame, send_each, verbf}
use socanmatic.Tool.Main.{probe, opt_command}
use socanmatic.Tool.Objects.{cmd_probe, probe_args, probe_node}
use socanmatic.Tool.Reads.{opt_command-Keeps}
use socanmatic.Tool.Send.{cmd_send, parse_frame, parse_data}
use socanmatic.Tool.Valid.{cmd_send-Keeps}
use socanmatic.Tool.Everywhere.{SentOn, send_frame-SentOn}

-- The text "pdo"
abbrev pdo_text : List ℕ
pdo_text = 112 ∷ 100 ∷ 111 ∷ []

-- The interface's state is the last frame that was sent, and its node aborts every request. A number
-- is the count of its digits.
abbrev host : Host
host = record {
  State = CanFrame;
  send = λ i s f. (ok, f);
  recv = λ i s can. aborting.recv s can;
  set_kbps = λ i s kbps. (ok, s);
  print_info = λ i s. (ok, [], s);
  driver_text = λ i s. "driver";
  stack_frame = λ s. garbage;
  stack_msg = λ s. blank;
  stack_scalar = λ s. zero_scalar;
  stack_word = λ s. 0;
  same_word = λ word arg. same_text arg pdo_text;
  strcasecmp = λ a b. pos 0;
  strtoul = λ arg base. (length arg, false);
  strtol = λ arg. (pos (length arg), false);
  errno_text = λ s. "error";
  poll = λ s. (
    pos 0,
    (λ i. record { pollin = false; pollerr = false; pollhup = false; pollnval = false }),
    s,
  );
  clock = λ s. (0, 0, s);
}

abbrev settings : Settings
settings = record {
  verbosity = 1;
  timestamp = false;
  names = pdo_text ∷ [];
  dict402 = record { btree_name = []; objs = [] };
  descriptors = λ obj. record { value_descriptor = none; mask_descriptor = none };
}

abbrev at_start : World CanFrame
at_start = record { after = asked_frame; printed = [] }

abbrev final : Run (World CanFrame) → World CanFrame
final (returned w) = w
final _ = at_start

-- `canmat send` with an identifier and two bytes
abbrev send_args : List (List ℕ)
send_args = (1 ∷ 1 ∷ []) ∷ (1 ∷ []) ∷ (1 ∷ 1 ∷ 1 ∷ []) ∷ []

abbrev sent : World CanFrame
sent = final (cmd_send host settings send_args at_start)

send_returns : cmd_send host settings send_args at_start ≡ returned sent
unfolding cmd_send parse_frame parse_data parse_uhex parse_u send_frame send_each verbf dump_frame
    print_bytes
send_returns = refl

-- The last frame has a standard identifier.
abbrev LastStandard : CanFrame → Type 0
LastStandard s = s.can_id ≤ 0x7FF

cmd_send-Keeps_example : LastStandard sent.after
cmd_send-Keeps_example =
    cmd_send-Keeps host settings LastStandard (λ i s f standard f_in p. standard.0) send_args
      at_start sent (ground arith) (omega arith) send_returns

-- Two interfaces, of which the first refuses the frame, and their state counts the frames.
abbrev two : Host
two = record host {
  State = ℕ;
  send = λ i s f. (if i == 0 then err_os else ok, s + 1);
  recv = λ i s can. (err_os, can, s);
  set_kbps = λ i s kbps. (ok, s);
  print_info = λ i s. (ok, [], s);
  driver_text = λ i s. "driver";
  stack_frame = λ s. garbage;
  stack_msg = λ s. blank;
  stack_scalar = λ s. zero_scalar;
  stack_word = λ s. 0;
  errno_text = λ s. "error";
  poll = λ s. (
    pos 0,
    (λ i. record { pollin = false; pollerr = false; pollhup = false; pollnval = false }),
    s,
  );
  clock = λ s. (0, 0, s);
}

abbrev both : Settings
both = record settings { names = pdo_text ∷ pdo_text ∷ [] }

send_frame-SentOn_example :
    (o : World ℕ) × (before out : Output) × (send_frame two both answer_frame
        (record { after = 0; printed = [] })
      ≡ returned o)
    × SentOn two answer_frame 0 (pdo_text ∷ pdo_text ∷ []) 0 o.after out
    × (o.printed ≡ before ++ out)
send_frame-SentOn_example =
    send_frame-SentOn two both answer_frame (record { after = 0; printed = [] }) (omega arith)

-- `canmat probe pdo` of node 5
abbrev probe_five : List (List ℕ)
probe_five = pdo_text ∷ (1 ∷ 1 ∷ 1 ∷ 1 ∷ 1 ∷ []) ∷ []

abbrev probed_five : World CanFrame
probed_five = final (opt_command host linear 1 settings probe probe_five at_start)

probe_returned : opt_command host linear 1 settings probe probe_five at_start ≡ returned probed_five
unfolding opt_command cmd_probe probe_args probe_node parse_uhex parse_u verbf probe_pdo probe_rpdos
    probe_found ask sdo_ul sdo_query sdo_recv recv_loop sdo2can can2sdo sdo2can_cmd_ex
    can2sdo_cmd_ex can2sdo_index can2sdo_subindex size_case req_id resp_id frame_func ldle32 set_u32
probe_returned = refl

opt_command-Keeps_example : LastReads probed_five.after
opt_command-Keeps_example =
    opt_command-Keeps host settings linear 1 LastReads (λ node small. LastReads-kept node) probe
      probe_five at_start probed_five refl refl probe_returned
