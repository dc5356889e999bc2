-- ===== src/Ds402/Start/OnBus.antt =====
-- A bus with a drive that follows CiA 402 at node 5, and the dictionary's objects of src/ds402.c on
-- it: the requests and responses are the frames of src/sdo.c.
use socanmatic.Base.{
  ℕ, ◌+◌, ◌*◌, ◌/◌, ◌%◌, ◌^◌, ◌<◌, ◌≡◌, refl, ap, some, arith, ◌==◌, if◌then◌else◌,
}
use socanmatic.Can.{CanFrame, ok, zero_frame, frame_func}
use socanmatic.Bus.{Bus}
use socanmatic.Byteorder.{stle16, ldle16}
use socanmatic.DataType.{size_case}
use socanmatic.Nmt.{start_remote, nmt_frame}
use socanmatic.Run.{returned}
use socanmatic.Scalar
use socanmatic.Scalar.{zero_scalar, set_u16}
use socanmatic.Scalar.Member.{u16, type_of, read, write}
use socanmatic.Sdo.Msg.{SdoMsg, req_id, resp_id}
use socanmatic.Sdo.Command.{sdo2can_cmd_ex, can2sdo_cmd_ex}
use socanmatic.Sdo.Encode.{sdo2can}
use socanmatic.Sdo.Decode.{can2sdo, can2sdo_index, can2sdo_subindex}
use socanmatic.Sdo.Query.{recv_loop, sdo_recv, sdo_query, sdo_dl, sdo_ul}
use socanmatic.Sdo.Typed.{Uploaded, Downloaded}
use socanmatic.Dict.Transfer.{obj_dl, obj_ul, take_fetched, copy_low, take_stored}
use socanmatic.Dict.Typed.{obj_ul_member, obj_dl_member, objects_of}
use socanmatic.Ds402.State.{
  StateVal, off_nrdy, off_sw_on_disable, off_rdy, on_op_dis, on_op_en, on_quick_stop,
  fault_reaction_active, fault, unknown, value_of, state,
}
use socanmatic.Ds402.Start.{statusword_index, controlword_index}
use socanmatic.Ds402.Start.Compliant.{Compliant, react, wake}

-- The drive, and its last response, which waits to be received.
pub record Plant : Type 0 where
  pub mode : StateVal
  pub last : ℕ
  pub reply : CanFrame

abbrev answer : ℕ → CanFrame → CanFrame
answer cmd f = record f { can_id = 0x585; can_dlc = 8; d0 = cmd }

-- A request to upload is answered by the status word, and one to download by a confirmation; any
-- other frame wakes the drive.
abbrev deliver : Plant → CanFrame → Plant
deliver p f =
    if f.can_id == 0x605
    then (if f.d0 / 2 ^ 5 == 2
        then record p {
          reply = record (answer 0x4B f) {
            d4 = value_of p.mode % 2 ^ 8;
            d5 = value_of p.mode / 2 ^ 8 % 2 ^ 8;
          };
        }
        else let word = f.d4 + f.d5 * 2 ^ 8 in
          record { mode = react p.mode p.last word; last = word; reply = answer 0x60 f })
    else record p { mode = wake p.mode }

abbrev blank : SdoMsg
blank = record {
  index = 0;
  subindex = 0;
  node = 0;
  cmd_spec = 0;
  data_type = type_of u16;
  length = 0;
  scalar = zero_scalar;
}

abbrev pub drive_bus : Bus
drive_bus = record {
  State = Plant;
  send = λ s f. (ok, deliver s f);
  recv = λ s f. (ok, s.reply, s);
  stack_frame = λ s. zero_frame;
  stack_msg = λ s. blank;
  stack_scalar = λ s. zero_scalar;
}

abbrev pub mode_at : Plant → StateVal
mode_at p = p.mode

abbrev pub last_at : Plant → ℕ
last_at p = p.last

-- The response to an upload request.
abbrev told : StateVal → CanFrame
told v = record zero_frame {
  can_id = 0x585;
  can_dlc = 8;
  d0 = 0x4B;
  d1 = 0x41;
  d2 = 0x60;
  d4 = value_of v % 2 ^ 8;
  d5 = value_of v / 2 ^ 8 % 2 ^ 8;
}

abbrev read_out : StateVal → ℕ → CanFrame → Uploaded Plant
read_out v last reply = record {
  status = ok;
  val = value_of v;
  err = some 0;
  after = record { mode = v; last = last; reply = told v };
}

read-eq :
    (v : StateVal) (last : ℕ) (reply : CanFrame) (val code : ℕ)
    → (objects_of drive_bus 1).upload u16
        (record { mode = v; last = last; reply = reply })
        5
        statusword_index
        0
        val
        (some code)
      ≡ returned (read_out v last reply)
unfolding obj_ul_member obj_ul sdo_ul sdo_query sdo_recv recv_loop take_fetched copy_low sdo2can
    sdo2can_cmd_ex can2sdo can2sdo_cmd_ex can2sdo_index can2sdo_subindex size_case frame_func ldle16
    set_u16 read Scalar.u16 type_of req_id resp_id
read-eq off_nrdy last reply val code = refl
read-eq off_sw_on_disable last reply val code = refl
read-eq off_rdy last reply val code = refl
read-eq on_op_dis last reply val code = refl
read-eq on_op_en last reply val code = refl
read-eq on_quick_stop last reply val code = refl
read-eq fault_reaction_active last reply val code = refl
read-eq fault last reply val code = refl
read-eq unknown last reply val code = refl

-- The control word of the request, and the one that the drive makes of its two bytes.
abbrev stored : ℕ → ℕ
stored word = Scalar.u16 (set_u16 zero_scalar word)

abbrev arriving : ℕ → ℕ
arriving word = stored word % 2 ^ 8 + stored word / 2 ^ 8 % 2 ^ 8 * 2 ^ 8

arriving-eq : (word : ℕ) → word < 2 ^ 16 → arriving word ≡ word
unfolding set_u16 Scalar.u16
arriving-eq word h = omega arith

-- The drive's confirmation of a control word.
abbrev confirmed : ℕ → CanFrame
confirmed word = record zero_frame {
  can_id = 0x585;
  can_dlc = 8;
  d0 = 0x60;
  d1 = 0x40;
  d2 = 0x60;
  d4 = stored word % 2 ^ 8;
  d5 = stored word / 2 ^ 8 % 2 ^ 8;
}

abbrev write_out : Plant → ℕ → Downloaded Plant
write_out s word = record {
  status = ok;
  err = some 0;
  after = record {
    mode = react s.mode s.last (arriving word);
    last = arriving word;
    reply = confirmed word;
  };
}

write-eq :
    (s : Plant) (word code : ℕ)
    → (objects_of drive_bus 1).download u16 s 5 controlword_index 0 word (some code)
      ≡ returned (write_out s word)
unfolding obj_dl_member obj_dl sdo_dl sdo_query sdo_recv recv_loop take_stored sdo2can
    sdo2can_cmd_ex can2sdo can2sdo_cmd_ex can2sdo_index can2sdo_subindex size_case frame_func stle16
    set_u16 write Scalar.u16 type_of req_id resp_id
write-eq s word code = refl

state-value_of : (v : StateVal) → state (value_of v) ≡ v
unfolding state
state-value_of off_nrdy = refl
state-value_of off_sw_on_disable = refl
state-value_of off_rdy = refl
state-value_of on_op_dis = refl
state-value_of on_op_en = refl
state-value_of on_quick_stop = refl
state-value_of fault_reaction_active = refl
state-value_of fault = refl
state-value_of unknown = refl

start-eq :
    (s : Plant)
    → drive_bus.send s (nmt_frame 5 start_remote) ≡ (ok, record s { mode = wake s.mode })
start-eq s = refl

-- The drive is one that follows CiA 402, for the functions of the dictionary's objects on the bus.
pub on_bus-Compliant : Compliant (objects_of drive_bus 1) 5 mode_at last_at
on_bus-Compliant = record {
  reads = λ s val code. (
    read_out s.mode s.last s.reply,
    read-eq s.mode s.last s.reply val code,
    refl,
    state-value_of s.mode,
    refl,
    refl,
  );
  writes = λ s word code h. (
    write_out s word,
    write-eq s word code,
    refl,
    ap (react s.mode s.last) (arriving-eq word h),
    arriving-eq word h,
  );
  starts = λ s. (record s { mode = wake s.mode }, start-eq s, refl, refl);
}
