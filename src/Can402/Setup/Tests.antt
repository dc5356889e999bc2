-- ===== src/Can402/Setup/Tests.antt =====
-- The start of the daemon over a bus with one drive that confirms every transfer.
use socanmatic.Base.{ℕ, ◌+◌, ◌*◌, ◌/◌, ◌^◌, ◌%◌, ◌≡◌, refl, true, [], ◌∷◌, ◌==◌, if◌then◌else◌}
use socanmatic.Base.Int.{pos, negsuc}
use socanmatic.Can.{CanFrame, ok, zero_frame, frame_func}
use socanmatic.Bus.{Bus}
use socanmatic.Byteorder.{stle32, stle16, ldle32, ldle16}
use socanmatic.DataType.{size_case}
use socanmatic.Scalar
use socanmatic.Scalar.{zero_scalar, set_u8, set_u16, set_u32}
use socanmatic.Scalar.Member.{type_of, read, write}
use socanmatic.Run.{Run, returned}
use socanmatic.Sdo.Msg.{req_id, resp_id}
use socanmatic.Sdo.Command.{sdo2can_cmd_ex, can2sdo_cmd_ex}
use socanmatic.Sdo.Encode.{sdo2can}
use socanmatic.Sdo.Decode.{can2sdo, can2sdo_index, can2sdo_subindex}
use socanmatic.Sdo.Query.{recv_loop, sdo_recv, sdo_query, sdo_dl, sdo_ul}
use socanmatic.Sdo.Typed.{request, take_upload, take_download, sdo_ul_member, sdo_dl_member}
use socanmatic.Sdo.Fixture.{blank}
use socanmatic.Dict.{obj_bitsize}
use socanmatic.Dict.Transfer.{obj_dl, obj_ul, take_fetched, copy_low, take_stored}
use socanmatic.Dict.Typed.{obj_ul_member, obj_dl_member}
use socanmatic.Pdo.{map_word, unmappable, map_objs, reconfigure, remap}
use socanmatic.Ds402.Words.{masked}
use socanmatic.Ds402.State.{state}
use socanmatic.Ds402.Start.{store_ctrl, dl_ctrlmask, ul_statusword, act, start_loop, start}
use socanmatic.Ds402.OpMode.{told, map_object, finish, map_target, set_mode, set_op_mode}
use socanmatic.Can402.{Servo, mode_vel, Cx}
use socanmatic.Can402.First.{FirstAll}
use socanmatic.Can402.Fixture.{Whole, fin, whole}
use socanmatic.Can402.Init.{ul_then, with_limits, init_limits, init_mode, init_values, init_servo}
use socanmatic.Can402.Setup.{
  each_ok, on_drive, read_one, map_one, map_control, map_feedback, set_velocity, start_one, phase,
  setup,
}
use socanmatic.Can402.Setup.Enabled.{Started, setup-Started}

-- The answer to a request: the control word, the status word 0x27, the mode 2, and 0 for the rest.
abbrev reply : CanFrame → CanFrame
reply f =
    let base : CanFrame = record f {
      can_id = f.can_id % 2 ^ 7 + 0x580;
      d4 = 0;
      d5 = 0;
      d6 = 0;
      d7 = 0;
    } in
    let index : ℕ = f.d1 + f.d2 * 2 ^ 8 in
    if f.d0 / 2 ^ 5 == 1
    then record base { d0 = 0x60 }
    else if index == 0x6040
    then record base { d0 = 0x4B; d4 = 0x0F; d5 = 1 }
    else if index == 0x6041
    then record base { d0 = 0x4B; d4 = 0x27 }
    else if index == 0x6042
    then record base { d0 = 0x4B }
    else if index == 0x6060
    then record base { d0 = 0x4F; d4 = 2 }
    else record base { d0 = 0x43 }

-- The state of the bus is the last frame that was sent.
abbrev serving : Bus
serving = record {
  State = CanFrame;
  send = λ s f. (ok, f);
  recv = λ s can. (ok, reply s, s);
  stack_frame = λ s. zero_frame;
  stack_msg = λ s. blank;
  stack_scalar = λ s. zero_scalar;
}

abbrev unread : Servo Whole
unread = record {
  drive = record {
    node_id = 5;
    ctrl_word = 0;
    stat_word = 0;
    abort_code = 0;
    op_mode = 0;
    rpdo_user = pos 1;
  };
  pos_factor = fin (pos 1);
  vel_factor = fin (pos 1);
  actual_pos_raw = pos 0;
  actual_vel_raw = pos 0;
  target_vel_raw = pos 0;
  pos_max_soft = fin (pos 0);
  pos_min_soft = fin (pos 0);
  pos_max_hard = fin (pos 0);
  pos_min_hard = fin (pos 0);
  actual_pos = fin (pos 0);
  actual_vel = fin (pos 0);
  pos_offset = fin (pos 0);
  tpdo_user = 0;
  tpdo_stat = negsuc 0;
  rpdo_ctrl = pos 0;
}

abbrev context : Cx Whole ℕ ℕ ℕ
context = record {
  drives = unread ∷ [];
  count = 1;
  msg_ref = record { header = 0; n = 0; mode = mode_vel; u = [] };
  msg_state = record { seq = 0; stamp = 0; values = [] };
  is_halt = true;
  now = 0;
}

abbrev or_start : Run (Cx Whole ℕ ℕ ℕ × CanFrame) → Cx Whole ℕ ℕ ℕ × CanFrame
or_start (returned o) = o
or_start _ = (context, zero_frame)

abbrev ready : Cx Whole ℕ ℕ ℕ × CanFrame
ready = or_start (setup serving 1 0 whole 0 0 0 (fin (pos 0)) context zero_frame)

context-ready : setup serving 1 0 whole 0 0 0 (fin (pos 0)) context zero_frame ≡ returned ready
unfolding setup phase each_ok on_drive read_one map_one map_control map_feedback set_velocity
    start_one init_servo init_values init_mode init_limits with_limits ul_then start start_loop act
    ul_statusword state set_op_mode set_mode map_target map_object finish told dl_ctrlmask
    store_ctrl masked remap reconfigure map_objs map_word unmappable obj_bitsize sdo_ul_member
    sdo_dl_member request take_upload take_download sdo_ul sdo_dl sdo_query sdo_recv recv_loop
    sdo2can can2sdo sdo2can_cmd_ex can2sdo_cmd_ex req_id resp_id can2sdo_index can2sdo_subindex
    frame_func size_case type_of read write Scalar.u8 Scalar.u16 Scalar.u32 set_u8 set_u16 set_u32
    stle32 stle16 ldle32 ldle16 obj_dl obj_ul take_fetched copy_low take_stored obj_dl_member
    obj_ul_member
context-ready = refl

setup-Started_example : FirstAll Started ready.0.count ready.0.drives
setup-Started_example =
    setup-Started serving 1 0 whole 0 0 0 (fin (pos 0)) context zero_frame ready context-ready
