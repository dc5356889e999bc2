-- ===== src/Ds402/OpMode/Tests.antt =====
-- The velocity mode of node 5, whose drive is in that mode already and confirms every transfer.
use socanmatic.Base.{◌≡◌, refl, List, [], ◌∷◌}
use socanmatic.Base.Int.{pos}
use socanmatic.Can.{CanFrame, ok, frame_func}
use socanmatic.Byteorder.{stle32, stle16, ldle32}
use socanmatic.DataType.{size_case}
use socanmatic.Scalar
use socanmatic.Scalar.{set_u8, set_u16, set_u32}
use socanmatic.Scalar.Member.{type_of, read, write}
use socanmatic.Run.{returned}
use socanmatic.Sdo.Msg.{req_id, resp_id}
use socanmatic.Sdo.Command.{sdo2can_cmd_ex, can2sdo_cmd_ex}
use socanmatic.Sdo.Encode.{sdo2can}
use socanmatic.Sdo.Decode.{can2sdo, can2sdo_index, can2sdo_subindex}
use socanmatic.Sdo.Query.{recv_loop, sdo_recv, sdo_query, sdo_dl, sdo_ul}
use socanmatic.Sdo.Typed.{request, take_upload, take_download, sdo_ul_member, sdo_dl_member}
use socanmatic.Sdo.Fixture.{listed, asked_frame, answer_frame}
use socanmatic.Dict.{obj_bitsize}
use socanmatic.Dict.Transfer.{obj_dl, take_stored}
use socanmatic.Dict.Typed.{obj_dl_member}
use socanmatic.Pdo.{map_word, unmappable, map_objs, reconfigure, remap}
use socanmatic.Ds402.Words.{masked}
use socanmatic.Ds402.Start.{Drive, Outcome, store_ctrl, dl_ctrlmask}
use socanmatic.Ds402.OpMode.{
  told, map_object, finish, map_target, set_mode, set_op_mode, set_op_mode-sets, mode_velocity,
}

abbrev drive : Drive
drive = record {
  node_id = 5;
  ctrl_word = 0x10F;
  stat_word = 0;
  abort_code = 0;
  op_mode = 2;
  rpdo_user = pos 1;
}

-- The upload response with the comm word 0x205, and a download response.
abbrev comm_frame : CanFrame
comm_frame = record answer_frame { d0 = 0x43; d1 = 0x01; d2 = 0x14; d3 = 1; d4 = 0x05 }

abbrev yes_frame : CanFrame
yes_frame = record asked_frame { can_id = 0x585; d0 = 0x60 }

abbrev replies : List CanFrame
replies =
    comm_frame ∷ yes_frame ∷ yes_frame ∷ yes_frame ∷ yes_frame ∷ yes_frame ∷ yes_frame ∷ yes_frame
    ∷ []

abbrev mapped : Outcome listed.State
mapped = record { status = ok; drive = record drive { ctrl_word = 0x17F }; after = [] }

drive_mapped : set_op_mode listed 1 2 0 drive replies ≡ returned mapped
unfolding set_op_mode set_mode map_target map_object finish told dl_ctrlmask store_ctrl masked remap
    reconfigure map_objs map_word unmappable obj_bitsize sdo_ul_member sdo_dl_member request
    take_upload take_download sdo_ul sdo_dl sdo_query sdo_recv recv_loop sdo2can can2sdo
    sdo2can_cmd_ex can2sdo_cmd_ex req_id resp_id can2sdo_index can2sdo_subindex frame_func size_case
    type_of read write Scalar.u8 Scalar.u16 Scalar.u32 set_u8 set_u16 set_u32 stle32 stle16 ldle32
    obj_dl take_stored obj_dl_member
drive_mapped = refl

set_op_mode-sets_example : (mapped.drive.op_mode ≡ 2) × (2 ≡ mode_velocity)
set_op_mode-sets_example = set_op_mode-sets listed 1 2 0 drive replies mapped drive_mapped refl
