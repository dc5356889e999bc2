-- ===== src/Sdo/Decode.antt =====
-- `canmat_can2sdo` (src/sdo.c): a CAN frame as an SDO message.
pub mod Accepts
pub mod Length
use socanmatic.Base.{ℕ, ◌+◌, ◌-◌, ◌*◌, ◌%◌, ◌^◌, Bool, true, false, ◌||◌, not}
use socanmatic.Base.{ltb, ◌==◌, if◌then◌else◌}
use socanmatic.Can.{CanFrame, Status, ok, err_param, err_proto, err_abort, frame_func, node_part}
use socanmatic.Can.FuncCode
use socanmatic.Byteorder.{ldle32, ldle16}
use socanmatic.DataType.{
  DataType, unsigned32, void, Size, four, two, one, zero_bytes, unsupported, size_case,
}
use socanmatic.Scalar.{set_u8, set_u16, set_u32}
use socanmatic.Sdo.Msg.{SdoMsg}
use socanmatic.Sdo.Command.{CmdEx, can2sdo_cmd_ex, cs_abort}
use socanmatic.Sdo.Encode.{sends_nothing, sends_data}

-- `canmat_can2sdo_index` and `canmat_can2sdo_subindex`
unfoldable pub can2sdo_index : CanFrame → ℕ
can2sdo_index src = (src.d1 + src.d2 * 2 ^ 8) % 2 ^ 16

unfoldable pub can2sdo_subindex : CanFrame → ℕ
can2sdo_subindex src = src.d3

-- `return CANMAT_CS_ABORT == dst->cmd_spec ? CANMAT_ERR_ABORT : CANMAT_OK`
final_status : SdoMsg → Status
final_status dst = if cs_abort == dst.cmd_spec then err_abort else ok

-- The switch over the data type, with its checks of both lengths.
get_data : SdoMsg → CanFrame → Size → Status × SdoMsg
get_data dst src four =
    if ltb src.can_dlc 8 || not (dst.length == 4)
    then (err_proto, dst)
    else let u = ldle32 (record { q0 = src.d4; q1 = src.d5; q2 = src.d6; q3 = src.d7 }) in
      (final_status dst, record dst { scalar = set_u32 dst.scalar u })
get_data dst src two =
    if ltb src.can_dlc 6 || not (dst.length == 2)
    then (err_proto, dst)
    else let u = ldle16 (record { q0 = src.d4; q1 = src.d5 }) in
      (final_status dst, record dst { scalar = set_u16 dst.scalar u })
get_data dst src one =
    if ltb src.can_dlc 5 || not (dst.length == 1)
    then (err_proto, dst)
    else (final_status dst, record dst { scalar = set_u8 dst.scalar src.d4 })
get_data dst src zero_bytes =
    if not (dst.length == 0) then (err_proto, dst) else (final_status dst, dst)
get_data dst src unsupported = (err_param, dst)

-- Node and indices, once the command is accepted, and then the data.
get_ids : SdoMsg → CanFrame → Status × SdoMsg
get_ids dst src =
    get_data
      (record dst {
        node = node_part src.can_id;
        index = can2sdo_index src;
        subindex = can2sdo_subindex src;
      })
      src (size_case dst.data_type)

-- The length that a transfer with data declares.
data_length : CmdEx → CanFrame → ℕ
data_length cmd src = if cmd.s == 0 then (src.can_dlc - 4) % 2 ^ 8 else 4 - cmd.n

get_cmd : Bool → SdoMsg → CanFrame → DataType → Status × SdoMsg
get_cmd is_tx dst src data_type =
    let cmd = can2sdo_cmd_ex src.d0 in
    if cs_abort == cmd.cs
    then get_ids (record dst { cmd_spec = cmd.cs; data_type = unsigned32; length = 4 }) src
    else if sends_nothing is_tx cmd.cs
    then get_ids (record dst { cmd_spec = cmd.cs; length = 0; data_type = void }) src
    else if sends_data is_tx cmd.cs
    then get_ids
        (record dst { cmd_spec = cmd.cs; data_type = data_type; length = data_length cmd src }) src
    else (err_proto, record dst { cmd_spec = cmd.cs })

-- The message is written in place: what an early return leaves unwritten stays as `dst` had it.
unfoldable pub can2sdo : SdoMsg → CanFrame → DataType → Status × SdoMsg
unfolding get_cmd get_ids get_data data_length final_status
can2sdo dst src data_type =
    let func = frame_func src in
    if ltb src.can_dlc 4
    then (err_proto, dst)
    else if FuncCode.sdo_tx == func
    then get_cmd true dst src data_type
    else if FuncCode.sdo_rx == func
    then get_cmd false dst src data_type
    else (err_proto, dst)
