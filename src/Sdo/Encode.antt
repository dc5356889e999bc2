-- ===== src/Sdo/Encode.antt =====
-- `canmat_sdo2can` (src/sdo.c): an SDO message as a CAN frame.
pub mod Ids
use socanmatic.Base.{ℕ, ◌-◌, ◌/◌, ◌%◌, ◌^◌, Bool, ◌&&◌, ◌||◌, not, Option, none, some}
use socanmatic.Base.{ltb, ◌==◌, if◌then◌else◌}
use socanmatic.Can.{CanFrame, Status, ok, err_param}
use socanmatic.Byteorder.{stle32, stle16}
use socanmatic.DataType.{Size, four, two, one, zero_bytes, unsupported, size_case}
use socanmatic.Scalar.{u8, u16, u32}
use socanmatic.Sdo.Msg.{SdoMsg, req_id, resp_id}
use socanmatic.Sdo.Command.{CmdEx, sdo2can_cmd_ex, ccs_ex_dl, ccs_ex_ul, scs_ex_dl, scs_ex_ul}

-- The command carries no data: a download response or an upload request.
abbrev pub sends_nothing : Bool → ℕ → Bool
sends_nothing is_tx cs = (is_tx && scs_ex_dl == cs) || (not is_tx && ccs_ex_ul == cs)

-- The command carries data: an upload response or a download request.
abbrev pub sends_data : Bool → ℕ → Bool
sends_data is_tx cs = (is_tx && scs_ex_ul == cs) || (not is_tx && ccs_ex_dl == cs)

put_ids : CanFrame → SdoMsg → Bool → CanFrame
put_ids dst src is_tx = record dst {
  can_id = if is_tx then resp_id src.node else req_id src.node;
  d1 = src.index % 2 ^ 8;
  d2 = src.index / 2 ^ 8 % 2 ^ 8;
  d3 = src.subindex;
}

put_cmd : CanFrame → CmdEx → Status × CanFrame
put_cmd dst cmd = (ok, record dst { d0 = sdo2can_cmd_ex cmd; can_dlc = 8 })

-- `cmd.n = (4-len) & 0x3`, with the size and the expedited bit set.
data_cmd : ℕ → ℕ → CmdEx
data_cmd cs len = record { s = 1; e = 1; n = (4 - len) % 2 ^ 2; x = 0; cs = cs }

put_data : CanFrame → SdoMsg → Size → Status × CanFrame
put_data dst src four =
    let q = stle32 (u32 src.scalar) in
    put_cmd (record dst { d4 = q.q0; d5 = q.q1; d6 = q.q2; d7 = q.q3 }) (data_cmd src.cmd_spec 4)
put_data dst src two =
    let q = stle16 (u16 src.scalar) in
    put_cmd (record dst { d4 = q.q0; d5 = q.q1 }) (data_cmd src.cmd_spec 2)
put_data dst src one = put_cmd (record dst { d4 = u8 src.scalar }) (data_cmd src.cmd_spec 1)
put_data dst src zero_bytes = put_cmd dst (data_cmd src.cmd_spec 0)
put_data dst src unsupported = (err_param, dst)

-- `none` is the failed assertion on the length. The frame is written in place: what an early
-- return leaves unwritten stays as `dst` had it.
unfoldable pub sdo2can : CanFrame → SdoMsg → Bool → Option (Status × CanFrame)
unfolding put_ids put_cmd put_data data_cmd
sdo2can dst src is_tx =
    if ltb 4 src.length
    then none
    else let ids = put_ids dst src is_tx in
      some (
        if sends_nothing is_tx src.cmd_spec
        then put_cmd (record ids { d4 = 0; d5 = 0; d6 = 0; d7 = 0 })
            (record { s = 0; e = 0; n = 0; x = 0; cs = src.cmd_spec })
        else if sends_data is_tx src.cmd_spec
        then put_data ids src (size_case src.data_type)
        else (err_param, ids))
