-- ===== src/Ntcanopen.antt =====
-- The messages of the legacy SDO client (src/ntcanopen.c, src/ntcanopen.h): the command byte, the
-- accessors of the data, and the translations to and from the NTCAN library's messages.
pub mod Texts
pub mod Exchange
mod Tests
pub mod Answer
pub mod Translate
use socanmatic.Base.{
  ℕ, ◌+◌, ◌-◌, ◌*◌, ◌/◌, ◌%◌, ◌^◌, ◌<◌, ◌≤◌, Bool, true, false, ◌&&◌, ◌||◌, not, ltb, ◌==◌,
  if◌then◌else◌, bit_or,
}
use socanmatic.Run.{Run, assert_failed, fault, returned, ◌>>=◌}
use socanmatic.Ntcan.{Cmsg}

-- `MAX_SDO_DATA_LENGTH`
abbrev pub max_sdo_data_length : ℕ
max_sdo_data_length = 4

-- `sdo_msg_t`; `b0` to `b3` are `data[0]` to `data[3]`.
pub record NtSdo : Type 0 where
  pub command : ℕ
  pub index : ℕ
  pub subindex : ℕ
  pub b0 : ℕ
  pub b1 : ℕ
  pub b2 : ℕ
  pub b3 : ℕ
  pub node : ℕ
  pub length : ℕ
  pub is_amc : ℕ

-- `CANOPEN_SDO_REQ_ID` and `CANOPEN_SDO_RESP_ID`
abbrev pub nt_req_id : ℕ → ℕ
nt_req_id node = 0x600 + node

abbrev pub nt_resp_id : ℕ → ℕ
nt_resp_id node = 0x580 + node

-- The byte at `i` after `memcpy` of `n` bytes and `bzero` of the others.
abbrev pub filled : ℕ → ℕ → ℕ → ℕ
filled n i x = if ltb i n then x else 0

-- `canOpenTranslateSDO`, which writes all of `*dst`
unfoldable pub translate_sdo : NtSdo → Bool → Run Cmsg
translate_sdo src is_response =
    if ltb 4 src.length
    then assert_failed
    else returned (record {
      id = if is_response then 0x580 + src.node else 0x600 + src.node;
      len = src.length + 4;
      b0 = src.command;
      b1 = src.index % 2 ^ 8;
      b2 = src.index / 2 ^ 8 % 2 ^ 8;
      b3 = src.subindex;
      b4 = filled src.length 0 src.b0;
      b5 = filled src.length 1 src.b1;
      b6 = filled src.length 2 src.b2;
      b7 = filled src.length 3 src.b3;
    })

-- `canOpenTranslateCAN`. A message of fewer than four bytes wraps `dst->length`, so that `memcpy`
-- leaves both arrays.
unfoldable pub translate_can : NtSdo → Cmsg → Bool → Run NtSdo
translate_can dst src is_request =
    if ltb 8 src.len
    then assert_failed
    else let length : ℕ = (src.len + 2 ^ 8 - 4) % 2 ^ 8 in
      if ltb 4 length
      then fault
      else returned (record dst {
        node = (src.id + 2 ^ 32 - (if is_request then 0x600 else 0x580)) % 2 ^ 8;
        length = length;
        command = src.b0;
        index = (src.b1 + src.b2 * 2 ^ 8) % 2 ^ 16;
        subindex = src.b3;
        b0 = filled length 0 src.b4;
        b1 = filled length 1 src.b5;
        b2 = filled length 2 src.b6;
        b3 = filled length 3 src.b7;
      })

-- `b ? 1 : 0`
abbrev pub bit_of : ℕ → ℕ
bit_of b = if b == 0 then 0 else 1

-- `canOpenCommand`
unfoldable pub can_open_command : ℕ → ℕ → ℕ → ℕ → Run ℕ
can_open_command command_spec nodata_len is_expedited is_len_in_cmd =
    if ltb 3 nodata_len
    then assert_failed
    else if (not (is_expedited == 0) && not (is_len_in_cmd == 0)) || nodata_len == 0
    then returned (
        bit_or
          (bit_or (bit_or (bit_of is_len_in_cmd) (bit_of is_expedited * 2 ^ 1))
            (nodata_len % 2 ^ 2 * 2 ^ 2))
          (command_spec % 2 ^ 3 * 2 ^ 5)
        % 2 ^ 8)
    else assert_failed

-- The accessors. A signed value stands as its bits in two's complement.
unfoldable pub put_uint8 : NtSdo → ℕ → NtSdo
put_uint8 sdo d = record sdo { length = 1; b0 = d; b1 = 0; b2 = 0; b3 = 0 }

unfoldable pub get_uint8 : NtSdo → Run ℕ
get_uint8 s = if ltb s.length 1 then assert_failed else returned (bit_or 0 s.b0)

unfoldable pub put_uint16 : NtSdo → ℕ → NtSdo
put_uint16 s d = record s { length = 2; b0 = d % 2 ^ 8; b1 = d / 2 ^ 8 % 2 ^ 8; b2 = 0; b3 = 0 }

unfoldable pub get_uint16 : NtSdo → Run ℕ
get_uint16 s =
    if ltb s.length 2
    then assert_failed
    else returned (bit_or (bit_or 0 s.b0) (s.b1 * 2 ^ 8) % 2 ^ 16)

unfoldable pub put_int16 : NtSdo → ℕ → NtSdo
put_int16 s d = record s { length = 2; b0 = d % 2 ^ 8; b1 = d / 2 ^ 8 % 2 ^ 8; b2 = 0; b3 = 0 }

unfoldable pub get_int16 : NtSdo → Run ℕ
get_int16 s =
    if ltb s.length 2
    then assert_failed
    else returned (bit_or (bit_or 0 s.b0) (s.b1 * 2 ^ 8) % 2 ^ 16)

unfoldable pub put_uint32 : NtSdo → ℕ → NtSdo
put_uint32 s d = record s {
  length = 4;
  b0 = d % 2 ^ 8;
  b1 = d / 2 ^ 8 % 2 ^ 8;
  b2 = d / 2 ^ 16 % 2 ^ 8;
  b3 = d / 2 ^ 24 % 2 ^ 8;
}

-- The four bytes of a 32-bit value together.
abbrev pub joined : NtSdo → ℕ
joined s =
    bit_or (bit_or (bit_or (bit_or 0 s.b0) (s.b1 * 2 ^ 8)) (s.b2 * 2 ^ 16)) (s.b3 * 2 ^ 24) % 2 ^ 32

unfoldable pub get_uint32 : NtSdo → Run ℕ
get_uint32 s = if ltb s.length 2 then assert_failed else returned (joined s)

-- It sets the length to 2, although it stores four bytes.
unfoldable pub put_int32 : NtSdo → ℕ → NtSdo
put_int32 s d = record s {
  length = 2;
  b0 = d % 2 ^ 8;
  b1 = d / 2 ^ 8 % 2 ^ 8;
  b2 = d / 2 ^ 16 % 2 ^ 8;
  b3 = d / 2 ^ 24 % 2 ^ 8;
}

unfoldable pub get_int32 : NtSdo → Run ℕ
get_int32 s = if ltb s.length 2 then assert_failed else returned (joined s)

-- `canOpenDecode_int32`, at the bytes `p[0]` to `p[3]`
unfoldable pub decode_int32 : ℕ → ℕ → ℕ → ℕ → ℕ
decode_int32 p0 p1 p2 p3 =
    bit_or (bit_or (bit_or p0 (p1 * 2 ^ 8)) (p2 * 2 ^ 16)) (p3 * 2 ^ 24) % 2 ^ 32

-- `canopen_nmt_msg_t`
pub data NtNmtMsg : Type 0 where
  nmt_inval nmt_start_remote nmt_stop_remote nmt_pre_op nmt_reset_node nmt_reset_com : NtNmtMsg

-- The enumerators as the byte that is stored.
abbrev pub nt_nmt_code : NtNmtMsg → ℕ
nt_nmt_code nmt_inval = 2 ^ 8 - 1
nt_nmt_code nmt_start_remote = 0x1
nt_nmt_code nmt_stop_remote = 0x2
nt_nmt_code nmt_pre_op = 0x80
nt_nmt_code nmt_reset_node = 0x81
nt_nmt_code nmt_reset_com = 0x82

-- `canOpenTranslateNMT`, in place
unfoldable pub translate_nmt : Cmsg → ℕ → NtNmtMsg → Cmsg
translate_nmt msg node nmt_msg = record msg { id = 0; len = 2; b0 = nt_nmt_code nmt_msg; b1 = node }
