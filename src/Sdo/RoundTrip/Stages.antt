-- ===== src/Sdo/RoundTrip/Stages.antt =====
-- The frames that `canmat_sdo2can` (src/sdo.c) makes of messages with data, and what
-- `canmat_can2sdo` reads from them, for each size of the data.
use socanmatic.Base.{ℕ, ◌%◌, ◌^◌, ◌≤◌, ◌≡◌, refl, Bool, true, false, some}
use socanmatic.Base.{arith, Bool-cases, if◌then◌else◌, inl, inr, ◌/◌, ◌-◌}
use socanmatic.Can.{CanFrame, ok, err_proto, frame_func, frame_node, node_part}
use socanmatic.Can.Cobid.{frame_func-cobid}
use socanmatic.Can.FuncCode
use socanmatic.Byteorder.{stle32, stle16, ldle32, ldle16}
use socanmatic.DataType.{DataType, void, four, two, one, zero_bytes, size_case}
use socanmatic.Scalar.{u8, u16, u32, set_u8, set_u16, set_u32}
use socanmatic.Sdo.Msg.{SdoMsg, IsMsg, req_id, resp_id}
use socanmatic.Sdo.Command.{sdo2can_cmd_ex, can2sdo_cmd_ex-sdo2can_cmd_ex}
use socanmatic.Sdo.Encode.{sends_nothing, sends_data, sdo2can}
use socanmatic.Sdo.Decode.{can2sdo, can2sdo_index, can2sdo_subindex}

-- The function code and the node of a response or request identifier.
resp_id_parts :
    (f : CanFrame) (node : ℕ)
    → f.can_id ≡ resp_id node
    → (frame_func f ≡ FuncCode.sdo_tx) × (node_part f.can_id ≡ node_part node)
unfolding resp_id frame_node
resp_id_parts f node e = frame_func-cobid f node 11 (omega arith) e

req_id_parts :
    (f : CanFrame) (node : ℕ)
    → f.can_id ≡ req_id node
    → (frame_func f ≡ FuncCode.sdo_rx) × (node_part f.can_id ≡ node_part node)
unfolding req_id frame_node
req_id_parts f node e = frame_func-cobid f node 12 (omega arith) e

-- The frame of a message, but for its command byte and its data.
abbrev pub with_ids : SdoMsg → Bool → CanFrame → CanFrame
with_ids src is_tx f = record f {
  can_id = if is_tx then resp_id src.node else req_id src.node;
  can_dlc = 8;
  d1 = src.index % 2 ^ 8;
  d2 = src.index / 2 ^ 8 % 2 ^ 8;
  d3 = src.subindex;
}

abbrev pub cmd_byte : SdoMsg → ℕ → ℕ
cmd_byte src len =
    sdo2can_cmd_ex (record { s = 1; e = 1; n = (4 - len) % 2 ^ 2; x = 0; cs = src.cmd_spec })

abbrev code_of : Bool → ℕ
code_of is_tx = if is_tx then FuncCode.sdo_tx else FuncCode.sdo_rx

parts :
    (src : SdoMsg) (is_tx : Bool) (f : CanFrame)
    → (frame_func (with_ids src is_tx f) ≡ code_of is_tx)
      × (node_part (with_ids src is_tx f).can_id ≡ node_part src.node)
parts src is_tx f = elim (Bool-cases is_tx) [
  | inl e ↦ rw e (resp_id_parts (with_ids src true f) src.node refl)
  | inr e ↦ rw e (req_id_parts (with_ids src false f) src.node refl)
]

module _ (stack : CanFrame) (dst src : SdoMsg) (is_tx : Bool) (v : IsMsg src)
    (short : src.length ≤ 4) (carries : sends_data is_tx src.cmd_spec ≡ true) where
  carries_something : sends_nothing is_tx src.cmd_spec ≡ false
  carries_something = ground arith

  -- What the frame of a message with four bytes of data holds.
  unfoldable pub data_four : CanFrame
  data_four = with_ids src is_tx (record stack {
    d0 = cmd_byte src 4;
    d4 = (stle32 (u32 src.scalar)).q0;
    d5 = (stle32 (u32 src.scalar)).q1;
    d6 = (stle32 (u32 src.scalar)).q2;
    d7 = (stle32 (u32 src.scalar)).q3;
  })

  pub encode_four : size_case src.data_type ≡ four → sdo2can stack src is_tx ≡ some (ok, data_four)
  unfolding sdo2can data_four
  encode_four e = ground (arith, carries_something)

  -- What the frame of a message with two bytes of data holds.
  unfoldable pub data_two : CanFrame
  data_two = with_ids src is_tx (record stack {
    d0 = cmd_byte src 2;
    d4 = (stle16 (u16 src.scalar)).q0;
    d5 = (stle16 (u16 src.scalar)).q1;
  })

  pub encode_two : size_case src.data_type ≡ two → sdo2can stack src is_tx ≡ some (ok, data_two)
  unfolding sdo2can data_two
  encode_two e = ground (arith, carries_something)

  -- What the frame of a message with one byte of data holds.
  unfoldable pub data_one : CanFrame
  data_one = with_ids src is_tx (record stack { d0 = cmd_byte src 1; d4 = u8 src.scalar })

  pub encode_one : size_case src.data_type ≡ one → sdo2can stack src is_tx ≡ some (ok, data_one)
  unfolding sdo2can data_one
  encode_one e = ground (arith, carries_something)

  pub decode_four :
      (f : CanFrame)
      → size_case src.data_type ≡ four
      → f.d0 ≡ cmd_byte src 4
      → can2sdo dst (with_ids src is_tx f) src.data_type ≡ (
        ok,
        record src {
          node = node_part src.node;
          length = 4;
          scalar =
              set_u32 dst.scalar (ldle32 (record { q0 = f.d4; q1 = f.d5; q2 = f.d6; q3 = f.d7 }));
        },
      )
  unfolding can2sdo can2sdo_index can2sdo_subindex
  decode_four f e e0 = ground (
    arith,
    parts src is_tx f,
    can2sdo_cmd_ex-sdo2can_cmd_ex (record { s = 1; e = 1; n = 0; x = 0; cs = src.cmd_spec }),
  )

  pub decode_two :
      (f : CanFrame)
      → size_case src.data_type ≡ two
      → f.d0 ≡ cmd_byte src 2
      → can2sdo dst (with_ids src is_tx f) src.data_type ≡ (
        ok,
        record src {
          node = node_part src.node;
          length = 2;
          scalar = set_u16 dst.scalar (ldle16 (record { q0 = f.d4; q1 = f.d5 }));
        },
      )
  unfolding can2sdo can2sdo_index can2sdo_subindex
  decode_two f e e0 = ground (
    arith,
    parts src is_tx f,
    can2sdo_cmd_ex-sdo2can_cmd_ex (record { s = 1; e = 1; n = 2; x = 0; cs = src.cmd_spec }),
  )

  pub decode_one :
      (f : CanFrame)
      → size_case src.data_type ≡ one
      → f.d0 ≡ cmd_byte src 1
      → can2sdo dst (with_ids src is_tx f) src.data_type ≡ (
        ok,
        record src { node = node_part src.node; length = 1; scalar = set_u8 dst.scalar f.d4 },
      )
  unfolding can2sdo can2sdo_index can2sdo_subindex
  decode_one f e e0 = ground (
    arith,
    parts src is_tx f,
    can2sdo_cmd_ex-sdo2can_cmd_ex (record { s = 1; e = 1; n = 3; x = 0; cs = src.cmd_spec }),
  )

  -- A message of type void gets the command byte of one with four bytes.
  unfoldable pub data_void : CanFrame
  data_void = with_ids src is_tx (record stack { d0 = cmd_byte src 0 })

  pub encode_void :
      size_case src.data_type ≡ zero_bytes → sdo2can stack src is_tx ≡ some (ok, data_void)
  unfolding sdo2can data_void
  encode_void e = ground (arith, carries_something)

  pub decode_void :
      (f : CanFrame)
      → size_case src.data_type ≡ zero_bytes
      → f.d0 ≡ cmd_byte src 0
      → can2sdo dst (with_ids src is_tx f) src.data_type
        ≡ (err_proto, record src { node = node_part src.node; length = 4; scalar = dst.scalar })
  unfolding can2sdo can2sdo_index can2sdo_subindex
  decode_void f e e0 = ground (
    arith,
    parts src is_tx f,
    can2sdo_cmd_ex-sdo2can_cmd_ex (record { s = 1; e = 1; n = 0; x = 0; cs = src.cmd_spec }),
  )

module _ (stack : CanFrame) (dst src : SdoMsg) (is_tx : Bool) (v : IsMsg src)
    (short : src.length ≤ 4) (quiet : sends_nothing is_tx src.cmd_spec ≡ true) where
  unfoldable pub data_none : CanFrame
  data_none = with_ids src is_tx (record stack {
    d0 = sdo2can_cmd_ex (record { s = 0; e = 0; n = 0; x = 0; cs = src.cmd_spec });
    d4 = 0;
    d5 = 0;
    d6 = 0;
    d7 = 0;
  })

  pub encode_none : sdo2can stack src is_tx ≡ some (ok, data_none)
  unfolding sdo2can data_none
  encode_none = ground arith

  pub decode_none :
      (data_type : DataType)
      → can2sdo dst data_none data_type ≡ (
        ok,
        record src { node = node_part src.node; length = 0; data_type = void; scalar = dst.scalar },
      )
  unfolding can2sdo can2sdo_index can2sdo_subindex data_none size_case
  decode_none data_type = ground (
    arith,
    parts src is_tx data_none,
    can2sdo_cmd_ex-sdo2can_cmd_ex (record { s = 0; e = 0; n = 0; x = 0; cs = src.cmd_spec }),
  )
