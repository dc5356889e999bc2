-- ===== src/Sdo/RoundTrip.antt =====
-- Decoding an encoded SDO message (src/sdo.c).
mod Stages
use Stages.{data_four, encode_four, decode_four, data_two, encode_two, decode_two}
use Stages.{data_one, encode_one, decode_one, data_void, encode_void, decode_void}
use Stages.{data_none, encode_none, decode_none}
use socanmatic.Base.{◌≤◌, ◌<◌, ◌≡◌, refl, Bool, true, Option, none, some, arith}
use socanmatic.Can.{CanFrame, Status, ok, err_proto}
use socanmatic.DataType.{DataType, void, Size, four, two, one, zero_bytes, unsupported, size_case}
use socanmatic.Scalar.Wire.{wire_u32, wire_u16, wire_u8}
use socanmatic.Sdo.Msg.{SdoMsg, IsMsg}
use socanmatic.Sdo.Encode.{sends_nothing, sends_data, sdo2can}
use socanmatic.Sdo.Decode.{can2sdo}

-- The message that arrives: the one sent, with the length of its type, over the bytes of the
-- receiver's scalar that the type does not have. `none` for types that carry no data.
abbrev pub carried : SdoMsg → SdoMsg → Size → Option SdoMsg
carried dst src four = some (record src { length = 4 })
carried dst src two = some (record src {
  length = 2;
  scalar = record (dst.scalar) { byte0 = src.scalar.byte0; byte1 = src.scalar.byte1 };
})
carried dst src one =
    some (record src { length = 1; scalar = record (dst.scalar) { byte0 = src.scalar.byte0 } })
carried dst src zero_bytes = none
carried dst src unsupported = none

module _ (stack : CanFrame) (dst src : SdoMsg) (is_tx : Bool) (v : IsMsg src) where
  trip :
      (size : Size) (m : SdoMsg)
      → src.length ≤ 4
      → sends_data is_tx src.cmd_spec ≡ true
      → src.node < 128
      → size_case src.data_type ≡ size
      → carried dst src size ≡ some m
      → (f : CanFrame) × (sdo2can stack src is_tx ≡ some (ok, f))
        × (can2sdo dst f src.data_type ≡ (ok, m))
  unfolding data_four data_two data_one
  trip four m s d h e c = (
    data_four stack dst src is_tx v s d,
    encode_four stack dst src is_tx v s d e,
    ground (
      arith,
      decode_four stack dst src is_tx v s d (data_four stack dst src is_tx v s d) e refl,
      wire_u32 dst.scalar src.scalar v.scalar_in,
    ),
  )
  trip two m s d h e c = (
    data_two stack dst src is_tx v s d,
    encode_two stack dst src is_tx v s d e,
    ground (
      arith,
      decode_two stack dst src is_tx v s d (data_two stack dst src is_tx v s d) e refl,
      wire_u16 dst.scalar src.scalar v.scalar_in,
    ),
  )
  trip one m s d h e c = (
    data_one stack dst src is_tx v s d,
    encode_one stack dst src is_tx v s d e,
    ground (
      arith,
      decode_one stack dst src is_tx v s d (data_one stack dst src is_tx v s d) e refl,
      wire_u8 dst.scalar src.scalar v.scalar_in,
    ),
  )
  trip zero_bytes m s d h e c = absurd (cc)
  trip unsupported m s d h e c = absurd (cc)

  -- A message that carries data (a download request or an upload response) to or from a node
  -- below 128, with a type of four, two or one bytes, every field in range and a length of at most
  -- 4, is encoded without error, and decoding the frame at its type gives back its node, indices, command and data, with
  -- the length of the type.
  pub can2sdo-sdo2can :
      (m : SdoMsg)
      → src.length ≤ 4
      → src.node < 128
      → sends_data is_tx src.cmd_spec ≡ true
      → carried dst src (size_case src.data_type) ≡ some m
      → (f : CanFrame) × (sdo2can stack src is_tx ≡ some (ok, f))
        × (can2sdo dst f src.data_type ≡ (ok, m))
  can2sdo-sdo2can m s h d c = trip (size_case src.data_type) m s d h refl c

  -- A message that carries no data (an upload request or a download response), to or from a node
  -- below 128, with every field in range and a length of at most 4, is encoded without error, and
  -- decodes at any type as itself with type void and length 0.
  pub can2sdo-sdo2can_empty :
      (data_type : DataType)
      → src.length ≤ 4
      → src.node < 128
      → sends_nothing is_tx src.cmd_spec ≡ true
      → (f : CanFrame) × (sdo2can stack src is_tx ≡ some (ok, f))
        × (can2sdo dst f data_type
            ≡ (ok, record src { length = 0; data_type = void; scalar = dst.scalar }))
  can2sdo-sdo2can_empty data_type s h q = (
    data_none stack dst src is_tx v s q,
    encode_none stack dst src is_tx v s q,
    ground (arith, decode_none stack dst src is_tx v s q data_type),
  )

  -- A message of type void under a command that carries data, to or from a node below 128, with
  -- every field in range and a length of at most 4, is encoded without error, and the frame is then
  -- refused as a protocol error at that same type: its command byte announces four
  -- bytes.
  pub can2sdo-sdo2can_void :
      src.length ≤ 4
      → src.node < 128
      → sends_data is_tx src.cmd_spec ≡ true
      → size_case src.data_type ≡ zero_bytes
      → (f : CanFrame) × (sdo2can stack src is_tx ≡ some (ok, f))
        × (can2sdo dst f src.data_type
            ≡ (err_proto, record src { length = 4; scalar = dst.scalar }))
  unfolding data_void
  can2sdo-sdo2can_void s h d e = (
    data_void stack dst src is_tx v s d,
    encode_void stack dst src is_tx v s d e,
    ground
        (arith, decode_void stack dst src is_tx v s d (data_void stack dst src is_tx v s d) e refl),
  )
