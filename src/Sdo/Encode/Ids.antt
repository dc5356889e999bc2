-- ===== src/Sdo/Encode/Ids.antt =====
-- The identifier and the indices of the frame that `canmat_sdo2can` (src/sdo.c) makes.
use socanmatic.Base.{
  ℕ, ◌<◌, ◌≡◌, refl, inl, inr, Bool, true, false, some, arith, Bool-cases, ltb, if◌then◌else◌,
}
use mathlib.Core.Path.{subst}
use socanmatic.Can.{CanFrame, Status, frame_func, frame_node}
use socanmatic.Can.Cobid.{frame_func-cobid}
use socanmatic.Can.FuncCode
use socanmatic.DataType.{Size, four, two, one, zero_bytes, unsupported, size_case}
use socanmatic.Sdo.Decode.{can2sdo_index, can2sdo_subindex}
use socanmatic.Sdo.Encode.{put_ids, put_cmd, put_data, sdo2can, sends_data}
use socanmatic.Sdo.Msg.{SdoMsg, IsMsg, req_id, resp_id}

-- Two frames with the same identifier and indices
abbrev SameIds : CanFrame → CanFrame → Type 0
SameIds f g = (f.can_id ≡ g.can_id) × (f.d1 ≡ g.d1) × (f.d2 ≡ g.d2) × (f.d3 ≡ g.d3)

put_data_ids :
    (dst : CanFrame) (src : SdoMsg) (size : Size) → SameIds ((put_data dst src size).1) dst
unfolding put_data put_cmd
put_data_ids dst src four = (refl, refl, refl, refl)
put_data_ids dst src two = (refl, refl, refl, refl)
put_data_ids dst src one = (refl, refl, refl, refl)
put_data_ids dst src zero_bytes = (refl, refl, refl, refl)
put_data_ids dst src unsupported = (refl, refl, refl, refl)

module _ (stack : CanFrame) (src : SdoMsg) (is_tx : Bool) where
  -- The frame of a message with data is the one of its type's size.
  encoded :
      (r : Status) (f : CanFrame)
      → sends_data is_tx src.cmd_spec ≡ true
      → sdo2can stack src is_tx ≡ some (r, f)
      → put_data (put_ids stack src is_tx) src (size_case src.data_type) ≡ (r, f)
  unfolding sdo2can
  encoded r f d h = elim (Bool-cases (ltb 4 src.length)) [
    | inl a ↦ absurd (ground (arith, a, h))
    | inr a ↦ ground (arith, a, h)
  ]

-- `CANMAT_FUNC_CODE_SDO_TX` or `CANMAT_FUNC_CODE_SDO_RX`
abbrev pub code_of : Bool → ℕ
code_of is_tx = if is_tx then FuncCode.sdo_tx else FuncCode.sdo_rx

-- What a receiver reads off the identifier and the indices.
abbrev pub Addressed : SdoMsg → Bool → CanFrame → Type 0
Addressed src is_tx f =
    (frame_func f ≡ code_of is_tx)
    × (frame_node f ≡ src.node)
    × (can2sdo_index f ≡ src.index)
    × (can2sdo_subindex f ≡ src.subindex)

module _ (stack : CanFrame) (src : SdoMsg) (v : IsMsg src) (low : src.node < 128) where
  addressed :
      (is_tx : Bool) (f : CanFrame) → SameIds f (put_ids stack src is_tx) → Addressed src is_tx f
  unfolding put_ids can2sdo_index can2sdo_subindex resp_id req_id
  addressed true f (id, i1, i2, i3) =
      let (code, node) = frame_func-cobid f src.node 11 (omega arith) id in
      (omega (arith, code), omega (arith, node), omega (arith, v.index_in), i3)
  addressed false f (id, i1, i2, i3) =
      let (code, node) = frame_func-cobid f src.node 12 (omega arith) id in
      (omega (arith, code), omega (arith, node), omega (arith, v.index_in), i3)

  -- The frame of a message with data has the function code of its direction, the node and the two
  -- indices of the message.
  pub sdo2can-Addressed :
      (is_tx : Bool) (r : Status) (f : CanFrame)
      → sends_data is_tx src.cmd_spec ≡ true
      → sdo2can stack src is_tx ≡ some (r, f)
      → Addressed src is_tx f
  sdo2can-Addressed is_tx r f d h = addressed is_tx f (
      subst (λ (p : Status × CanFrame). SameIds p.1 (put_ids stack src is_tx))
        (encoded stack src is_tx r f d h)
        (put_data_ids (put_ids stack src is_tx) src (size_case src.data_type)))
