-- ===== src/Sdo/Msg.antt =====
-- `canmat_sdo_msg_t` and the COB-IDs of requests and responses (include/socanmatic/sdo.h).
use socanmatic.Base.{ℕ, ◌^◌, ◌<◌, bit_or}
use socanmatic.Can.{node_part}
use socanmatic.Can.FuncCode
use socanmatic.DataType.{DataType}
use socanmatic.Scalar.{Scalar, IsScalar}

-- `scalar` is the field `data`.
pub record SdoMsg : Type 0 where
  pub index : ℕ
  pub subindex : ℕ
  pub node : ℕ
  pub cmd_spec : ℕ
  pub data_type : DataType
  pub length : ℕ
  pub scalar : Scalar

-- Every field is in the range of its C type; `cmd_spec` has three bits.
pub record IsMsg (m : SdoMsg) : Type 0 where
  pub index_in : m.index < 2 ^ 16
  pub subindex_in : m.subindex < 2 ^ 8
  pub node_in : m.node < 2 ^ 8
  pub cmd_in : m.cmd_spec < 2 ^ 3
  pub length_in : m.length < 2 ^ 8
  pub scalar_in : IsScalar m.scalar

-- `CANMAT_SDO_REQ_ID` and `CANMAT_SDO_RESP_ID`
unfoldable pub req_id : ℕ → ℕ
req_id node = bit_or (node_part node) FuncCode.sdo_rx

unfoldable pub resp_id : ℕ → ℕ
resp_id node = bit_or (node_part node) FuncCode.sdo_tx
