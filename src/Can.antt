-- ===== src/Can.antt =====
-- The vocabulary that all of the library shares: the status codes (include/socanmatic/status.h),
-- the kernel's CAN frame as far as the code reads and writes it, and the function and node parts of
-- an identifier (include/socanmatic/ds301.h).
pub mod Cobid
pub mod FuncCode
mod Tests
use socanmatic.Base.{ℕ, ◌%◌, ◌^◌, ◌<◌, bit_and}

-- `canmat_status_t`
pub data Status : Type 0 where
  ok err_os err_overflow err_underflow err_param : Status
  err_not_sup err_proto err_abort err_dev err_motion : Status

-- `struct can_frame`: the identifier, the byte count, and the bytes `data[0]` to `data[7]`.
pub record CanFrame : Type 0 where
  pub can_id : ℕ
  pub can_dlc : ℕ
  pub d0 : ℕ
  pub d1 : ℕ
  pub d2 : ℕ
  pub d3 : ℕ
  pub d4 : ℕ
  pub d5 : ℕ
  pub d6 : ℕ
  pub d7 : ℕ

-- `struct can_frame f = {0}`
abbrev pub zero_frame : CanFrame
zero_frame = record {
  can_id = 0;
  can_dlc = 0;
  d0 = 0;
  d1 = 0;
  d2 = 0;
  d3 = 0;
  d4 = 0;
  d5 = 0;
  d6 = 0;
  d7 = 0;
}

-- Every field is in the range of its C type.
pub record IsFrame (f : CanFrame) : Type 0 where
  pub id_in : f.can_id < 2 ^ 32
  pub dlc_in : f.can_dlc < 256
  pub d0_in : f.d0 < 256
  pub d1_in : f.d1 < 256
  pub d2_in : f.d2 < 256
  pub d3_in : f.d3 < 256
  pub d4_in : f.d4 < 256
  pub d5_in : f.d5 < 256
  pub d6_in : f.d6 < 256
  pub d7_in : f.d7 < 256

-- `CANMAT_NODE_MASK` has seven ones, so `x & CANMAT_NODE_MASK` is `x % 2 ^ 7`.
abbrev pub node_part : ℕ → ℕ
node_part x = x % 2 ^ 7

-- `~CANMAT_NODE_MASK & 0xFFFF`
abbrev pub func_mask : ℕ
func_mask = 0xFF80

unfoldable pub frame_func : CanFrame → ℕ
frame_func can = bit_and can.can_id func_mask

unfoldable pub frame_node : CanFrame → ℕ
frame_node can = node_part can.can_id
