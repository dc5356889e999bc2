-- ===== src/Nmt.antt =====
-- Network management and synchronisation messages (src/nmt.c, include/socanmatic/nmt.h, and
-- `canmat_sync` of src/ds301.c).
use socanmatic.Base.{ℕ}
use socanmatic.Can.{CanFrame, Status, zero_frame}
use socanmatic.Can.FuncCode.{sync_emcy}

-- `canmat_nmt_msg_t`
pub data NmtMsg : Type 0 where
  start_remote stop_remote pre_op reset_node reset_com : NmtMsg

abbrev pub nmt_code : NmtMsg → ℕ
nmt_code start_remote = 0x1
nmt_code stop_remote = 0x2
nmt_code pre_op = 0x80
nmt_code reset_node = 0x81
nmt_code reset_com = 0x82

-- `canmat_nmt_err_msg_t`, the states that error control reports
pub data NmtErr : Type 0 where
  err_boot err_stopped err_op err_pre_op : NmtErr

abbrev pub nmt_err_code : NmtErr → ℕ
nmt_err_code err_boot = 0x00
nmt_err_code err_stopped = 0x04
nmt_err_code err_op = 0x05
nmt_err_code err_pre_op = 0x7F

-- The frame that `canmat_send_nmt` sends.
abbrev pub nmt_frame : ℕ → NmtMsg → CanFrame
nmt_frame node msg = record zero_frame { can_id = 0; can_dlc = 2; d0 = nmt_code msg; d1 = node }

-- The frame that `canmat_sync` sends.
abbrev pub sync_frame : CanFrame
sync_frame = record zero_frame { can_dlc = 0; can_id = sync_emcy }

module _ {State : Type 0} (send : State → CanFrame → Status × State) where
  unfoldable pub send_nmt : State → ℕ → NmtMsg → Status × State
  send_nmt s node msg = send s (nmt_frame node msg)

  unfoldable pub sync : State → Status × State
  sync s = send s sync_frame
