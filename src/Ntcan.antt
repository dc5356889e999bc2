-- ===== src/Ntcan.antt =====
-- What src/ntcanopen.c and src/src/iface/iface_ntcan.c call of esd's NTCAN library, which the
-- repository does not hold: its functions are a parameter.
use socanmatic.Base.{ℕ, Bool, true, false}

-- `NTCAN_RESULT`, with the constants that the code names; their values are in ntcan.h.
pub data NtResult : Type 0 where
  success rx_timeout tx_timeout tx_error contr_off_bus contr_busy contr_warn : NtResult
  no_id_enabled id_already_enabled invalid_firmware message_lost invalid_hardware : NtResult
  pending_write pending_read invalid_driver sock_conn_timeout sock_cmd_timeout : NtResult
  sock_host_not_found invalid_parameter invalid_handle net_not_found : NtResult
  insufficient_resources operation_aborted wrong_device_state handle_forced_close : NtResult
  not_implemented not_supported contr_err_passive : NtResult
  other : ℕ → NtResult

-- `NTCAN_SUCCESS == r`
abbrev pub is_success : NtResult → Bool
is_success success = true
is_success _ = false

-- `CMSG`, with the fields that the code reads and writes; `id` holds the 32 bits of an `int32_t`.
pub record Cmsg : Type 0 where
  pub id : ℕ
  pub len : ℕ
  pub b0 : ℕ
  pub b1 : ℕ
  pub b2 : ℕ
  pub b3 : ℕ
  pub b4 : ℕ
  pub b5 : ℕ
  pub b6 : ℕ
  pub b7 : ℕ

-- The constants `NTCAN_BAUD_*` that the code names.
pub data Baud : Type 0 where
  baud_1000 baud_800 baud_500 baud_250 baud_125 baud_100 baud_50 baud_20 baud_10 : Baud
  baud_other : ℕ → Baud

-- The library's functions on the handle that the code holds. `can_write` and `can_read` move one
-- message; `can_read` is given the message that it overwrites. `stack_cmsg` is what a local `CMSG`
-- holds before anything is stored in it.
pub record Ntcan : Type 1 where
  pub State : Type 0
  pub can_write : State → Cmsg → NtResult × State
  pub can_read : State → Cmsg → NtResult × Cmsg × State
  pub can_id_add : State → ℕ → NtResult × State
  pub can_id_delete : State → ℕ → NtResult × State
  pub can_open : State → ℕ → NtResult × State
  pub can_close : State → NtResult × State
  pub can_set_baudrate : State → Baud → NtResult × State
  pub stack_cmsg : State → Cmsg
