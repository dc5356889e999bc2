-- ===== src/Ntcanopen/Texts.antt =====
-- The texts of the NTCAN library's results (src/ntcanopen.c).
use Prim.Native.String.{String}
use socanmatic.Ntcan.{
  NtResult, success, rx_timeout, tx_timeout, tx_error, contr_off_bus, contr_busy, contr_warn,
  no_id_enabled, id_already_enabled, invalid_firmware, message_lost, invalid_hardware,
  pending_write, pending_read, invalid_driver, sock_conn_timeout, sock_cmd_timeout,
  sock_host_not_found, invalid_parameter, invalid_handle, net_not_found, insufficient_resources,
  operation_aborted, wrong_device_state, handle_forced_close, not_implemented, not_supported,
  contr_err_passive, other,
}

-- `canResultString`
unfoldable pub can_result_string : NtResult → String
can_result_string success = "SUCCESS"
can_result_string rx_timeout = "RX_TIMEOUT"
can_result_string tx_timeout = "TX_TIMEOUT"
can_result_string tx_error = "TX_ERROR"
can_result_string contr_off_bus = "CONTR_OFF_BUS"
can_result_string contr_busy = "CONTR_BUSY"
can_result_string contr_warn = "CONTR_WARN"
can_result_string no_id_enabled = "NO_ID_ENABLED"
can_result_string id_already_enabled = "ID_ALREADY_ENABLED"
can_result_string invalid_firmware = "INVALID_FIRMWARE"
can_result_string message_lost = "MESSAGE_LOST"
can_result_string invalid_hardware = "INVALID_HARDWARE"
can_result_string pending_write = "PENDING_WRITE"
can_result_string pending_read = "PENDING_READ"
can_result_string invalid_driver = "INVALID_DRIVER"
can_result_string sock_conn_timeout = "SOCK_CONN_TIMEOUT"
can_result_string sock_cmd_timeout = "SOCK_CMD_TIMEOUT"
can_result_string sock_host_not_found = "SOCK_HOST_NOT_FOUND"
can_result_string invalid_parameter = "INVALID_PARAMETER"
can_result_string invalid_handle = "INVALID_HANDLE"
can_result_string net_not_found = "NET_NOT_FOUND"
can_result_string insufficient_resources = "INSUFFICIENT_RESOURCES"
can_result_string operation_aborted = "OPERATION_ABORTED"
can_result_string wrong_device_state = "WRONG_DEVICE_STATE"
can_result_string handle_forced_close = "HANDLE_FORCED_CLOSE"
can_result_string not_implemented = "NOT_IMPLEMENTED"
can_result_string not_supported = "NOT_SUPPORTED"
can_result_string contr_err_passive = "CONTR_ERR_PASSIVE"
can_result_string (other r) = "unknown"
