-- ===== src/Iface/Esd/Texts.antt =====
-- The texts of the errors of the driver over the NTCAN library (src/iface/iface_ntcan.c).
use Prim.Native.String.{String}
use socanmatic.Base.{if◌then◌else◌}
use socanmatic.Iface.{Iface, is_esd}
use socanmatic.Ntcan.{
  NtResult, success, rx_timeout, tx_timeout, tx_error, contr_off_bus, contr_busy, contr_warn,
  no_id_enabled, id_already_enabled, invalid_firmware, message_lost, invalid_hardware,
  pending_write, pending_read, invalid_driver, sock_conn_timeout, sock_cmd_timeout,
  sock_host_not_found, invalid_parameter, invalid_handle, net_not_found, insufficient_resources,
  operation_aborted, wrong_device_state, handle_forced_close, not_implemented, not_supported,
  contr_err_passive, other,
}

-- The switch of `v_strerror`
unfoldable pub esd_text : NtResult → String
esd_text success = "NTCAN_SUCCESS"
esd_text rx_timeout = "NTCAN_RX_TIMEOUT"
esd_text tx_timeout = "NTCAN_TX_TIMEOUT"
esd_text tx_error = "NTCAN_TX_ERROR"
esd_text contr_off_bus = "NTCAN_CONTR_OFF_BUS"
esd_text contr_busy = "NTCAN_CONTR_BUSY"
esd_text contr_warn = "NTCAN_CONTR_WARN"
esd_text no_id_enabled = "NTCAN__NO_ID_ENABLED"
esd_text id_already_enabled = "NTCAN_ID_ALREADY_ENABLED"
esd_text invalid_firmware = "NTCAN_INVALID_FIRMWARE"
esd_text message_lost = "NTCAN_MESSAGE_LOST"
esd_text invalid_hardware = "NTCAN_INVALID_HARDWARE"
esd_text pending_write = "NTCAN_PENDING_WRITE"
esd_text pending_read = "NTCAN_PENDING_READ"
esd_text invalid_driver = "NTCAN_INVALID_DRIVER"
esd_text sock_conn_timeout = "NTCAN_SOCK_CONN_TIMEOUT"
esd_text sock_cmd_timeout = "NTCAN_SOCK_CMD_TIMEOUT"
esd_text sock_host_not_found = "NTCAN_SOCK_HOST_NOT_FOUND"
esd_text invalid_parameter = "NTCAN_INVALID_PARAMETER"
esd_text invalid_handle = "NTCAN_INVALID_HANDLE"
esd_text net_not_found = "NTCAN_NET_NOT_FOUND"
esd_text insufficient_resources = "NTCAN_INSUFFICIENT_RESOURCES"
esd_text operation_aborted = "NTCAN_OPERATION_ABORTED"
esd_text wrong_device_state = "NTCAN_WRONG_DEVICE_STATE"
esd_text handle_forced_close = "NTCAN_HANDLE_FORCED_CLOSE"
esd_text not_implemented = "NTCAN_NOT_IMPLEMENTED"
esd_text not_supported = "NTCAN_NOT_SUPPORTED"
esd_text contr_err_passive = "NTCAN_CONTR_ERR_PASSIVE"
esd_text (other r) = "?"

-- `v_strerror`
unfoldable pub v_strerror : Iface NtResult → String
v_strerror cif = if is_esd cif.vtable then esd_text cif.err else "?"
