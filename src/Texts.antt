-- ===== src/Texts.antt =====
-- The texts of status codes, abort codes and states (src/error.c, src/sdo.c, src/ds301.c,
-- src/ds402.c).
mod Tests
use Prim.Native.String.{String}
use socanmatic.Base.{ℕ, ◌==◌, if◌then◌else◌}
use socanmatic.Can.{
  Status, ok, err_os, err_overflow, err_underflow, err_param, err_proto, err_abort, err_not_sup,
  err_dev, err_motion,
}
use socanmatic.Ds402.State.{
  StateVal, off_nrdy, off_sw_on_disable, off_rdy, on_op_dis, on_op_en, on_quick_stop,
  fault_reaction_active, fault, unknown,
}

-- `canmat_strerror`
unfoldable pub strerror : Status → String
strerror ok = "OK"
strerror err_os = "OS error"
strerror err_overflow = "Overflow error"
strerror err_underflow = "Underflow error"
strerror err_param = "Invalid parameter"
strerror err_proto = "Protocol error"
strerror err_abort = "Abort"
strerror err_not_sup = "Not supported"
strerror err_dev = "Device error"
strerror err_motion = "Device error"

-- `canmat_402_state_string`
unfoldable pub state_string : StateVal → String
state_string off_nrdy = "Not ready to switch on"
state_string off_sw_on_disable = "Off, switch on disabled"
state_string off_rdy = "Off, ready to switch on"
state_string on_op_dis = "On, operation disabled"
state_string on_op_en = "On, operation enabled"
state_string on_quick_stop = "Quick stop"
state_string fault_reaction_active = "Fault reaction active"
state_string fault = "Fault"
state_string unknown = "?"

-- `canmat_sdo_strerror`, at the values of `canmat_abort_t` (include/socanmatic/sdo.h)
unfoldable pub sdo_strerror : ℕ → String
sdo_strerror code =
    if code == 0x00000000
    then "Error Reset or no Error"
    else if code == 0x05030000
    then "Toggle bit not alternated"
    else if code == 0x05040000
    then "SDO protocol timed out"
    else if code == 0x05040001
    then "Client/server command specifier not valid or unknown"
    else if code == 0x05040002
    then "Invalid block size (block mode only)"
    else if code == 0x05040003
    then "Invalid sequence number (block mode only)"
    else if code == 0x05040004
    then "CRC error (block mode only)"
    else if code == 0x05040005
    then "Out of memory"
    else if code == 0x06010000
    then "Unsupported access to an object"
    else if code == 0x06010001
    then "Attempt to read a write only object"
    else if code == 0x06010002
    then "Attempt to write a read only object"
    else if code == 0x06020000
    then "Object does not exist in the object dictionary"
    else if code == 0x06040041
    then "Object cannot be mapped to the PDO"
    else if code == 0x06040042
    then "The number and length of the objects to be mapped would exceed PDO length"
    else if code == 0x06040043
    then "General parameter incompatibility reason"
    else if code == 0x06040047
    then "General internal incompatibility in the device"
    else if code == 0x06060000
    then "Access failed due to an hardware error"
    else if code == 0x06070010
    then "Data type does not match, length of service parameter does not match"
    else if code == 0x06070012
    then "Data type does not match, length of service parameter too high"
    else if code == 0x06070013
    then "Data type does not match, length of service parameter too low"
    else if code == 0x06090011
    then "Sub-index does not exist"
    else if code == 0x06090030
    then "Value range of parameter exceeded (only for write access)"
    else if code == 0x06090031
    then "Value of parameter written too high"
    else if code == 0x06090032
    then "Value of parameter written too low"
    else if code == 0x06090036
    then "Maximum value is less than minimum value"
    else if code == 0x08000000
    then "general error"
    else if code == 0x08000020
    then "Data cannot be transferred or stored to the application"
    else if code == 0x08000021
    then "Data cannot be transferred or stored to the application because of local control"
    else if code == 0x08000022
    then "Data cannot be transferred or stored to the application because of the present device state"
    else if code == 0x08000023
    then "Object dictionary dynamic generation fails or no object dictionary is present (e.g. object dictionary is generated from file and generation fails because of an file error)"
    else "Unknown"

-- `canmat_sdo_abort_code2str`
unfoldable pub sdo_abort_code2str : ℕ → String
sdo_abort_code2str code =
    if code == 0x05030000
    then "Toggle bit not alternated"
    else if code == 0x05040000
    then "SDO protocol timed out"
    else if code == 0x05040001
    then "Client/server command specifier not valid or unknown"
    else if code == 0x05040002
    then "Invalid block size (block mode only)"
    else if code == 0x05040003
    then "Invalid sequence number (block mode only)"
    else if code == 0x05040004
    then "CRC error (block mode only)"
    else if code == 0x05040005
    then "Out of memory"
    else if code == 0x06010000
    then "Unsupported access to an object"
    else if code == 0x06010001
    then "Attempt to read a write only object"
    else if code == 0x06010002
    then "Attempt to write a read only object"
    else if code == 0x06020000
    then "Object does not exist in the object dictionary"
    else if code == 0x06040041
    then "Object cannot be mapped to the PDO"
    else if code == 0x06040042
    then "The number and length of the objects to be mapped would exceed PDO length"
    else if code == 0x06040043
    then "General parameter incompatibility reason"
    else if code == 0x06040047
    then "General internal incompatibility in the device"
    else if code == 0x06060000
    then "Access failed due to an hardware error"
    else if code == 0x06070010
    then "Data type does not match, length of service parameter does not match"
    else if code == 0x06070012
    then "Data type does not match, length of service parameter too high"
    else if code == 0x06070013
    then "Data type does not match, length of service parameter too low"
    else if code == 0x06090011
    then "Sub-index does not exist"
    else if code == 0x06090030
    then "Invalid value for parameter (download only)"
    else if code == 0x06090031
    then "Value of parameter written too high (download only)"
    else if code == 0x06090032
    then "Value of parameter written too low (download only)"
    else if code == 0x06090036
    then "Maximum value is less than minimum value"
    else if code == 0x060A0023
    then "Resource not available: SDO connection"
    else if code == 0x08000000
    then "General error"
    else if code == 0x08000020
    then "Data cannot be transferred or stored to the application"
    else if code == 0x08000021
    then "Data cannot be transferred or stored to the application because of local control"
    else if code == 0x08000022
    then "Data cannot be transferred or stored to the application because of the present device state"
    else if code == 0x08000023
    then "Object dictionary dynamic generation fails or no object dictionary is present (e.g. object dictionary is generated from file and generation fails because of an file error)"
    else if code == 0x08000024
    then "No data available"
    else "Reserved"

-- `canmat_iface_strerror`, given the text of the driver's own `strerror`
unfoldable pub iface_strerror : String → Status → String
iface_strerror drivers err_os = drivers
iface_strerror drivers status = strerror status
