-- ===== src/Display/Emcy.antt =====
-- Printing an emergency message (src/display.c): `display_emcy`.
use Prim.Native.String.{String}
use socanmatic.Base.{ℕ, bit_and, List, [], ◌∷◌, ltb, ◌==◌, if◌then◌else◌}
use socanmatic.Can.{CanFrame, frame_func, frame_node}
use socanmatic.Can.FuncCode
use socanmatic.Emcy.{EmcyClass, emcy_code, emcy_get_eec, emcy_get_er}
use socanmatic.Emcy.{class_no_error, class_generic, current, current_input, current_inside}
use socanmatic.Emcy.{current_output, voltage, voltage_mains, voltage_inside, voltage_output}
use socanmatic.Emcy.{temp, temp_ambient, temp_device, hardware, software}
use socanmatic.Emcy.{software_internal, software_user, software_data, additional_modules}
use socanmatic.Emcy.{monitoring, monitoring_comm, monitoring_proto, external, additional_func}
use socanmatic.Emcy.{device_specific}
use socanmatic.Out.{Output, num, text, display_malformed}
use socanmatic.Run.{Run, assert_failed, returned}

-- What each case of the switch assigns to `status`
unfoldable pub class_text : EmcyClass → String
class_text class_no_error = "no_error"
class_text class_generic = "generic"
class_text current = "current"
class_text current_input = "current_input"
class_text current_inside = "current_inside"
class_text current_output = "current_output"
class_text voltage = "voltage"
class_text voltage_mains = "voltage_mains"
class_text voltage_inside = "voltage_inside"
class_text voltage_output = "voltage_output"
class_text temp = "temp"
class_text temp_ambient = "temp_ambient"
class_text temp_device = "temp_device"
class_text hardware = "hardware"
class_text software = "software"
class_text software_internal = "software_internal"
class_text software_user = "software_user"
class_text software_data = "software_data"
class_text additional_modules = "additional_modules"
class_text monitoring = "monitoring"
class_text monitoring_comm = "monitoring_comm"
class_text monitoring_proto = "monitoring_proto"
class_text external = "external"
class_text additional_func = "additional_func"
class_text device_specific = "device_specific"

-- The cases of the switch, in its order
abbrev pub classes : List EmcyClass
classes =
    class_no_error ∷ class_generic ∷ current ∷ current_input ∷ current_inside ∷ current_output
    ∷ voltage ∷ voltage_mains ∷ voltage_inside ∷ voltage_output ∷ temp ∷ temp_ambient ∷ temp_device
    ∷ hardware ∷ software ∷ software_internal ∷ software_user ∷ software_data ∷ additional_modules
    ∷ monitoring ∷ monitoring_comm ∷ monitoring_proto ∷ external ∷ additional_func ∷ device_specific
    ∷ []

-- The switch, over the value `code`
unfoldable pub class_switch : ℕ → List EmcyClass → String
unfolding class_text
class_switch code [] = "unknown"
class_switch code (c ∷ cs) =
    let rest = class_switch code cs in if code == emcy_code c then class_text c else rest

-- `switch(eec & 0xFF00)`
unfoldable pub emcy_status : ℕ → String
unfolding class_switch
emcy_status eec = class_switch (bit_and eec 0xFF00) classes

unfoldable pub display_emcy : CanFrame → Run Output
unfolding emcy_status
display_emcy can =
    if FuncCode.sync_emcy == frame_func can
    then (if ltb can.can_dlc 3
        then display_malformed can
        else returned (
            record {
              format = "emcy (0x%03x), node 0x%02x, eec '%s' (0x%02x), er 0x%x \n";
              args =
                  num (frame_func can)
                  ∷ num (frame_node can)
                  ∷ text (emcy_status (emcy_get_eec can))
                  ∷ num (emcy_get_eec can)
                  ∷ num (emcy_get_er can)
                  ∷ [];
            }
            ∷ []))
    else assert_failed
