-- ===== src/Emcy.antt =====
-- Emergency messages (include/socanmatic/emcy.h).
use socanmatic.Base.{ℕ}
use socanmatic.Can.{CanFrame}
use socanmatic.Byteorder.{ldle16}

-- `canmat_emcy_class_t`
pub data EmcyClass : Type 0 where
  class_no_error class_generic current current_input current_inside : EmcyClass
  current_output voltage voltage_mains voltage_inside voltage_output : EmcyClass
  temp temp_ambient temp_device hardware software : EmcyClass
  software_internal software_user software_data additional_modules monitoring : EmcyClass
  monitoring_comm monitoring_proto external additional_func device_specific : EmcyClass

-- The enumerators' values
abbrev pub emcy_code : EmcyClass → ℕ
emcy_code class_no_error = 0x0000
emcy_code class_generic = 0x1000
emcy_code current = 0x2000
emcy_code current_input = 0x2100
emcy_code current_inside = 0x2200
emcy_code current_output = 0x2300
emcy_code voltage = 0x3000
emcy_code voltage_mains = 0x3100
emcy_code voltage_inside = 0x3200
emcy_code voltage_output = 0x3300
emcy_code temp = 0x4000
emcy_code temp_ambient = 0x4100
emcy_code temp_device = 0x4200
emcy_code hardware = 0x5000
emcy_code software = 0x6000
emcy_code software_internal = 0x6100
emcy_code software_user = 0x6200
emcy_code software_data = 0x6300
emcy_code additional_modules = 0x7000
emcy_code monitoring = 0x8000
emcy_code monitoring_comm = 0x8100
emcy_code monitoring_proto = 0x8200
emcy_code external = 0x9000
emcy_code additional_func = 0xF000
emcy_code device_specific = 0xFF00

-- `canmat_frame_emcy_get_eec`, the error code of an emergency frame, and `canmat_frame_emcy_get_er`,
-- its error register
unfoldable pub emcy_get_eec : CanFrame → ℕ
emcy_get_eec frame = ldle16 (record { q0 = frame.d0; q1 = frame.d1 })

unfoldable pub emcy_get_er : CanFrame → ℕ
emcy_get_er frame = frame.d2
