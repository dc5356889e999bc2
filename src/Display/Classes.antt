-- ===== src/Display/Classes.antt =====
-- The texts that the printer of emergency and NMT frames (src/display.c) shows.
use Prim.Native.String.{String}
use socanmatic.Base.{
  Option, false, ℕ, ◌+◌, ◌*◌, ◌/◌, ◌^◌, ◌≤◌, ◌<◌, ◌≡◌, refl, [], ◌∷◌, arith, ltb, bit_and,
  bit_and_high, bit_and_low,
}
use socanmatic.Byteorder.{Bytes2, ldle16}
use socanmatic.Byteorder.RoundTrip.{AreBytes2, ldle16-eq_sum}
use socanmatic.Can.{CanFrame, IsFrame, frame_func, frame_node}
use socanmatic.Can.FuncCode
use socanmatic.Display.{display, display_nmt, nmt_action}
use socanmatic.Display.Emcy.{class_text, class_switch, classes, emcy_status, display_emcy}
use socanmatic.Emcy.{EmcyClass, emcy_code, emcy_get_eec, emcy_get_er}
use socanmatic.Emcy.{class_no_error, class_generic, current, current_input, current_inside}
use socanmatic.Emcy.{current_output, voltage, voltage_mains, voltage_inside, voltage_output}
use socanmatic.Emcy.{temp, temp_ambient, temp_device, hardware, software}
use socanmatic.Emcy.{software_internal, software_user, software_data, additional_modules}
use socanmatic.Emcy.{monitoring, monitoring_comm, monitoring_proto, external, additional_func}
use socanmatic.Emcy.{device_specific}
use socanmatic.Dict.{Obj}
use socanmatic.Nmt.{NmtMsg, nmt_code, nmt_frame}
use socanmatic.Nmt.{start_remote, stop_remote, pre_op, reset_node, reset_com}
use socanmatic.Out.{num, text}
use socanmatic.Run.{returned}
use socanmatic.Sdo.Msg.{SdoMsg}

-- A class is the high byte of its code, and the switch finds its text.
class_found :
    (c : EmcyClass)
    → (emcy_code c / 2 ^ 8 * 2 ^ 8 ≡ emcy_code c)
      × (emcy_code c < 2 ^ 16)
      × (class_switch (emcy_code c) classes ≡ class_text c)
unfolding class_switch
class_found class_no_error = (refl, omega arith, refl)
class_found class_generic = (refl, omega arith, refl)
class_found current = (refl, omega arith, refl)
class_found current_input = (refl, omega arith, refl)
class_found current_inside = (refl, omega arith, refl)
class_found current_output = (refl, omega arith, refl)
class_found voltage = (refl, omega arith, refl)
class_found voltage_mains = (refl, omega arith, refl)
class_found voltage_inside = (refl, omega arith, refl)
class_found voltage_output = (refl, omega arith, refl)
class_found temp = (refl, omega arith, refl)
class_found temp_ambient = (refl, omega arith, refl)
class_found temp_device = (refl, omega arith, refl)
class_found hardware = (refl, omega arith, refl)
class_found software = (refl, omega arith, refl)
class_found software_internal = (refl, omega arith, refl)
class_found software_user = (refl, omega arith, refl)
class_found software_data = (refl, omega arith, refl)
class_found additional_modules = (refl, omega arith, refl)
class_found monitoring = (refl, omega arith, refl)
class_found monitoring_comm = (refl, omega arith, refl)
class_found monitoring_proto = (refl, omega arith, refl)
class_found external = (refl, omega arith, refl)
class_found additional_func = (refl, omega arith, refl)
class_found device_specific = (refl, omega arith, refl)

high_byte : (q : Bytes2) → AreBytes2 q → bit_and (ldle16 q) (0xFF * 2 ^ 8) ≡ q.q1 * 2 ^ 8
high_byte q h =
    omega
      (arith, ldle16-eq_sum q h, bit_and_high 8 (ldle16 q) 0xFF, bit_and_low 8 (ldle16 q / 2 ^ 8))

-- An emergency frame of at least three bytes, with any identifier that has the function code, is
-- printed with its node, the text of the class that the high byte of its error code names, the
-- error code and the error register.
pub display-emcy_class :
    (objects : ℕ → ℕ → Option Obj) (stack : SdoMsg) (can : CanFrame) (c : EmcyClass)
    → frame_func can ≡ FuncCode.sync_emcy
    → 3 ≤ can.can_dlc
    → IsFrame can
    → can.d1 * 2 ^ 8 ≡ emcy_code c
    → display objects stack can
      ≡ returned (
          record {
            format = "emcy (0x%03x), node 0x%02x, eec '%s' (0x%02x), er 0x%x \n";
            args =
                num FuncCode.sync_emcy
                ∷ num (frame_node can)
                ∷ text (class_text c)
                ∷ num (can.d0 + emcy_code c)
                ∷ num can.d2
                ∷ [];
          }
          ∷ [])
unfolding display display_emcy emcy_status emcy_get_eec emcy_get_er
display-emcy_class objects stack can c func long v e =
    let (_, _, found) = class_found c in
    let q : Bytes2 = record { q0 = can.d0; q1 = can.d1 } in
    let bytes : AreBytes2 q = (v.d0_in, v.d1_in) in
    let l : ltb can.can_dlc 3 ≡ false = ground arith in
    rw (func, l, high_byte q bytes, ldle16-eq_sum q bytes, e, found) refl

-- The text of each message
abbrev shown_word : NmtMsg → String
shown_word start_remote = "start"
shown_word stop_remote = "stop"
shown_word pre_op = "pre-op"
shown_word reset_node = "reset-node"
shown_word reset_com = "reset-com"

-- Every NMT frame that the library sends is printed with its node, a text for its message and the
-- message's code.
display-nmt_frame :
    (objects : ℕ → ℕ → Option Obj) (stack : SdoMsg) (node : ℕ) (msg : NmtMsg)
    → display objects stack (nmt_frame node msg)
      ≡ returned (
          record {
            format = "nmt, node 0x%x '%s' (0x%x)\n";
            args = num node ∷ text (shown_word msg) ∷ num (nmt_code msg) ∷ [];
          }
          ∷ [])
unfolding display display_nmt nmt_action frame_func
display-nmt_frame objects stack node start_remote = refl
display-nmt_frame objects stack node stop_remote = refl
display-nmt_frame objects stack node pre_op = refl
display-nmt_frame objects stack node reset_node = refl
display-nmt_frame objects stack node reset_com = refl
