-- ===== src/Display/Tests.antt =====
-- Frames as they are printed.
use socanmatic.Base.{ℕ, ◌≡◌, refl, true, [], ◌∷◌, Option, some, arith}
use socanmatic.Can.{CanFrame, ok, zero_frame, frame_func, frame_node}
use socanmatic.DataType.{unsigned16}
use socanmatic.Dict.{Obj}
use socanmatic.Display.{display}
use socanmatic.Display.Classes.{display-emcy_class}
use socanmatic.Display.Emcy.{class_text}
use socanmatic.Display.Returns.{display-is_returned}
use socanmatic.Display.Shown.{display-sdo2can}
use socanmatic.Emcy.{current_output}
use socanmatic.Out.{num, text, name, puts}
use socanmatic.Run.{returned, is_returned}
use socanmatic.Scalar.{u16}
use socanmatic.Sdo.Encode.{sdo2can}
use socanmatic.Sdo.Fixture.{answer, answer-IsMsg, answer_frame, garbage, blank, status_word}

abbrev status_obj : Obj
status_obj = record {
  index = 0x6041;
  subindex = 0;
  parameter_name = 83 ∷ 116 ∷ [];
  sub_number = 0;
  access_type = 0;
  object_type = 7;
  data_type = unsigned16;
  pdo_mapping = 1;
}

abbrev objects : ℕ → ℕ → Option Obj
objects index subindex = some status_obj

-- An error of the output current, from node 5
abbrev current_error : CanFrame
current_error = record zero_frame { can_id = 0x85; can_dlc = 8; d0 = 0x10; d1 = 0x23; d2 = 2 }

display-is_returned_example : is_returned (display objects blank answer_frame) ≡ true
unfolding frame_func
display-is_returned_example = display-is_returned answer_frame (omega arith) objects blank

display-sdo2can_example :
    (f : CanFrame) × (sdo2can garbage answer true ≡ some (ok, f))
    × (display objects blank f
        ≡ returned (
            record {
              format = "sdo %s, node %03x %s '%s' (%04x.%02x)";
              args =
                  text "tx" ∷ num 5 ∷ text "ex_ul" ∷ name (83 ∷ 116 ∷ []) ∷ num 0x6041 ∷ num 0 ∷ [];
            }
            ∷ record { format = " 0x%x"; args = num (u16 status_word) ∷ [] }
            ∷ puts "\n"
            ∷ []))
display-sdo2can_example =
    display-sdo2can true status_obj blank answer objects garbage
      (record { format = " 0x%x"; args = num (u16 status_word) ∷ [] }) answer-IsMsg (omega arith)
      (omega arith) refl refl refl refl

display-emcy_class_example :
    display objects blank current_error
    ≡ returned (
        record {
          format = "emcy (0x%03x), node 0x%02x, eec '%s' (0x%02x), er 0x%x \n";
          args = num 0x80 ∷ num 5 ∷ text "current_output" ∷ num 0x2310 ∷ num 2 ∷ [];
        }
        ∷ [])
unfolding frame_func frame_node class_text
display-emcy_class_example =
    display-emcy_class objects blank current_error current_output refl (omega arith) (ground arith)
      refl
