-- ===== src/Out.antt =====
-- What a function writes to a stream: its calls of `printf`, `fprintf`, `fputs` and `fputc`, and the
-- frame and byte printers that the rest shares (src/util.c).
pub mod Bytes
use Prim.Native.String.{String}
use socanmatic.Base.{ℕ, zero, suc, List, [], ◌∷◌, ◌++◌}
use socanmatic.Base.Int.{ℤ}
use socanmatic.Can.{CanFrame}
use socanmatic.Run.{Run, fault, returned, ◌>>=◌}

-- One argument of `printf`: a number for `%x`, `%u` and `%c`, an `int` for `%d`, a text, or the
-- bytes of a name in the dictionary.
pub data Arg : Type 0 where
  num : ℕ → Arg
  int : ℤ → Arg
  text : String → Arg
  name : List ℕ → Arg

-- One call of `printf`, with its format, in which the length modifiers of the `PRI` macros are left
-- out.
pub record Print : Type 0 where
  pub format : String
  pub args : List Arg

abbrev pub Output : Type 0
Output = List Print

-- `fputs`, `fputc`, and `printf` without arguments
abbrev pub puts : String → Print
puts s = record { format = s; args = [] }

-- `i ? ':' : ' '` is the separator: a space (32) before the first byte and a colon (58) between two.
-- `fault` is a read after the array's end.
hex_bytes : ℕ → ℕ → List ℕ → Run Output
hex_bytes sep zero bytes = returned []
hex_bytes sep (suc n) [] = fault
hex_bytes sep (suc n) (b ∷ bytes) =
    hex_bytes 58 n bytes
    >>= (λ rest. returned (record { format = "%c%02x"; args = num sep ∷ num b ∷ [] } ∷ rest))

-- `for( i = 0; i < n; i++ ) printf( "%c%02x", i ? ':' : ' ', bytes[i] )`
unfoldable pub print_bytes : ℕ → List ℕ → Run Output
unfolding hex_bytes
print_bytes n bytes = hex_bytes 32 n bytes

-- The array `data` of a frame
abbrev pub frame_data : CanFrame → List ℕ
frame_data can = can.d0 ∷ can.d1 ∷ can.d2 ∷ can.d3 ∷ can.d4 ∷ can.d5 ∷ can.d6 ∷ can.d7 ∷ []

-- `canmat_dump_frame`
unfoldable pub dump_frame : CanFrame → Run Output
dump_frame can = print_bytes can.can_dlc (frame_data can) >>= (λ out. returned (
    record { format = "%03x[%d]"; args = num can.can_id ∷ num can.can_dlc ∷ [] }
    ∷ (out ++ (puts "\n" ∷ []))))

-- `display_raw` and `display_malformed` (src/display.c)
unfoldable pub display_raw : CanFrame → Run Output
display_raw can = dump_frame can >>= (λ out. returned (puts "raw, " ∷ out))

unfoldable pub display_malformed : CanFrame → Run Output
display_malformed can = dump_frame can >>= (λ out. returned (puts "malformed, " ∷ out))
