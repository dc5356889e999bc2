-- ===== src/Out/Bytes.antt =====
-- When the byte printers of src/util.c and src/display.c stay inside their array.
use socanmatic.Base.{ℕ, zero, suc, ◌≤◌, ◌≡◌, refl, List, [], ◌∷◌, length, arith}
use socanmatic.Can.{CanFrame}
use socanmatic.Run.{Run, returned, ◌>>=◌}
use socanmatic.Out.{Output, print_bytes, hex_bytes, frame_data, dump_frame}

-- The call returns.
abbrev pub Returns : Run Output → Type 0
Returns m = (out : Output) × (m ≡ returned out)

pub >>=-Returns :
    (m : Run Output) (f : Output → Run Output)
    → Returns m
    → ((out : Output) → Returns (f out))
    → Returns (m >>= f)
>>=-Returns m f (out, h) k = let (res, e) = k out in (res, rw h e)

hex_bytes-Returns :
    (sep n : ℕ) (bytes : List ℕ) → n ≤ length bytes → Returns (hex_bytes sep n bytes)
unfolding hex_bytes
hex_bytes-Returns sep zero bytes h = (_, refl)
hex_bytes-Returns sep (suc n) [] h = absurd (omega arith)
hex_bytes-Returns sep (suc n) (b ∷ bytes) h =
    >>=-Returns (hex_bytes 58 n bytes) _ (hex_bytes-Returns 58 n bytes (omega arith))
      (λ out. (_, refl))

pub print_bytes-Returns :
    (n : ℕ) (bytes : List ℕ) → n ≤ length bytes → Returns (print_bytes n bytes)
unfolding print_bytes
print_bytes-Returns n bytes h = hex_bytes-Returns 32 n bytes h

pub dump_frame-Returns : (can : CanFrame) → can.can_dlc ≤ 8 → Returns (dump_frame can)
unfolding dump_frame
dump_frame-Returns can h =
    >>=-Returns (print_bytes can.can_dlc (frame_data can)) _
      (print_bytes-Returns can.can_dlc (frame_data can) h) (λ out. (_, refl))
