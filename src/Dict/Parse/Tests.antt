-- ===== src/Dict/Parse/Tests.antt =====
-- The parse of "-5" at a signed and of "7" at an unsigned type, with what `strtol` and `strtoul` read in
-- those texts.
use socanmatic.Base.{ℕ, ◌≡◌, refl, Bool, false, List, [], ◌∷◌}
use socanmatic.Base.Int.{ℤ, negsuc}
use socanmatic.Can.{ok}
use socanmatic.Scalar.{Scalar, zero_scalar, set_u16}
use socanmatic.Scalar.Member
use socanmatic.Scalar.Member.{type_of, read}
use socanmatic.Dict.Parse.{typed_parse, typed_parse-stores, number_of}

abbrev reads_signed : List ℕ → ℤ × Bool
reads_signed str = (negsuc 4, false)

abbrev reads_unsigned : List ℕ → ℕ × Bool
reads_unsigned str = (7, false)

abbrev minus_five : Scalar
minus_five = record { byte0 = 0xFB; byte1 = 0xFF; byte2 = 0; byte3 = 0 }

parsed :
    typed_parse reads_signed reads_unsigned (type_of Member.i16) (45 ∷ 53 ∷ []) zero_scalar
    ≡ (ok, minus_five)
unfolding typed_parse type_of set_u16
parsed = refl

typed_parse-stores_example : number_of Member.i16 (read Member.i16 minus_five) ≡ negsuc 4
typed_parse-stores_example =
    typed_parse-stores reads_signed reads_unsigned Member.i16 (45 ∷ 53 ∷ []) zero_scalar minus_five
      parsed
