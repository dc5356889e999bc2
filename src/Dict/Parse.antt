-- ===== src/Dict/Parse.antt =====
-- `canmat_typed_parse` (src/dict.c): a number's text as a scalar. The C library's `strtol` and
-- `strtoul` are parameters: the number, and whether `errno` is set.
mod Tests
use socanmatic.Base.{
  ℕ, suc, ◌+◌, ◌-◌, ◌%◌, ◌^◌, ◌≡◌, Bool, true, false, ◌||◌, Option, none, some, List, ltb,
  if◌then◌else◌, arith, ap, sym, refl,
}
use socanmatic.Base.Int.{ℤ, pos, negsuc, exceeds, to_unsigned}
use socanmatic.Can.{Status, ok, err_param}
use socanmatic.DataType.{
  DataType, integer8, integer16, integer32, unsigned8, unsigned16, unsigned32,
}
use socanmatic.Bus.{Bus, is_ok}
use socanmatic.Run.{Run, returned}
use socanmatic.Sdo.Typed.{Downloaded}
use socanmatic.Dict.{Obj}
use socanmatic.Dict.Transfer.{obj_dl}
use socanmatic.Scalar.{Scalar, set_u8, set_u16, set_u32}
use socanmatic.Scalar.Member.{Member, u8, u16, u32, i8, i16, i32, read, write, read-write, type_of}

-- `i > 2 ^ (w - 1) - 1 || i < -2 ^ (w - 1)`, with `top` the greatest value
abbrev pub outside : ℕ → ℤ → Bool
outside top (pos n) = ltb top n
outside top (negsuc n) = ltb top n

-- The number that a signed type of `w` bits has for a bit pattern.
abbrev pub signed_of : ℕ → ℕ → ℤ
signed_of w n = if ltb n (2 ^ (w - 1)) then pos n else negsuc (2 ^ w - 1 - n)

-- The number that a member's C type has for what `read` gives.
abbrev pub number_of : Member → ℕ → ℤ
number_of u8 n = pos n
number_of u16 n = pos n
number_of u32 n = pos n
number_of i8 n = signed_of 8 n
number_of i16 n = signed_of 16 n
number_of i32 n = signed_of 32 n

module _ (strtol : List ℕ → ℤ × Bool) (strtoul : List ℕ → ℕ × Bool) where
  unfoldable pub typed_parse : DataType → List ℕ → Scalar → Status × Scalar
  typed_parse integer8 str val =
      let (i, errno) = strtol str in
      if outside 127 i || errno then (err_param, val) else (ok, set_u8 val (to_unsigned 8 i))
  typed_parse integer16 str val =
      let (i, errno) = strtol str in
      if outside 32767 i || errno then (err_param, val) else (ok, set_u16 val (to_unsigned 16 i))
  typed_parse integer32 str val =
      let (i, errno) = strtol str in
      if outside 2147483647 i || errno
      then (err_param, val)
      else (ok, set_u32 val (to_unsigned 32 i))
  typed_parse unsigned8 str val =
      let (u, errno) = strtoul str in
      if ltb 255 u || errno then (err_param, val) else (ok, set_u8 val (u % 2 ^ 8))
  typed_parse unsigned16 str val =
      let (u, errno) = strtoul str in
      if ltb 65535 u || errno then (err_param, val) else (ok, set_u16 val (u % 2 ^ 16))
  typed_parse unsigned32 str val =
      let (u, errno) = strtoul str in
      if ltb 4294967295 u || errno then (err_param, val) else (ok, set_u32 val (u % 2 ^ 32))
  typed_parse _ str val = (err_param, val)

  -- The number that the text has for a member's type.
  abbrev pub number_in : Member → List ℕ → ℤ
  number_in u8 str = pos (strtoul str).0
  number_in u16 str = pos (strtoul str).0
  number_in u32 str = pos (strtoul str).0
  number_in i8 str = (strtol str).0
  number_in i16 str = (strtol str).0
  number_in i32 str = (strtol str).0

-- `canmat_obj_dl_str`; the scalar is uninitialised before the parse.
module _ (strtol : List ℕ → ℤ × Bool) (strtoul : List ℕ → ℕ × Bool) (bus : Bus) (fuel : ℕ) where
  open bus use {State, stack_scalar}

  unfoldable pub obj_dl_str : State → ℕ → Option Obj → List ℕ → Option ℕ → Run (Downloaded State)
  obj_dl_str s node none str err = returned (record { status = err_param; err = err; after = s })
  obj_dl_str s node (some obj) str err =
      let (r, sval) = typed_parse strtol strtoul obj.data_type str (stack_scalar s) in
      if is_ok r
      then obj_dl bus fuel s node (some obj) sval err
      else returned (record { status = err_param; err = err; after = s })

-- A number within a signed type is what its pattern stands for.
signed8-to_unsigned : (i : ℤ) → outside 127 i ≡ false → signed_of 8 (to_unsigned 8 i % 2 ^ 8) ≡ i
signed8-to_unsigned (pos n) h = ground (arith, h)
signed8-to_unsigned (negsuc n) h = ground (arith, h)

signed16-to_unsigned :
    (i : ℤ) → outside 32767 i ≡ false → signed_of 16 (to_unsigned 16 i % 2 ^ 16) ≡ i
signed16-to_unsigned (pos n) h = ground (arith, h)
signed16-to_unsigned (negsuc n) h = ground (arith, h)

signed32-to_unsigned :
    (i : ℤ) → outside 2147483647 i ≡ false → signed_of 32 (to_unsigned 32 i % 2 ^ 32) ≡ i
signed32-to_unsigned (pos n) h = ground (arith, h)
signed32-to_unsigned (negsuc n) h = ground (arith, h)

either : (a b : Bool) → (a || b) ≡ false → a ≡ false
either a b h = ground (arith, h)

stored :
    (x w v : Scalar) (b : Bool)
    → ◌≡◌ {A = Status × Scalar} (if b then (err_param, w) else (ok, x)) (ok, v)
    → (b ≡ false) × (x ≡ v)
stored x w v true h = absurd (cc (ap (λ (p : Status × Scalar). p.0) h))
stored x w v false h = (refl, ap (λ (p : Status × Scalar). p.1) h)

module _ (strtol : List ℕ → ℤ × Bool) (strtoul : List ℕ → ℕ × Bool) where
  -- A text that is parsed without error at a member's type is stored as the number that `strtol` or
  -- `strtoul` reads in it: the member's C type, signed or not, has that number.
  pub typed_parse-stores :
      (m : Member) (str : List ℕ) (val v : Scalar)
      → typed_parse strtol strtoul (type_of m) str val ≡ (ok, v)
      → number_of m (read m v) ≡ number_in strtol strtoul m str
  unfolding typed_parse type_of read write
  typed_parse-stores u8 str val v h =
      let (u, errno) = strtoul str in
      let (fits, e) = stored (set_u8 val (u % 2 ^ 8)) val v (ltb 255 u || errno) h in
      let small : ltb 255 u ≡ false = either (ltb 255 u) errno fits in
      ground (arith, sym e, read-write u8 val (u % 2 ^ 8), small)
  typed_parse-stores u16 str val v h =
      let (u, errno) = strtoul str in
      let (fits, e) = stored (set_u16 val (u % 2 ^ 16)) val v (ltb 65535 u || errno) h in
      let small : ltb 65535 u ≡ false = either (ltb 65535 u) errno fits in
      ground (arith, sym e, read-write u16 val (u % 2 ^ 16), small)
  typed_parse-stores u32 str val v h =
      let (u, errno) = strtoul str in
      let (fits, e) = stored (set_u32 val (u % 2 ^ 32)) val v (ltb 4294967295 u || errno) h in
      let small : ltb 4294967295 u ≡ false = either (ltb 4294967295 u) errno fits in
      ground (arith, sym e, read-write u32 val (u % 2 ^ 32), small)
  typed_parse-stores i8 str val v h =
      let (i, errno) = strtol str in
      let (fits, e) = stored (set_u8 val (to_unsigned 8 i)) val v (outside 127 i || errno) h in
      rw (← e, read-write i8 val (to_unsigned 8 i))
        (signed8-to_unsigned i (either (outside 127 i) errno fits))
  typed_parse-stores i16 str val v h =
      let (i, errno) = strtol str in
      let (fits, e) = stored (set_u16 val (to_unsigned 16 i)) val v (outside 32767 i || errno) h in
      rw (← e, read-write i16 val (to_unsigned 16 i))
        (signed16-to_unsigned i (either (outside 32767 i) errno fits))
  typed_parse-stores i32 str val v h =
      let (i, errno) = strtol str in
      let (fits, e) =
        stored (set_u32 val (to_unsigned 32 i)) val v (outside 2147483647 i || errno) h in
      rw (← e, read-write i32 val (to_unsigned 32 i))
        (signed32-to_unsigned i (either (outside 2147483647 i) errno fits))
