-- ===== src/Dict/Print.antt =====
-- Printing a value of a dictionary object (src/dict.c): `canmat_obj_print` and its helpers.
use socanmatic.Base.{
  ℕ, zero, suc, ◌+◌, ◌-◌, bit_and, Bool, true, false, ◌&&◌, not, List, [], ◌∷◌, length, Option,
  none, some, ltb, ◌==◌, if◌then◌else◌,
}
use socanmatic.Base.Int.{ℤ, pos, to_signed, to_unsigned, same_int}
use socanmatic.Can.{Status, ok, err_param}
use socanmatic.DataType.{
  DataType, integer8, integer16, integer32, unsigned8, unsigned16, unsigned32,
}
use socanmatic.Out.{Output, num, int, name}
use socanmatic.Run.{Run, fault, returned, ◌>>=◌}
use socanmatic.Scalar.{Scalar, u8, u16, u32}

-- `struct canmat_code_descriptor`; the name `none` is NULL.
pub record CodeDescriptor : Type 0 where
  pub code_name : Option (List ℕ)
  pub value : ℤ
  pub description : List ℕ

-- The fields of `canmat_obj_t` that only printing reads; `none` is NULL.
pub record Descriptors : Type 0 where
  pub value_descriptor : Option (List CodeDescriptor)
  pub mask_descriptor : Option (List CodeDescriptor)

-- What ends the loops: `fmt[i].value && fmt[i].name` in `print_masks`, and `fmt[i].name` in
-- `print_enum`. An array without an end is read past it, which is a fault.
unfoldable pub masks_until : List CodeDescriptor → Run (List (List ℕ × ℕ))
masks_until [] = fault
masks_until (d ∷ ds) =
    let rest = masks_until ds in
    elim d.code_name [
      | none ↦ returned []
      | some n ↦
          if same_int d.value (pos 0)
          then returned []
          else rest >>= (λ out. returned ((n, to_unsigned 32 d.value) ∷ out))
    ]

unfoldable pub enums_until : List CodeDescriptor → Run (List (List ℕ × CodeDescriptor))
enums_until [] = fault
enums_until (d ∷ ds) =
    let rest = enums_until ds in
    elim d.code_name [ none ↦ returned [] | some n ↦ rest >>= (λ out. returned ((n, d) ∷ out)) ]

-- `if( n > maxlen ) maxlen = n`
unfoldable pub max_length : ℕ → List (List ℕ × ℕ) → ℕ
max_length maxlen [] = maxlen
max_length maxlen ((n, mask) ∷ ds) =
    max_length (if ltb maxlen (length n) then length n else maxlen) ds

-- `memset( space, ' ', space_size )`
unfoldable pub spaces : ℕ → List ℕ
spaces zero = []
spaces (suc n) = 32 ∷ spaces n

unfoldable pub mask_lines : ℕ → ℕ → List (List ℕ × ℕ) → Output
mask_lines maxlen u [] = []
mask_lines maxlen u ((n, mask) ∷ ds) =
    record {
      format = "> %s:%s%d, (0x%08x)\n";
      args =
          name n
          ∷ name (spaces (maxlen + 1 - length n))
          ∷ int (pos (if bit_and u mask == 0 then 0 else 1))
          ∷ num mask
          ∷ [];
    }
    ∷ mask_lines maxlen u ds

unfoldable pub print_masks : List CodeDescriptor → ℕ → Run Output
print_masks fmt u = masks_until fmt >>= (λ ds.
    returned (record { format = "0x%x\n"; args = num u ∷ [] } ∷ mask_lines (max_length 0 ds) u ds))

-- `0 == strcmp( a, b )`
abbrev pub same_text : List ℕ → List ℕ → Bool
same_text [] [] = true
same_text [] (y ∷ ys) = false
same_text (x ∷ xs) [] = false
same_text (x ∷ xs) (y ∷ ys) = (x == y) && same_text xs ys

unfoldable pub enum_lines : ℤ → List (List ℕ × CodeDescriptor) → Output
enum_lines u [] = []
enum_lines u ((n, d) ∷ ds) =
    let rest = enum_lines u ds in
    if same_int u d.value
    then (if not (same_text n d.description)
        then record { format = "> %s: %s\n"; args = name n ∷ name d.description ∷ [] } ∷ rest
        else record { format = "> %s\n"; args = name n ∷ [] } ∷ rest)
    else rest

unfoldable pub print_enum : List CodeDescriptor → ℤ → Run Output
print_enum fmt u = enums_until fmt >>= (λ ds. returned (
    record { format = "%d (0x%x)\n"; args = int u ∷ num (to_unsigned 64 u) ∷ [] }
    ∷ enum_lines u ds))

-- `if (obj->value_descriptor)`, for the signed types
unfoldable pub print_signed : Descriptors → ℤ → Run Output
print_signed ds v = elim ds.value_descriptor [
  | some fmt ↦ print_enum fmt v
  | none ↦ returned (record { format = "%d\n"; args = int v ∷ [] } ∷ [])
]

-- `if( obj->mask_descriptor )`, for the unsigned types; `d` is what `%d` makes of the value.
unfoldable pub print_unsigned : Descriptors → ℕ → ℤ → Run Output
print_unsigned ds v d = elim ds.mask_descriptor [
  | some fmt ↦ print_masks fmt v
  | none ↦ elim ds.value_descriptor [
    | some fmt ↦ print_enum fmt (pos v)
    | none ↦ returned (record { format = "0x%x (%d)\n"; args = num v ∷ int d ∷ [] } ∷ [])
  ]
]

-- `canmat_obj_print`
unfoldable pub obj_print : DataType → Descriptors → Scalar → Run (Status × Output)
obj_print integer8 ds val = print_signed ds (to_signed 8 (u8 val)) >>= (λ out. returned (ok, out))
obj_print integer16 ds val =
    print_signed ds (to_signed 16 (u16 val)) >>= (λ out. returned (ok, out))
obj_print integer32 ds val =
    print_signed ds (to_signed 32 (u32 val)) >>= (λ out. returned (ok, out))
obj_print unsigned8 ds val =
    print_unsigned ds (u8 val) (pos (u8 val)) >>= (λ out. returned (ok, out))
obj_print unsigned16 ds val =
    print_unsigned ds (u16 val) (pos (u16 val)) >>= (λ out. returned (ok, out))
obj_print unsigned32 ds val =
    print_unsigned ds (u32 val) (to_signed 32 (u32 val)) >>= (λ out. returned (ok, out))
obj_print _ ds val = returned (err_param, [])
