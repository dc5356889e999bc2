-- ===== src/Pdo/Script.antt =====
-- The transfers that `canmat_pdo_remap` (src/pdo.c) is to make, as a list computed from its
-- arguments and the comm word, and the run of such a list.
use socanmatic.Base.{
  ℕ, suc, ◌≡◌, false, Option, List, [], ◌∷◌, ◌++◌, bit_and, bit_or, ◌==◌, if◌then◌else◌,
}
use socanmatic.Base.Int.{ℤ, is_nonneg, to_unsigned}
use socanmatic.Can.{ok}
use socanmatic.Run.{Run, returned}
use socanmatic.Scalar.Member.{Member, u8, u16, u32}
use socanmatic.Sdo.Typed.{Downloaded}
use socanmatic.Dict.{Obj, obj_bitsize}
use socanmatic.Client.{Client, check}
use socanmatic.Pdo.{mask_valid, mask_not_valid, map_word, unmappable}

-- One download: the object, and the value.
pub record Transfer : Type 0 where
  pub member : Member
  pub idx : ℕ
  pub sub : ℕ
  pub val : ℕ

abbrev pub write_of : Member → ℕ → ℕ → ℕ → Transfer
write_of m idx sub val = record { member = m; idx = idx; sub = sub; val = val }

-- Every object can be mapped: its size is a positive number of whole bytes.
abbrev pub Mappable : List Obj → Type 0
Mappable [] = Unit {0}
Mappable (o ∷ os) = (unmappable (obj_bitsize o) ≡ false) × Mappable os

-- The mapping entries, from sub-index `i` on.
abbrev pub entries : ℕ → ℕ → List Obj → List Transfer
entries map_idx i [] = []
entries map_idx i (o ∷ os) =
    write_of u32 map_idx i (map_word o (obj_bitsize o)) ∷ entries map_idx (suc i) os

abbrev pub option_entry : ℤ → Transfer → List Transfer
option_entry option t = if is_nonneg option then t ∷ [] else []

-- Invalidate the PDO unless it is invalid already, clear the map, write its entries, write the
-- options that are set, store the count of entries, and validate the PDO.
unfoldable pub script : ℕ → ℕ → ℤ → ℤ → ℤ → ℕ → List Obj → ℕ → List Transfer
script comm_idx map_idx type inhibit timer cnt objs comm =
    let finish : List Transfer =
      write_of u8 map_idx 0 cnt ∷ write_of u32 comm_idx 1 (bit_and comm mask_not_valid) ∷ [] in
    let options : List Transfer =
      option_entry type (write_of u8 comm_idx 2 (to_unsigned 8 type))
      ++ (option_entry inhibit (write_of u16 comm_idx 3 (to_unsigned 8 inhibit))
          ++ (option_entry timer (write_of u16 comm_idx 5 (to_unsigned 16 timer)) ++ finish)) in
    (if bit_and comm mask_valid == 0
      then write_of u32 comm_idx 1 (bit_or comm mask_valid) ∷ []
      else [])
    ++ (write_of u8 map_idx 0 0 ∷ (entries map_idx 1 objs ++ options))

module _ (c : Client) (node : ℕ) where
  open c use {State, download}

  -- The downloads in order, up to the first that does not return OK.
  unfoldable pub run_script : List Transfer → State → Option ℕ → Run (Downloaded State)
  run_script [] s err = returned (record { status = ok; err = err; after = s })
  run_script (t ∷ ts) s err =
      check (download t.member s node t.idx t.sub t.val err) λ s' err'. run_script ts s' err'
