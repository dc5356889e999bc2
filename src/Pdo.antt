-- ===== src/Pdo.antt =====
-- Process data objects (src/pdo.c, include/socanmatic/pdo.h): the remapping of a PDO by a series
-- of SDO transfers, and the sending of an RPDO.
pub mod Script
pub mod Remap
pub mod Send
mod Tests
use socanmatic.Base.{
  ℕ, zero, suc, ◌+◌, ◌-◌, ◌*◌, ◌%◌, ◌^◌, bit_and, bit_or, Bool, true, false, ◌||◌, not, Option,
  none, some, List, get_elem?, ltb, leb, ◌==◌, if◌then◌else◌,
}
use socanmatic.Base.Int.{ℤ, pos, negsuc, exceeds, is_nonneg, to_unsigned}
use socanmatic.Can.{ok, err_param}
use socanmatic.Bus.{is_ok}
use socanmatic.Run.{Run, returned, waiting, fault, ◌>>=◌}
use socanmatic.Scalar.Member.{Member, u8, u16, u32}
use socanmatic.Sdo.Typed.{Uploaded, Downloaded}
use socanmatic.Dict.{Obj, obj_bitsize}
use socanmatic.Client.{Client, check}

-- `CANMAT_RPDO_COM_BASE` and its sisters
abbrev pub rpdo_com_base : ℕ
rpdo_com_base = 0x1400

abbrev pub tpdo_com_base : ℕ
tpdo_com_base = 0x1800

abbrev pub rpdo_map_base : ℕ
rpdo_map_base = 0x1600

abbrev pub tpdo_map_base : ℕ
tpdo_map_base = 0x1A00

-- `CANMAT_COBID_PDO_MASK_VALID`, and its complement as a `uint32_t`
abbrev pub mask_valid : ℕ
mask_valid = 2 ^ 31

abbrev pub mask_not_valid : ℕ
mask_not_valid = 2 ^ 31 - 1

-- `enum canmat_direction`; any other value of the parameter is `other`.
pub data Direction : Type 0 where
  dl ul other : Direction

-- `(obj->index << 16) | (obj->subindex << 8) | (objsize & 0xFF)`, cast to `uint32_t`
unfoldable pub map_word : Obj → ℤ → ℕ
map_word obj size =
    bit_or (bit_or (obj.index * 2 ^ 16) (obj.subindex * 2 ^ 8)) (to_unsigned 8 size) % 2 ^ 32

-- `objsize < 1 || 0 != objsize % 8`
unfoldable pub unmappable : ℤ → Bool
unmappable (pos n) = ltb n 1 || not (n % 8 == 0)
unmappable (negsuc n) = true

-- The index of the comm or the map record, by direction; `none` for no direction.
abbrev pub index_of : ℕ → ℕ → ℕ → Direction → Option ℕ
index_of rx tx pdo dl = some ((rx + pdo) % 2 ^ 16)
index_of rx tx pdo ul = some ((tx + pdo) % 2 ^ 16)
index_of rx tx pdo other = none

module _ (c : Client) (node : ℕ) where
  open c use {State, upload, download}

  -- `for( uint8_t i = …; i <= cnt; i++ )`: the counter wraps, and an index outside `objs` is a
  -- fault. 257 rounds reach either the end or the index -1.
  unfoldable pub map_objs :
      ℕ
      → ℕ
      → ℕ
      → ℕ
      → List Obj
      → State
      → Option ℕ
      → (State → Option ℕ → Run (Downloaded State))
      → Run (Downloaded State)
  map_objs zero idx i cnt objs s err k = waiting
  map_objs (suc rounds) idx zero cnt objs s err k = fault
  map_objs (suc rounds) idx (suc i) cnt objs s err k = elim (leb (suc i) cnt) [
    | false ↦ k s err
    | true ↦ elim (get_elem? objs i) [
      | none ↦ fault
      | some obj ↦ elim (unmappable (obj_bitsize obj)) [
        | true ↦ returned (record { status = err_param; err = err; after = s })
        | false ↦
            check (download u32 s node idx (suc i) (map_word obj (obj_bitsize obj)) err)
              λ s' err'. map_objs rounds idx ((suc i + 1) % 2 ^ 8) cnt objs s' err' k
      ]
    ]
  ]

  -- A transfer that is made only for an option that is not negative.
  abbrev pub when_set :
      ℤ
      → Run (Downloaded State)
      → State
      → Option ℕ
      → (State → Option ℕ → Run (Downloaded State))
      → Run (Downloaded State)
  when_set option m s err k = if is_nonneg option then check m k else k s err

  -- From the comm word on, with the two indices known.
  unfoldable pub reconfigure :
      ℕ → ℕ → ℤ → ℤ → ℤ → ℕ → List Obj → ℕ → State → Option ℕ → Run (Downloaded State)
  reconfigure comm_idx map_idx type inhibit timer cnt objs comm s err =
      check
        (if bit_and comm mask_valid == 0
          then download u32 s node comm_idx 1 (bit_or comm mask_valid) err
          else returned (record { status = ok; err = err; after = s }))
        λ s1 e1. check (download u8 s1 node map_idx 0 0 e1) λ s2 e2.
          map_objs 257 map_idx 1 cnt objs s2 e2 λ s3 e3.
            when_set type (download u8 s3 node comm_idx 2 (to_unsigned 8 type) e3) s3 e3 λ s4 e4.
              when_set inhibit (download u16 s4 node comm_idx 3 (to_unsigned 8 inhibit) e4) s4 e4
                λ s5 e5.
                  when_set timer (download u16 s5 node comm_idx 5 (to_unsigned 16 timer) e5) s5 e5
                    λ s6 e6.
                      check (download u8 s6 node map_idx 0 cnt e6)
                        λ s7 e7. download u32 s7 node comm_idx 1 (bit_and comm mask_not_valid) e7

  -- `canmat_pdo_remap`; `comm` is the content of its uninitialised local variable.
  unfoldable pub remap :
      ℕ → Direction → ℤ → ℤ → ℤ → ℕ → List Obj → ℕ → State → Option ℕ → Run (Downloaded State)
  remap pdo dir type inhibit timer cnt objs comm s err =
      let refused : Run (Downloaded State) =
        returned (record { status = err_param; err = err; after = s }) in
      if exceeds type 0xFF || exceeds inhibit 0xFFFF || exceeds timer 0xFFFF
      then refused
      else elim (index_of rpdo_com_base tpdo_com_base pdo dir) [
        | none ↦ refused
        | some comm_idx ↦ elim (index_of rpdo_map_base tpdo_map_base pdo dir) [
          | none ↦ refused
          | some map_idx ↦ upload u32 s node comm_idx 1 comm err >>= λ up.
              if is_ok up.status
              then reconfigure comm_idx map_idx type inhibit timer cnt objs up.val up.after up.err
              else returned (record { status = up.status; err = up.err; after = up.after })
        ]
      ]
