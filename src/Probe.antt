-- ===== src/Probe.antt =====
-- Probing the PDOs of a node (src/probe.c): `canmat_probe_pdo`, which reads the records of all eight
-- RPDOs by SDO uploads and prints them.
pub mod Reads
pub mod Tests
use Prim.Native.String.{String}
use socanmatic.Base.{
  ℕ, zero, suc, ◌+◌, ◌*◌, ◌/◌, ◌%◌, ◌^◌, bit_and, Bool, true, false, List, [], ◌∷◌, ◌++◌, Option,
  ltb, ◌==◌, if◌then◌else◌,
}
use socanmatic.Base.Int.{pos}
use socanmatic.Bus.{Bus, is_ok}
use socanmatic.Can.{Status, ok, err_proto}
use socanmatic.DataType.{DataType, unsigned8, unsigned32}
use socanmatic.Dict.{Obj}
use socanmatic.Display.Sdo.{name_for}
use socanmatic.Out.{Output, Arg, num, int}
use socanmatic.Pdo.{rpdo_com_base, rpdo_map_base, mask_valid}
use socanmatic.Run.{Run, returned, ◌>>=◌}
use socanmatic.Scalar.{u8, u32, zero_scalar}
use socanmatic.Sdo.Command.{scs_ex_ul}
use socanmatic.Sdo.Msg.{SdoMsg}
use socanmatic.Sdo.Query.{sdo_ul}
use socanmatic.Sdo.Typed.{is_abort}

-- `PDO_MAX`
abbrev pub pdo_max : ℕ
pdo_max = 8

-- `CANMAT_COBID_MASK` and `CANMAT_COBID_PDO_MASK_FRAME`
abbrev pub cobid_mask : ℕ
cobid_mask = 0x1FFFFFFF

abbrev pub mask_frame : ℕ
mask_frame = 2 ^ 29

-- The request that each step initialises; the fields that it does not name are 0.
abbrev pub probe_request : ℕ → ℕ → ℕ → DataType → SdoMsg
probe_request node index subindex data_type = record {
  index = index;
  subindex = subindex;
  node = node;
  cmd_spec = 0;
  data_type = data_type;
  length = 0;
  scalar = zero_scalar;
}

-- The local `resp`, the interface, and what is printed.
pub record Probing (State : Type 0) : Type 0 where
  pub resp : SdoMsg
  pub after : State
  pub printed : Output

-- One `printf`
abbrev pub say : {State : Type 0} → String → List Arg → Probing State → Probing State
say format args p = record p {
  printed = p.printed ++ (record { format = format; args = args } ∷ []);
}

-- `b ? 1 : 0`
abbrev pub flag : ℕ → Arg
flag b = int (pos (if b == 0 then 0 else 1))

module _ (bus : Bus) (fuel : ℕ) (search_index : ℕ → ℕ → Option Obj) (node : ℕ) where
  open bus use {State}

  -- `if( CANMAT_OK != r ) return r; if( CANMAT_SCS_EX_UL != resp.cmd_spec ) return CANMAT_ERR_PROTO;`
  unfoldable pub go_on :
      (Probing State → Run (Status × Probing State))
      → Status × Probing State
      → Run (Status × Probing State)
  go_on k (r, p) = elim (is_ok r) [
    | false ↦ returned (r, p)
    | true ↦ elim (scs_ex_ul == p.resp.cmd_spec) [ false ↦ returned (err_proto, p) | true ↦ k p ]
  ]

  -- `r = canmat_sdo_ul( cif, &req, &resp )`
  unfoldable pub ask : ℕ → ℕ → DataType → Probing State → Run (Status × Probing State)
  ask index subindex data_type p = do
    (r, resp, s) ← sdo_ul bus fuel p.after (probe_request node index subindex data_type) p.resp
    returned (r, record p { resp = resp; after = s })

  -- `for( uint8_t j = …; j < map_size; j++ )`, with `rounds` rounds to go
  unfoldable pub probe_mapped :
      ℕ
      → ℕ
      → ℕ
      → (Probing State → Run (Status × Probing State))
      → Probing State
      → Run (Status × Probing State)
  probe_mapped zero i j k p = k p
  probe_mapped (suc rounds) i j k p =
      ask ((rpdo_map_base + i) % 2 ^ 16) ((1 + j) % 2 ^ 8) unsigned32 p
      >>= go_on (λ q.
        let u = u32 q.resp.scalar in
        let idx = u / 2 ^ 16 in
        let subidx = u / 2 ^ 8 % 2 ^ 8 in
        probe_mapped rounds i (suc j) k (
          say "  > %d: '%s' (%x.%x) (%d)\n"
            (num j
              ∷ name_for (search_index idx subidx)
              ∷ num idx
              ∷ num subidx
              ∷ num (u % 2 ^ 8)
              ∷ [])
            q))

  -- The mapping record: its size, and then its entries
  unfoldable pub probe_map :
      ℕ
      → (Probing State → Run (Status × Probing State))
      → Probing State
      → Run (Status × Probing State)
  probe_map i k p =
      ask ((rpdo_map_base + i) % 2 ^ 16) 0 unsigned8 p
      >>= go_on (λ q.
        let map_size = u8 q.resp.scalar in
        probe_mapped map_size i 0 k (say "> mapped: %d\n" (num map_size ∷ []) q))

  -- `if( com_size > 1 )`
  unfoldable pub probe_trans :
      ℕ
      → ℕ
      → (Probing State → Run (Status × Probing State))
      → Probing State
      → Run (Status × Probing State)
  probe_trans com_size i k p = elim (ltb 1 com_size) [
    | false ↦ k p
    | true ↦
        ask ((rpdo_com_base + i) % 2 ^ 16) 2 unsigned8 p
        >>= go_on (λ q. k (say "> trans_type: 0x%x\n" (num (u8 q.resp.scalar) ∷ []) q))
  ]

  -- `if( com_size > 0 )`
  unfoldable pub probe_cobid :
      ℕ
      → ℕ
      → (Probing State → Run (Status × Probing State))
      → Probing State
      → Run (Status × Probing State)
  probe_cobid com_size i k p = elim (ltb 0 com_size) [
    | false ↦ k p
    | true ↦
        ask ((rpdo_com_base + i) % 2 ^ 16) 1 unsigned32 p
        >>= go_on (λ q.
          let u = u32 q.resp.scalar in
          k (
            say "> valid: %d\n" (flag (bit_and u mask_valid) ∷ []) (
              say "> frame: %d\n" (flag (bit_and u mask_frame) ∷ [])
                (say "> cob-id: 0x%x\n" (num (bit_and u cobid_mask) ∷ []) q))))
  ]

  -- What follows the first upload of a round; `next` is the next round, where `continue` goes.
  unfoldable pub probe_found :
      ℕ
      → (Probing State → Run (Status × Probing State))
      → Status × Probing State
      → Run (Status × Probing State)
  probe_found i next (r, p) = elim (is_abort r) [
    | true ↦ next p
    | false ↦
        go_on
          (λ q.
            let com_size = u8 q.resp.scalar in
            probe_cobid com_size i (probe_trans com_size i (probe_map i next))
              (say "> com size: %d\n" (num com_size ∷ []) (say "RPDO %u\n" (num i ∷ []) q)))
          (r, p)
  ]

  -- `for( uint8_t i = …; i < PDO_MAX; i++ )`, with `rounds` rounds to go
  unfoldable pub probe_rpdos : ℕ → ℕ → Probing State → Run (Status × Probing State)
  probe_rpdos zero i p = returned (ok, p)
  probe_rpdos (suc rounds) i p =
      ask ((rpdo_com_base + i) % 2 ^ 16) 0 unsigned8 p
      >>= probe_found i (probe_rpdos rounds (suc i))

  -- `canmat_probe_pdo`; `search_index` is `canmat_dict_search_index` on its dictionary.
  unfoldable pub probe_pdo : State → Run (Status × Probing State)
  probe_pdo s = probe_rpdos pdo_max 0 (record { resp = bus.stack_msg s; after = s; printed = [] })
