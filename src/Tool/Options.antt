-- ===== src/Tool/Options.antt =====
-- The options of the tool (src/canmat.c): the first loop of `main`, `posarg` and `set_iface`, and
-- `open_iface` of src/util.c. What `getopt` reads is given as a list.
use socanmatic.Base.{ℕ, suc, Bool, true, false, List, [], ◌∷◌, ◌++◌, Option, none, some}
use socanmatic.Bus.{is_ok}
use socanmatic.Can.{Status}
use socanmatic.Run.{Run, assert_failed, exited, returned, ◌>>=◌}
use socanmatic.Tool.{hard_assert}

-- What an option's case in the switch is: version, verbose, timestamp, api, interface, help, and the
-- default.
pub data ToolOpt : Type 0 where
  version verbose timestamp_opt help : ToolOpt
  api iface positional : List ℕ → ToolOpt

-- `opt_verbosity`, `opt_timestamp`, `opt_api`, `canset`, and the positional arguments, the command
-- first
pub record Parsed (Cif : Type 0) : Type 0 where
  pub opt_verbosity : ℕ
  pub opt_timestamp : Bool
  pub opt_api : List ℕ
  pub opened : List (Cif × List ℕ)
  pub positionals : List (List ℕ)

-- "socketcan"
abbrev pub default_api : List ℕ
default_api = 115 ∷ 111 ∷ 99 ∷ 107 ∷ 101 ∷ 116 ∷ 99 ∷ 97 ∷ 110 ∷ []

abbrev pub no_options : {Cif : Type 0} → Parsed Cif
no_options = record {
  opt_verbosity = 0;
  opt_timestamp = false;
  opt_api = default_api;
  opened = [];
  positionals = [];
}

-- `new` is `canmat_iface_new`, and `open_cif` is `canmat_iface_open`, with the interface that it
-- leaves.
module _ {Cif : Type 0} (new : List ℕ → Option Cif) (open_cif : Cif → List ℕ → Status × Cif) where
  unfoldable pub open_iface : List ℕ → List ℕ → Run Cif
  open_iface type name = elim (new type) [
    | none ↦ assert_failed
    | some cif ↦ let (r, opened) = open_cif cif name in hard_assert (is_ok r) (returned opened)
  ]

  unfoldable pub set_iface : List ℕ → List ℕ → Parsed Cif → Run (Parsed Cif)
  unfolding open_iface
  set_iface type name p =
      open_iface type name
      >>= (λ cif. returned (record p { opened = p.opened ++ ((cif, name) ∷ []) }))

  -- One round of the loop
  unfoldable pub read_option : ToolOpt → Parsed Cif → Run (Parsed Cif)
  unfolding set_iface
  read_option version p = exited
  read_option help p = exited
  read_option verbose p = returned (record p { opt_verbosity = suc p.opt_verbosity })
  read_option timestamp_opt p = returned (record p { opt_timestamp = true })
  read_option (api arg) p = returned (record p { opt_api = arg })
  read_option (iface arg) p = set_iface p.opt_api arg p
  read_option (positional arg) p = returned (record p { positionals = p.positionals ++ (arg ∷ []) })

  unfoldable pub read_options : List ToolOpt → Parsed Cif → Run (Parsed Cif)
  unfolding read_option
  read_options [] p = returned p
  read_options (o ∷ opts) p = read_option o p >>= read_options opts
