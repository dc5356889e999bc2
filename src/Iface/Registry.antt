-- ===== src/Iface/Registry.antt =====
-- The registry of drivers (src/iface/iface.c): `lookup`, `load` and `canmat_iface_new`. The dynamic
-- loader is a parameter.
mod Keeps
mod Tests
use Prim.Native.String.{String}
use socanmatic.Base.{ℕ, Bool, true, false, List, [], ◌∷◌, ◌++◌, Option, none, some, if◌then◌else◌}
use socanmatic.Dict.Print.{same_text}

-- `dlopen` of a file name, `dlsym` of `canmat_iface_new_module` in what it opened, and a call of what
-- that found; `none` is NULL. Each may change the state of the process: a call makes a new object, a
-- load that failed may succeed later.
pub record Loader : Type 1 where
  pub State : Type 0
  pub Handle : Type 0
  pub Fun : Type 0
  pub Made : Type 0
  pub dlopen : State → List ℕ → Option Handle × State
  pub dlsym : State → Handle → Option Fun × State
  pub call : State → Fun → Option Made × State

module _ (l : Loader) where
  open l use {State, Handle, Fun, Made, dlopen, dlsym, call}

  -- `struct fun_desc`; the list `desc` is a list of these.
  pub record FunDesc : Type 0 where
    pub type_name : List ℕ
    pub fun : Fun

  unfoldable pub lookup : List ℕ → List FunDesc → Option FunDesc
  lookup type [] = none
  lookup type (d ∷ ds) =
      let rest = lookup type ds in if same_text type d.type_name then some d else rest

  -- "libsocanmatic_iface_", the type, and ".so"
  abbrev pub prefix : List ℕ
  prefix =
      108 ∷ 105 ∷ 98 ∷ 115 ∷ 111 ∷ 99 ∷ 97 ∷ 110 ∷ 109 ∷ 97 ∷ 116 ∷ 105 ∷ 99 ∷ 95 ∷ 105 ∷ 102 ∷ 97
      ∷ 99 ∷ 101 ∷ 95 ∷ []

  abbrev pub suffix : List ℕ
  suffix = 46 ∷ 115 ∷ 111 ∷ []

  -- What `load` makes of the symbol that it found.
  abbrev pub register : List ℕ → List FunDesc → Option Fun × State → List FunDesc × State
  register type desc (none, s) = (desc, s)
  register type desc (some f, s) = (record { type_name = type; fun = f } ∷ desc, s)

  abbrev pub find_symbol : List ℕ → List FunDesc → Option Handle × State → List FunDesc × State
  find_symbol type desc (none, s) = (desc, s)
  find_symbol type desc (some p, s) = register type desc (dlsym s p)

  unfoldable pub load : List ℕ → List FunDesc → State → List FunDesc × State
  load type desc s = find_symbol type desc (dlopen s (prefix ++ (type ++ suffix)))

  -- `d->fun()`, or NULL
  abbrev pub make : Option FunDesc → State → Option Made × State
  make none s = (none, s)
  make (some d) s = call s d.fun

  -- `canmat_iface_new`, with the registry and the state that it leaves
  unfoldable pub iface_new : List ℕ → List FunDesc → State → (Option Made × State) × List FunDesc
  iface_new type desc s = elim (lookup type desc) [
    | some d ↦ (call s d.fun, desc)
    | none ↦ let (desc', s') = load type desc s in (make (lookup type desc') s', desc')
  ]
