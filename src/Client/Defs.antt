-- ===== src/Client/Defs.antt =====
-- The interface that the profiles above SDO use, and chains of its calls that stop at the first
-- status that is not OK.
use socanmatic.Base.{ℕ, ◌≡◌, false, Option, none, if◌then◌else◌}
use socanmatic.Can.{CanFrame, Status}
use socanmatic.Bus.{is_ok}
use socanmatic.Run.{Run, returned, ◌>>=◌}
use socanmatic.Scalar.Member.{Member}
use socanmatic.Sdo.Typed.{Uploaded, Downloaded}

-- `upload m s node idx subix val err` is `canmat_sdo_ul_*`, or `canmat_402_ul_*` for the dictionary's
-- variable at the indices, with the present contents of `*val` and `*err`; `download` is
-- `canmat_sdo_dl_*` or `canmat_402_dl_*`.
pub record Client : Type 1 where
  pub State : Type 0
  pub upload : Member → State → ℕ → ℕ → ℕ → ℕ → Option ℕ → Run (Uploaded State)
  pub download : Member → State → ℕ → ℕ → ℕ → ℕ → Option ℕ → Run (Downloaded State)
  pub send : State → CanFrame → Status × State
  -- A failed upload leaves `*val` alone, and no call stores through a NULL `err`.
  pub val_kept :
      (m : Member) (s : State) (node idx subix val : ℕ) (err : Option ℕ) (u : Uploaded State)
      → upload m s node idx subix val err ≡ returned u
      → is_ok u.status ≡ false
      → u.val ≡ val
  pub null_kept :
      (m : Member) (s : State) (node idx subix val : ℕ) (d : Downloaded State)
      → download m s node idx subix val none ≡ returned d
      → d.err ≡ none

-- `r = …; if( CANMAT_OK != r ) return r;` before the rest of a function that returns `r`, `*err`
-- and the state.
abbrev pub check :
    {State : Type 0}
    → Run (Downloaded State)
    → (State → Option ℕ → Run (Downloaded State))
    → Run (Downloaded State)
check m k = m >>= λ d. if is_ok d.status then k d.after d.err else returned d
