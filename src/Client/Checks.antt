-- ===== src/Client/Checks.antt =====
-- Laws of the chains that stop at the first status that is not OK.
use socanmatic.Base.{◌≡◌, refl, ap, Option, fun_ext, if◌then◌else◌, Bool, true, false}
use socanmatic.Can.{Status, ok}
use socanmatic.Bus.{is_ok}
use socanmatic.Run.{Run, assert_failed, waiting, fault, exited, returned}
use socanmatic.Sdo.Typed.{Downloaded}
use socanmatic.Base.{ℕ, arith}
use socanmatic.Client.Defs.{check}

module _ {State : Type 0} where
  if_check :
      (b : Bool) (d : Downloaded State) (k l : State → Option ℕ → Run (Downloaded State))
      → is_ok d.status ≡ b
      → check (if b then k d.after d.err else returned d) l
        ≡ (if b then check (k d.after d.err) l else returned d)
  if_check true d k l e = refl
  if_check false d k l e = ap (λ (b : Bool). if b then l d.after d.err else returned d) e

  -- Chains may be bracketed either way.
  pub check_assoc :
      (m : Run (Downloaded State)) (k l : State → Option ℕ → Run (Downloaded State))
      → check (check m k) l ≡ check m (λ s e. check (k s e) l)
  check_assoc assert_failed k l = refl
  check_assoc waiting k l = refl
  check_assoc fault k l = refl
  check_assoc exited k l = refl
  check_assoc (returned d) k l = if_check (is_ok d.status) d k l refl

  -- A chain that goes on to nothing is its first call.
  pub check_end :
      (m : Run (Downloaded State))
      → check m (λ s e. returned (record { status = ok; err = e; after = s })) ≡ m
  check_end assert_failed = refl
  check_end waiting = refl
  check_end fault = refl
  check_end exited = refl
  check_end (returned d) = end d d.status refl
    where
      end :
          (d : Downloaded State) (r : Status)
          → d.status ≡ r
          → check (returned d) (λ s e. returned (record { status = ok; err = e; after = s }))
            ≡ returned d
      end d ok h = ground (arith, h)
      end d _ h = ground (arith, h)

  -- Rewriting what follows a call.
  pub check_cong :
      (m : Run (Downloaded State)) (k l : State → Option ℕ → Run (Downloaded State))
      → ((s : State) (e : Option ℕ) → k s e ≡ l s e)
      → check m k ≡ check m l
  check_cong m k l h = ap (check m) (fun_ext λ s. fun_ext λ e. h s e)
