-- ===== src/Ds402/Start/Enabled.antt =====
-- `canmat_402_start` (src/ds402.c) returns OK only for a drive whose operation is enabled.
use socanmatic.Base.{ℕ, zero, suc, ◌≡◌, refl, true, arith, Bool-cases, inl, inr, if◌then◌else◌}
use socanmatic.Bus.{is_ok}
use socanmatic.Run.{Run, returned, >>=-eq-returned}
use socanmatic.Client.{Client}
use socanmatic.Ds402.Words.{shutdown_cmd, switch_on_cmd, disable_voltage_cmd, enable_op_cmd}
use socanmatic.Ds402.State.{
  StateVal, off_nrdy, off_sw_on_disable, off_rdy, on_op_dis, on_op_en, on_quick_stop,
  fault_reaction_active, fault, unknown, state,
}
use socanmatic.Ds402.Start.{
  Drive, Outcome, then_do, dl_ctrlmask, ul_statusword, start_nmt, recover, act, start_loop, start,
}

module _ (c : Client) where
  open c use {State}

  -- An outcome of OK has the status word of an enabled drive.
  abbrev pub Enabled : Outcome State → Type 0
  Enabled o = state o.drive.stat_word ≡ on_op_en

  abbrev Sound : Run (Outcome State) → Type 0
  Sound m = (o : Outcome State) → m ≡ returned o → is_ok o.status ≡ true → Enabled o

  then_do-Sound :
      (m : Run (Outcome State)) (k : Drive → State → Run (Outcome State))
      → ((drive : Drive) (s : State) → Sound (k drive s))
      → Sound (then_do c m k)
  then_do-Sound m k h o e good =
      let (o1, e1, r) =
        >>=-eq-returned m (λ o. if is_ok o.status then k o.drive o.after else returned o) e in
      elim (Bool-cases (is_ok o1.status)) [
        | inl t ↦ h o1.drive o1.after o (rw (t) at r) good
        | inr t ↦ absurd (ground (arith, t, rw (t) at r, good))
      ]

  act-Sound :
      (v : StateVal) (drive : Drive) (s : State) (next : Drive → State → Run (Outcome State))
      → state drive.stat_word ≡ v
      → ((drive : Drive) (s : State) → Sound (next drive s))
      → Sound (act c v drive s next)
  unfolding act
  act-Sound off_nrdy drive s next e h = then_do-Sound (start_nmt c drive s) next h
  act-Sound off_sw_on_disable drive s next e h =
      then_do-Sound (dl_ctrlmask c shutdown_cmd drive s) next h
  act-Sound off_rdy drive s next e h = then_do-Sound (dl_ctrlmask c switch_on_cmd drive s) next h
  act-Sound on_op_dis drive s next e h = then_do-Sound (dl_ctrlmask c enable_op_cmd drive s) next h
  act-Sound on_op_en drive s next e h = λ o q good. ground (arith, q, e)
  act-Sound on_quick_stop drive s next e h =
      then_do-Sound (dl_ctrlmask c disable_voltage_cmd drive s) next h
  act-Sound fault_reaction_active drive s next e h = then_do-Sound (recover c drive s) next h
  act-Sound fault drive s next e h = then_do-Sound (recover c drive s) next h
  act-Sound unknown drive s next e h = λ o q good. absurd (ground (arith, q, good))

  start_loop-Sound : (rounds : ℕ) (drive : Drive) (s : State) → Sound (start_loop c rounds drive s)
  unfolding start_loop
  start_loop-Sound zero drive s = λ o q good. absurd (ground (arith, q, good))
  start_loop-Sound (suc rounds) drive s =
      then_do-Sound (ul_statusword c drive s)
        (λ d1 s1. act c (state d1.stat_word) d1 s1 (start_loop c rounds))
        (λ d1 s1.
          act-Sound (state d1.stat_word) d1 s1 (start_loop c rounds) refl (start_loop-Sound rounds))

  -- Whatever the drive and the network do, a start that returns `CANMAT_OK` leaves in
  -- `drive->stat_word` a status word of the state "operation enabled".
  pub start-Enabled :
      (drive : Drive) (s : State) (o : Outcome State)
      → start c drive s ≡ returned o
      → is_ok o.status ≡ true
      → Enabled o
  unfolding start
  start-Enabled drive s o h good = start_loop-Sound 100 drive s o h good
