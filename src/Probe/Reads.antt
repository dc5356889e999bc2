-- ===== src/Probe/Reads.antt =====
-- What probing (src/probe.c) does to the bus: it only reads.
use socanmatic.Base.{ℕ, zero, suc, ◌≡◌, Option, Bool-cases, inl, inr, ltb, ◌==◌}
use mathlib.Core.Path.{subst}
use socanmatic.Bus.{Bus, is_ok}
use socanmatic.Can.{Status, err_proto}
use socanmatic.DataType.{DataType}
use socanmatic.Dict.{Obj}
use socanmatic.Probe.{
  Probing, go_on, ask, probe_request, probe_mapped, probe_map, probe_trans, probe_cobid,
  probe_found, probe_rpdos, probe_pdo,
}
use socanmatic.Run.{Run, returned, ◌>>=◌, >>=-eq-returned, returned_inj}
use socanmatic.Sdo.Command.{scs_ex_ul}
use socanmatic.Sdo.Msg.{SdoMsg}
use socanmatic.Sdo.Query.{sdo_ul}
use socanmatic.Sdo.Query.Reads.{KeptByReads, sdo_ul_keeps}
use socanmatic.Sdo.Typed.{is_abort}

module _ (bus : Bus) (fuel : ℕ) (objects : ℕ → ℕ → Option Obj) (node : ℕ) (P : bus.State → Type 0)
    (k : KeptByReads bus node P) where
  open bus use {State}

  -- `P` holds wherever the run ends.
  abbrev Ends : Run (Status × Probing State) → Type 0
  Ends m = (o : Status × Probing State) → m ≡ returned o → P o.1.after

  -- From every state with `P`, the run ends in one.
  abbrev Keeps : (Probing State → Run (Status × Probing State)) → Type 0
  Keeps f = (p : Probing State) → P p.after → Ends (f p)

  kept_here : (o : Status × Probing State) → P o.1.after → Ends (returned o)
  kept_here o p o' h = subst (λ (x : Status × Probing State). P x.1.after) (returned_inj h) p

  asked :
      (index subindex : ℕ) (t : DataType)
      (f : Status × Probing State → Run (Status × Probing State))
      → ((r : Status) → Keeps (λ p. f (r, p)))
      → Keeps (λ p. ask bus fuel objects node index subindex t p >>= f)
  unfolding ask
  asked index subindex t f g p h o e =
      let req = probe_request node index subindex t in
      let (x, got, rest) = >>=-eq-returned (ask bus fuel objects node index subindex t p) f e in
      let (y, answered, made) =
        >>=-eq-returned (sdo_ul bus fuel p.after req p.resp)
          (λ (q : Status × SdoMsg × State). returned (q.0, record p { resp = q.1; after = q.2 }))
          got in
      let held : P y.2 = sdo_ul_keeps bus P fuel p.after req p.resp y k h answered in
      g x.0 x.1 (subst (λ (q : Status × Probing State). P q.1.after) (returned_inj made) held) o
        rest

  go_on-Keeps :
      (f : Probing State → Run (Status × Probing State)) (r : Status)
      → Keeps f
      → Keeps (λ p. go_on bus fuel objects node f (r, p))
  unfolding go_on
  go_on-Keeps f r g p h o e = elim (Bool-cases (is_ok r)) [
    | inl a ↦ elim (Bool-cases (scs_ex_ul == p.resp.cmd_spec)) [
      | inl b ↦ g p h o (rw (a, b, go_on) at e)
      | inr b ↦ kept_here (err_proto, p) h o (rw (a, b, go_on) at e)
    ]
    | inr a ↦ kept_here (r, p) h o (rw (a, go_on) at e)
  ]

  probe_mapped-Keeps :
      (rounds i j : ℕ) (f : Probing State → Run (Status × Probing State))
      → Keeps f
      → Keeps (probe_mapped bus fuel objects node rounds i j f)
  unfolding probe_mapped
  probe_mapped-Keeps zero i j f g = g
  probe_mapped-Keeps (suc rounds) i j f g =
      asked _ _ _ _ (λ r. go_on-Keeps _ r (λ q h. probe_mapped-Keeps rounds i (suc j) f g _ h))

  probe_map-Keeps :
      (i : ℕ) (f : Probing State → Run (Status × Probing State))
      → Keeps f
      → Keeps (probe_map bus fuel objects node i f)
  unfolding probe_map
  probe_map-Keeps i f g =
      asked _ _ _ _ (λ r. go_on-Keeps _ r (λ q h. probe_mapped-Keeps _ i 0 f g _ h))

  probe_trans-Keeps :
      (com_size i : ℕ) (f : Probing State → Run (Status × Probing State))
      → Keeps f
      → Keeps (probe_trans bus fuel objects node com_size i f)
  unfolding probe_trans
  probe_trans-Keeps com_size i f g p h o e = elim (Bool-cases (ltb 1 com_size)) [
    | inl a ↦ asked _ _ _ _ (λ r. go_on-Keeps _ r (λ q h'. g _ h')) p h o (rw (a, probe_trans) at e)
    | inr a ↦ g p h o (rw (a, probe_trans) at e)
  ]

  probe_cobid-Keeps :
      (com_size i : ℕ) (f : Probing State → Run (Status × Probing State))
      → Keeps f
      → Keeps (probe_cobid bus fuel objects node com_size i f)
  unfolding probe_cobid
  probe_cobid-Keeps com_size i f g p h o e = elim (Bool-cases (ltb 0 com_size)) [
    | inl a ↦ asked _ _ _ _ (λ r. go_on-Keeps _ r (λ q h'. g _ h')) p h o (rw (a, probe_cobid) at e)
    | inr a ↦ g p h o (rw (a, probe_cobid) at e)
  ]

  probe_found-Keeps :
      (i : ℕ) (r : Status) (f : Probing State → Run (Status × Probing State))
      → Keeps f
      → Keeps (λ p. probe_found bus fuel objects node i f (r, p))
  unfolding probe_found
  probe_found-Keeps i r f g p h o e = elim (Bool-cases (is_abort r)) [
    | inl a ↦ g p h o (rw (a, probe_found) at e)
    | inr a ↦
        go_on-Keeps _ r
          (λ q h'. probe_cobid-Keeps _ i _ (probe_trans-Keeps _ i _ (probe_map-Keeps i f g)) _ h') p
          h o (rw (a, probe_found) at e)
  ]

  probe_rpdos-Keeps : (rounds i : ℕ) → Keeps (probe_rpdos bus fuel objects node rounds i)
  unfolding probe_rpdos
  probe_rpdos-Keeps zero i = λ p h. kept_here _ h
  probe_rpdos-Keeps (suc rounds) i =
      asked _ _ _ _ (λ r. probe_found-Keeps i r _ (probe_rpdos-Keeps rounds (suc i)))

  -- Probing only reads: a property of the bus that receiving keeps, and sending an SDO upload request
  -- to the probed node, still holds when probing returns, whatever status it returns, whatever the
  -- node answers, and however many records it has.
  pub probe_pdo-Keeps :
      (s : State) (o : Status × Probing State)
      → P s
      → probe_pdo bus fuel objects node s ≡ returned o
      → P o.1.after
  unfolding probe_pdo
  probe_pdo-Keeps s o h e = probe_rpdos-Keeps 8 0 _ h o e
