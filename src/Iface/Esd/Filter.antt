-- ===== src/Iface/Esd/Filter.antt =====
-- The identifiers that are left enabled by `v_filter` of src/iface/iface_ntcan.c.
use socanmatic.Base.{
  ℕ, zero, suc, ◌+◌, ◌≤◌, ◌<◌, ◌≡◌, bit_and, [], ◌∷◌, refl, Bool, true, false, not, ◌&&◌, ◌||◌,
  List, ltb, leb, ◌==◌, ==→eq, Bool-cases, inl, inr, arith,
}
use mathlib.Core.Path.{subst}
use socanmatic.Can.{ok}
use socanmatic.Ntcan.{NtResult, is_success, Ntcan}
use socanmatic.Iface.{Iface}
use socanmatic.Iface.Esd.{CanFilter, cob_id_max_base, matched, filter_ids, v_filter}

-- What the library says of `canIdDelete` for an identifier that is enabled: the call succeeds, the
-- identifier is no longer enabled, and the others are as before. Nothing is said of the deletion of
-- an identifier that is not enabled.
pub record Deletes (nt : Ntcan) (enabled : nt.State → ℕ → Bool) : Type 0 where
  pub succeeds :
      (s : nt.State) (i : ℕ) → enabled s i ≡ true → is_success (nt.can_id_delete s i).0 ≡ true
  pub removes :
      (s : nt.State) (i j : ℕ)
      → enabled s i ≡ true
      → enabled (nt.can_id_delete s i).1 j ≡ (enabled s j && not (i == j))

-- The identifier agrees with one of the filters on every bit of its mask.
abbrev pub wanted : ℕ → List CanFilter → Bool
wanted j [] = false
wanted j (f ∷ fs) = (bit_and j f.filter_mask == bit_and f.filter_id f.filter_mask) || wanted j fs

matched-wanted : (j : ℕ) (filters : List CanFilter) → matched j filters ≡ wanted j filters
unfolding matched
matched-wanted j [] = refl
matched-wanted j (f ∷ fs) =
    elim (Bool-cases (bit_and j f.filter_mask == bit_and f.filter_id f.filter_mask)) [
      | inl t ↦ rw (t) refl
      | inr t ↦ rw (t) (matched-wanted j fs)
    ]

module _ (nt : Ntcan) (enabled : nt.State → ℕ → Bool) (law : Deletes nt enabled) where
  open nt use {State, can_id_delete}

  -- An identifier outside the range from `i` on, or that a filter matches.
  abbrev kept : ℕ → ℕ → List CanFilter → ℕ → Bool
  kept left i filters j = ltb j i || leb (i + left) j || matched j filters

  kept_all : (i : ℕ) (filters : List CanFilter) (e : Bool) (j : ℕ) → e ≡ (e && kept 0 i filters j)
  kept_all i filters false j = refl
  kept_all i filters true j = ground arith

  above :
      (filters : List CanFilter) (e : Bool) (j : ℕ)
      → (e && kept (cob_id_max_base + 1) 0 filters j)
        ≡ (e && (ltb cob_id_max_base j || matched j filters))
  above filters false j = refl
  above filters true j = ground arith

  kept_first :
      (left i : ℕ) (filters : List CanFilter) (e : Bool) (j : ℕ)
      → matched i filters ≡ true
      → (e && kept left (i + 1) filters j) ≡ (e && kept (suc left) i filters j)
  kept_first left i filters false j t = refl
  kept_first left i filters true j t = elim (Bool-cases (i == j)) [
    | inl q ↦
        let m : matched j filters ≡ true = subst (λ x. matched x filters ≡ true) (==→eq i j q) t in
        ground (arith, m, q)
    | inr q ↦ ground (arith, q)
  ]

  kept_less :
      (left i : ℕ) (filters : List CanFilter) (e : Bool) (j : ℕ)
      → matched i filters ≡ false
      → (e && not (i == j) && kept left (i + 1) filters j) ≡ (e && kept (suc left) i filters j)
  kept_less left i filters false j t = refl
  kept_less left i filters true j t = elim (Bool-cases (i == j)) [
    | inl q ↦
        let m : matched j filters ≡ false =
          subst (λ x. matched x filters ≡ false) (==→eq i j q) t in
        ground (arith, m, q)
    | inr q ↦ ground (arith, q)
  ]

  -- The identifiers that the loop has before it are enabled.
  abbrev Ahead : ℕ → ℕ → State → Type 0
  Ahead left i s = (j : ℕ) → i ≤ j → j < i + left → enabled s j ≡ true

  Ahead-deleted :
      (left i : ℕ) (s : State) → Ahead (suc left) i s → Ahead left (i + 1) (can_id_delete s i).1
  Ahead-deleted left i s on j low high =
      let other : (i == j) ≡ false = ground (arith, low) in
      rw
        (
          law.removes s i j (on i (omega arith) (omega arith)),
          other,
          on j (omega arith) (omega arith),
        )
        refl

  filter_ids-keeps :
      (left i : ℕ) (filters : List CanFilter) (cif : Iface NtResult) (s : State)
      → Ahead left i s
      → (s' : State) × (filter_ids nt left i filters cif s ≡ (ok, cif, s'))
        × ((j : ℕ) → enabled s' j ≡ (enabled s j && kept left i filters j))
  unfolding filter_ids
  filter_ids-keeps zero i filters cif s on = (s, refl, λ j. kept_all i filters (enabled s j) j)
  filter_ids-keeps (suc left) i filters cif s on = elim (Bool-cases (matched i filters)) [
    | inl t ↦
        let (s', e, all) =
          filter_ids-keeps left (i + 1) filters cif s
            (λ j low high. on j (omega arith) (omega arith)) in
        (s', rw (t) e, λ j. rw (all j) (kept_first left i filters (enabled s j) j t))
    | inr t ↦
        let (s', e, all) =
          filter_ids-keeps left (i + 1) filters cif (can_id_delete s i).1
            (Ahead-deleted left i s on) in
        let at_i : enabled s i ≡ true = on i (omega arith) (omega arith) in
        (
          s',
          rw (t, law.succeeds s i at_i) e,
          λ j. rw (all j, law.removes s i j at_i) (kept_less left i filters (enabled s j) j t),
        )
  ]

  -- When all identifiers up to 0x7FF are enabled, as `v_open` leaves them, and deleting an enabled
  -- identifier succeeds, `v_filter` returns OK and leaves enabled, of the identifiers that were,
  -- those above 0x7FF and those that agree with one of the filters on every bit of its mask.
  pub v_filter-keeps :
      (filters : List CanFilter) (cif : Iface NtResult) (s : State)
      → ((j : ℕ) → j ≤ 0x7FF → enabled s j ≡ true)
      → (s' : State) × (v_filter nt filters cif s ≡ (ok, cif, s'))
        × ((j : ℕ) → enabled s' j ≡ (enabled s j && (ltb 0x7FF j || wanted j filters)))
  unfolding v_filter
  v_filter-keeps filters cif s on =
      let (s', e, all) =
        filter_ids-keeps (cob_id_max_base + 1) 0 filters cif s (λ j low high. on j (omega arith)) in
      (s', e, λ j. rw (← matched-wanted j filters, all j) (above filters (enabled s j) j))
