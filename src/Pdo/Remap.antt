-- ===== src/Pdo/Remap.antt =====
-- `canmat_pdo_remap` (src/pdo.c) makes the transfers of its script, in order, up to the first that
-- fails.
use socanmatic.Base.{
  ℕ, zero, suc, ◌+◌, ◌%◌, ◌^◌, ◌<◌, ◌≡◌, refl, sym, ap, ◌∙◌, fun_ext, Bool, true, false, ◌||◌,
  Option, some, List, [], ◌∷◌, ◌++◌, length, get_elem?, bit_and, leb, ◌==◌, if◌then◌else◌, arith,
  Bool-cases, ◌⊎◌, inl, inr,
}
use socanmatic.Base.Int.{ℤ, pos, negsuc, exceeds}
use socanmatic.Can.{ok, err_param}
use socanmatic.Bus.{is_ok}
use socanmatic.Run.{Run, returned}
use socanmatic.Scalar.Member.{u32}
use socanmatic.Sdo.Typed.{Uploaded, Downloaded}
use socanmatic.Dict.{Obj, obj_bitsize}
use socanmatic.Client.{Client, check}
use socanmatic.Client.Checks.{check_end, check_cong}
use socanmatic.Pdo.{
  Direction, other, index_of, rpdo_com_base, tpdo_com_base, rpdo_map_base, tpdo_map_base,
  mask_valid, map_word, map_objs, when_set, reconfigure, remap,
}
use socanmatic.Pdo.Script.{Transfer, Mappable, entries, option_entry, script, run_script}

module _ (c : Client) (node : ℕ) where
  open c use {State, upload, download}

  run_script-one :
      (t : Transfer) (s : State) (err : Option ℕ)
      → run_script c node (t ∷ []) s err ≡ download t.member s node t.idx t.sub t.val err
  unfolding run_script
  run_script-one t s err = check_end (download t.member s node t.idx t.sub t.val err)

  -- The list `rest` is `objs` from index `j` on.
  abbrev IsTail : List Obj → ℕ → List Obj → Type 0
  IsTail objs j rest = (i : ℕ) → get_elem? objs (j + i) ≡ get_elem? rest i

  map_objs-entries :
      (rounds map_idx j cnt : ℕ) (objs rest : List Obj) (s : State) (err : Option ℕ)
      (us : List Transfer)
      → IsTail objs j rest
      → Mappable rest
      → j + length rest ≡ cnt
      → cnt < 255
      → length rest < rounds
      → map_objs c node rounds map_idx (suc j) cnt objs s err (run_script c node us)
        ≡ run_script c node (entries map_idx (suc j) rest ++ us) s err
  unfolding map_objs run_script
  map_objs-entries zero map_idx j cnt objs rest s err us t m e lt h = absurd (omega arith)
  map_objs-entries (suc rounds) map_idx j cnt objs [] s err us t m e lt h =
      let past : leb (suc j) cnt ≡ false = ground arith in rw (past, map_objs) refl
  map_objs-entries (suc rounds) map_idx j cnt objs (o ∷ os) s err us t m e lt h =
      let within : leb (suc j) cnt ≡ true = ground arith in
      let here : get_elem? objs j ≡ some o = ap (get_elem? objs) (omega arith) ∙ t 0 in
      let next : (suc j + 1) % 2 ^ 8 ≡ suc (suc j) = omega arith in
      rw (within, here, m.0, next, map_objs)
        (check_cong (download u32 s node map_idx (suc j) (map_word o (obj_bitsize o)) err) _ _
          (λ s' e'.
            map_objs-entries rounds map_idx (suc j) cnt objs os s' e' us
              (λ i. ap (get_elem? objs) (omega arith) ∙ t (suc i)) m.1 (omega arith) lt
              (omega arith)))

  abbrev Continues : (State → Option ℕ → Run (Downloaded State)) → List Transfer → Type 0
  Continues k us = (s : State) (e : Option ℕ) → k s e ≡ run_script c node us s e

  cons-script :
      (t : Transfer) (us : List Transfer) (k : State → Option ℕ → Run (Downloaded State))
      → Continues k us
      → (s : State) (e : Option ℕ)
      → check (download t.member s node t.idx t.sub t.val e) k ≡ run_script c node (t ∷ us) s e
  unfolding run_script
  cons-script t us k h s e =
      check_cong (download t.member s node t.idx t.sub t.val e) k (run_script c node us) h

  when_set-script :
      (option : ℤ) (t : Transfer) (us : List Transfer)
      (k : State → Option ℕ → Run (Downloaded State))
      → Continues k us
      → (s : State) (e : Option ℕ)
      → when_set c node option (download t.member s node t.idx t.sub t.val e) s e k
        ≡ run_script c node (option_entry option t ++ us) s e
  when_set-script (pos x) t us k h s e = cons-script t us k h s e
  when_set-script (negsuc x) t us k h s e = h s e

  invalidate-script :
      (b : Bool) (t : Transfer) (us : List Transfer) (k : State → Option ℕ → Run (Downloaded State))
      → Continues k us
      → (s : State) (e : Option ℕ)
      → check
          (if b
            then download t.member s node t.idx t.sub t.val e
            else returned (record { status = ok; err = e; after = s }))
          k
        ≡ run_script c node ((if b then t ∷ [] else []) ++ us) s e
  invalidate-script true t us k h s e = cons-script t us k h s e
  invalidate-script false t us k h s e = h s e

  reconfigure-script :
      (comm_idx map_idx : ℕ) (type inhibit timer : ℤ) (cnt : ℕ) (objs : List Obj) (comm : ℕ)
      (s : State) (err : Option ℕ)
      → Mappable objs
      → length objs ≡ cnt
      → cnt < 255
      → reconfigure c node comm_idx map_idx type inhibit timer cnt objs comm s err
        ≡ run_script c node (script comm_idx map_idx type inhibit timer cnt objs comm) s err
  unfolding reconfigure script
  reconfigure-script comm_idx map_idx type inhibit timer cnt objs comm s err m e lt =
      invalidate-script (bit_and comm mask_valid == 0) _ _ _
        (cons-script _ _ _ λ s2 e2.
          ap (map_objs c node 257 map_idx 1 cnt objs s2 e2) (
            fun_ext λ s3. fun_ext λ e3.
              when_set-script type _ _ _
                (when_set-script inhibit _ _ _ (
                  when_set-script timer _ _ _
                    (cons-script _ _ _ λ s7 e7. sym (run_script-one _ s7 e7))))
                s3 e3)
          ∙ map_objs-entries 257 map_idx 0 cnt objs objs s2 e2 _
              (λ i. ap (get_elem? objs) (omega arith)) m (omega arith) lt (omega arith))
        s err

  -- With options in range, a direction, a comm word that the node uploads, and at most 254 objects
  -- that can be mapped, `canmat_pdo_remap` is the run of its script: invalidate the PDO unless it
  -- is invalid, set the count of the map to 0, write the entries 1 to `cnt`, write the options that
  -- are set, write the count, and validate the PDO, up to the first transfer that fails.
  pub remap-script :
      (pdo : ℕ) (dir : Direction) (type inhibit timer : ℤ) (cnt : ℕ) (objs : List Obj) (comm : ℕ)
      (s : State) (err : Option ℕ) (comm_idx map_idx : ℕ) (up : Uploaded State)
      → exceeds type 0xFF ≡ false
      → exceeds inhibit 0xFFFF ≡ false
      → exceeds timer 0xFFFF ≡ false
      → index_of rpdo_com_base tpdo_com_base pdo dir ≡ some comm_idx
      → index_of rpdo_map_base tpdo_map_base pdo dir ≡ some map_idx
      → upload u32 s node comm_idx 1 comm err ≡ returned up
      → is_ok up.status ≡ true
      → Mappable objs
      → length objs ≡ cnt
      → cnt < 255
      → remap c node pdo dir type inhibit timer cnt objs comm s err
        ≡ run_script c node
            (script comm_idx map_idx type inhibit timer cnt objs up.val)
            up.after
            up.err
  unfolding remap
  remap-script pdo dir type inhibit timer cnt objs comm s err comm_idx map_idx up h1 h2 h3 hc hm hu
        hok m e lt =
      rw (h1, h2, h3, hc, hm, hu, hok)
        (reconfigure-script comm_idx map_idx type inhibit timer cnt objs up.val up.after up.err m e
          lt)

  -- An option above its bound, or a direction that is neither of the two, is refused with
  -- `CANMAT_ERR_PARAM`, and no transfer is made.
  pub remap-refused :
      (pdo : ℕ) (dir : Direction) (type inhibit timer : ℤ) (cnt : ℕ) (objs : List Obj) (comm : ℕ)
      (s : State) (err : Option ℕ)
      → (exceeds type 0xFF || exceeds inhibit 0xFFFF || exceeds timer 0xFFFF ≡ true) ⊎ (dir ≡ other)
      → remap c node pdo dir type inhibit timer cnt objs comm s err
        ≡ returned (record { status = err_param; err = err; after = s })
  unfolding remap
  remap-refused pdo dir type inhibit timer cnt objs comm s err (inl h) = rw (h) refl
  remap-refused pdo dir type inhibit timer cnt objs comm s err (inr h) =
      elim (Bool-cases (exceeds type 0xFF || exceeds inhibit 0xFFFF || exceeds timer 0xFFFF)) [
        | inl t ↦ rw (t) refl
        | inr f ↦ rw (f, h) refl
      ]
