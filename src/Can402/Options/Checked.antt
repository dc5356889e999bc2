-- ===== src/Can402/Options/Checked.antt =====
-- What the daemon's parsing of its options (src/can402.c) ensures.
use Prim.{Unit, tt}
use mathlib.Core.Path.{subst}
use socanmatic.Base.{
  ℕ, suc, ◌%◌, ◌^◌, ◌≤◌, ◌<◌, ◌≡◌, ◌≢◌, refl, ap, inl, inr, Bool, true, false, List, [], ◌∷◌, ◌++◌,
  length, length-append, Option, arith, ltb, ◌==◌, Bool-cases,
}
use socanmatic.Can.{Status}
use socanmatic.Can402.{Double}
use socanmatic.Can402.Options.{
  DaemonOpt, show_version, show_help, sns_option, set_api, set_cif, set_chan_ref, set_chan_state,
  set_chan_event, add_node, set_offset, set_rpdo_ctrl, set_rpdo_user, invalid, NodeOpts, DaemonOpts,
  sns_require, on_last, new_node, offset_of, daemon_defaults, parse_option, parse_options,
  distinct_pdos, is_given, parse,
}
use socanmatic.Run.{Run, returned, >>=-eq-returned, returned_inj}
use socanmatic.Tool.{parse_u}
use socanmatic.Tool.Options.{open_iface}
use socanmatic.Tool.Send.{max_node}
use socanmatic.Tool.Valid.{parse_u_bound}

sns_require-eq-returned :
    {A : Type 0} (test : Bool) (k : Run A) (a : A)
    → sns_require test k ≡ returned a
    → (test ≡ true) × (k ≡ returned a)
sns_require-eq-returned true k a h = (refl, h)
sns_require-eq-returned false k a h = absurd (cc)

less_of : {a b : ℕ} → ltb a b ≡ true → a < b
less_of h = ground (arith, h)

-- The node's number and its PDOs are in their ranges.
abbrev pub InRange : {W : Type 0} → NodeOpts W → Type 0
InRange d = (d.node_id ≤ 0x7F) × (d.ctrl_pdo ≤ 255) × (d.user_pdo ≤ 255)

abbrev pub AllInRange : {W : Type 0} → List (NodeOpts W) → Type 0
AllInRange [] = Unit
AllInRange (d ∷ ds) = InRange d × AllInRange ds

-- No drive uses one PDO for two purposes.
abbrev pub AllDistinct : {W : Type 0} → List (NodeOpts W) → Type 0
AllDistinct [] = Unit
AllDistinct (d ∷ ds) = (d.user_pdo ≢ d.ctrl_pdo) × AllDistinct ds

module _ {W : Type 0} where
  append-AllInRange :
      (ds : List (NodeOpts W)) (d : NodeOpts W)
      → AllInRange ds
      → InRange d
      → AllInRange (ds ++ (d ∷ []))
  append-AllInRange [] d h k = (k, tt)
  append-AllInRange (x ∷ ds) d h k = (h.0, append-AllInRange ds d h.1 k)

  on_last-AllInRange :
      (g : NodeOpts W → NodeOpts W)
      → ((d : NodeOpts W) → InRange d → InRange (g d))
      → (ds : List (NodeOpts W)) → AllInRange ds
      → AllInRange (on_last g ds) × (length (on_last g ds) ≡ length ds)
  on_last-AllInRange g k [] h = (h, refl)
  on_last-AllInRange g k (d ∷ []) h = ((k d h.0, tt), refl)
  on_last-AllInRange g k (d ∷ e ∷ ds) h =
      let (all, len) = on_last-AllInRange g k (e ∷ ds) h.1 in ((h.0, all), ap suc len)

  distinct_pdos-AllDistinct : (ds : List (NodeOpts W)) → distinct_pdos ds ≡ true → AllDistinct ds
  unfolding distinct_pdos
  distinct_pdos-AllDistinct [] h = tt
  distinct_pdos-AllDistinct (d ∷ ds) h = elim (Bool-cases (d.user_pdo == d.ctrl_pdo)) [
    | inl e ↦ absurd (cc (rw (e, distinct_pdos) at h))
    | inr e ↦
        (λ same. ground (arith, e, same), distinct_pdos-AllDistinct ds (rw (e, distinct_pdos) at h))
  ]

-- The drives and the two PDO options, in range.
pub record AreSound {W : Type 0} (nodes : List (NodeOpts W)) (ctrl user : ℕ) : Type 0 where
  pub all_in : AllInRange nodes
  pub count_in : length nodes ≤ 126
  pub ctrl_in : ctrl ≤ 255
  pub user_in : user ≤ 255

module _ {W Cif : Type 0} where
  -- What each option keeps.
  abbrev pub IsSound : DaemonOpts W Cif → Type 0
  IsSound o = AreSound o.nodes o.opt_rpdo_ctrl o.opt_rpdo_user

  moved : (o p : DaemonOpts W Cif) → returned o ≡ returned p → IsSound o → IsSound p
  moved o p e = subst (λ (x : DaemonOpts W Cif). IsSound x) (returned_inj e)

module _ {W Cif : Type 0} (f : Double W) (pi : W) (atof : List ℕ → W)
    (strtoul : List ℕ → ℕ → ℕ × Bool) (new : List ℕ → Option Cif)
    (open_cif : Cif → List ℕ → Status × Cif) where
  parse_option-IsSound :
      (p : DaemonOpt) (o q : DaemonOpts W Cif)
      → parse_option f pi atof strtoul new open_cif p o ≡ returned q
      → IsSound o
      → IsSound q
  unfolding parse_option
  parse_option-IsSound show_version o q e v = absurd (cc)
  parse_option-IsSound show_help o q e v = absurd (cc)
  parse_option-IsSound (invalid arg) o q e v = absurd (cc)
  parse_option-IsSound sns_option o q e v = moved o q e v
  parse_option-IsSound (set_api arg) o q e v = moved _ q e v
  parse_option-IsSound (set_chan_ref arg) o q e v = moved _ q e v
  parse_option-IsSound (set_chan_state arg) o q e v = moved _ q e v
  parse_option-IsSound (set_chan_event arg) o q e v = moved _ q e v
  parse_option-IsSound (set_cif arg) o q e v =
      let (c, _, rest) = >>=-eq-returned (open_iface new open_cif o.api_type arg) _ e in
      moved _ q rest v
  parse_option-IsSound (add_node arg) o q e v =
      let (room, e1) = sns_require-eq-returned (ltb (length o.nodes) 126) _ q e in
      let (u, got, rest) = >>=-eq-returned (parse_u strtoul arg 16 max_node) _ e1 in
      let low = parse_u_bound strtoul arg 16 max_node u got in
      let d = new_node f pi atof strtoul new open_cif u o in
      let d_in : InRange d = (omega arith, v.ctrl_in, v.user_in) in
      let count : length (o.nodes ++ (d ∷ [])) ≤ 126 =
        omega (arith, length-append o.nodes (d ∷ []), less_of room) in
      moved _ q rest (record {
        all_in = append-AllInRange o.nodes d v.all_in d_in;
        count_in = count;
        ctrl_in = v.ctrl_in;
        user_in = v.user_in;
      })
  parse_option-IsSound (set_offset arg) o q e v =
      let (_, rest) = sns_require-eq-returned (ltb 0 (length o.nodes)) _ q e in
      let (all, len) =
        on_last-AllInRange
          (λ (d : NodeOpts W). record d {
            pos_offset = offset_of f pi atof strtoul new open_cif arg;
          })
          (λ d h. h) o.nodes v.all_in in
      moved _ q rest (record {
        all_in = all;
        count_in = omega (arith, len, v.count_in);
        ctrl_in = v.ctrl_in;
        user_in = v.user_in;
      })
  parse_option-IsSound (set_rpdo_ctrl arg) o q e v =
      let (u, got, rest) = >>=-eq-returned (parse_u strtoul arg 0 255) _ e in
      let (all, len) =
        on_last-AllInRange (λ (d : NodeOpts W). record d { ctrl_pdo = u % 2 ^ 8 })
          (λ d h. (h.0, omega arith, h.2)) o.nodes v.all_in in
      moved _ q rest (record {
        all_in = all;
        count_in = omega (arith, len, v.count_in);
        ctrl_in = omega arith;
        user_in = v.user_in;
      })
  parse_option-IsSound (set_rpdo_user arg) o q e v =
      let (u, got, rest) = >>=-eq-returned (parse_u strtoul arg 0 255) _ e in
      let (all, len) =
        on_last-AllInRange (λ (d : NodeOpts W). record d { user_pdo = u % 2 ^ 8 })
          (λ d h. (h.0, h.1, omega arith)) o.nodes v.all_in in
      moved _ q rest (record {
        all_in = all;
        count_in = omega (arith, len, v.count_in);
        ctrl_in = v.ctrl_in;
        user_in = omega arith;
      })

  parse_options-IsSound :
      (ps : List DaemonOpt) (o q : DaemonOpts W Cif)
      → parse_options f pi atof strtoul new open_cif ps o ≡ returned q
      → IsSound o
      → IsSound q
  unfolding parse_options
  parse_options-IsSound [] o q e v = moved o q e v
  parse_options-IsSound (p ∷ ps) o q e v =
      let (o1, first, rest) =
        >>=-eq-returned (parse_option f pi atof strtoul new open_cif p o) _ e in
      parse_options-IsSound ps o1 q rest (parse_option-IsSound p o o1 first v)

  -- When the daemon's options are accepted, an interface was opened, there are between one and 126
  -- drives, each has a node number of at most 127 and PDO numbers of at most 255, and none uses one
  -- PDO both for the control word and for the reference. Nothing is required of the order of the
  -- options.
  pub parse-checked :
      (opts : List DaemonOpt) (extra : List (List ℕ)) (q : DaemonOpts W Cif)
      → parse f pi atof strtoul new open_cif opts extra ≡ returned q
      → (is_given q.cif ≡ true)
        × (0 < length q.nodes)
        × (length q.nodes ≤ 126)
        × AllInRange q.nodes
        × AllDistinct q.nodes
  unfolding parse
  parse-checked opts extra q e =
      let (o, got, e1) =
        >>=-eq-returned (parse_options f pi atof strtoul new open_cif opts daemon_defaults) _ e in
      let (_, e2) = sns_require-eq-returned (length extra == 0) _ q e1 in
      let (given, e3) = sns_require-eq-returned (is_given o.cif) _ q e2 in
      let (some_node, e4) = sns_require-eq-returned (ltb 0 (length o.nodes)) _ q e3 in
      let (distinct, e5) = sns_require-eq-returned (distinct_pdos o.nodes) _ q e4 in
      let at_start : IsSound (daemon_defaults {W = W} {Cif = Cif}) = record {
        all_in = tt;
        count_in = omega arith;
        ctrl_in = omega arith;
        user_in = omega arith;
      } in
      let v = parse_options-IsSound opts daemon_defaults o got at_start in
      subst
        (λ (x : DaemonOpts W Cif).
          (is_given x.cif ≡ true)
          × (0 < length x.nodes)
          × (length x.nodes ≤ 126)
          × AllInRange x.nodes
          × AllDistinct x.nodes)
        (returned_inj e5)
        (given, less_of some_node, v.count_in, v.all_in, distinct_pdos-AllDistinct o.nodes distinct)
