-- ===== src/Tool/Reads.antt =====
-- The commands of the tool (src/canmat.c) that only read.
use mathlib.Core.Path.{subst}
use socanmatic.Base.{
  ℕ, ◌%◌, ◌^◌, ◌<◌, ◌≡◌, inl, inr, Bool, true, false, List, [], ◌∷◌, length, Option, none, some,
  arith, Bool-cases, ltb, ◌==◌,
}
use socanmatic.Bus.{Bus, is_ok}
use socanmatic.Can.{Status}
use socanmatic.Dict.{Obj}
use socanmatic.Dict.Print.{obj_print}
use socanmatic.Dict.Search.{BinarySearch, search_index}
use socanmatic.Dict.Transfer.{Fetched, obj_request, obj_ul, take_fetched, object_type_var}
use socanmatic.Probe.{probe_pdo}
use socanmatic.Probe.Reads.{probe_pdo-Keeps}
use socanmatic.Run.{returned, >>=-eq-returned, returned_inj}
use socanmatic.Scalar.{Scalar}
use socanmatic.Sdo.Msg.{SdoMsg}
use socanmatic.Sdo.Query.{sdo_ul}
use socanmatic.Sdo.Query.Reads.{KeptByReads, sdo_ul_keeps}
use socanmatic.Sdo.Typed.{is_abort}
use socanmatic.Tool.{Host, Settings, World, bus_at, parse_uhex}
use socanmatic.Tool.Main.{Command, dict_ul, probe, opt_command}
use socanmatic.Tool.Objects.{
  cmd_dict_ul, cmd_probe, probe_args, probe_node, show_value, find_object,
}
use socanmatic.Tool.Send.{max_node}
use socanmatic.Tool.Valid.{hard_assert-eq-returned, verbf_after}

module _ (bus : Bus) (P : bus.State → Type 0) where
  open bus use {State}

  take_fetched_after :
      (fuel : ℕ) (val : Scalar) (err : Option ℕ) (x : Status × SdoMsg × State) (o : Fetched State)
      → take_fetched bus fuel val err x ≡ returned o
      → P x.2
      → P o.after
  unfolding take_fetched
  take_fetched_after fuel val err x o e p = elim (Bool-cases (ltb 4 x.1.length)) [
    | inl a ↦ absurd (cc (rw (a, take_fetched) at e))
    | inr a ↦ elim (Bool-cases (is_ok x.0)) [
      | inl b ↦
          subst (λ (f : Fetched State). P f.after) (returned_inj (rw (a, b, take_fetched) at e)) p
      | inr b ↦ elim (Bool-cases (is_abort x.0)) [
        | inl c ↦ elim (Bool-cases (x.1.length == 4)) [
          | inl d ↦
              subst (λ (f : Fetched State). P f.after)
                (returned_inj (rw (a, b, c, d, take_fetched) at e)) p
          | inr d ↦
              subst (λ (f : Fetched State). P f.after)
                (returned_inj (rw (a, b, c, d, take_fetched) at e)) p
        ]
        | inr c ↦
            subst (λ (f : Fetched State). P f.after)
              (returned_inj (rw (a, b, c, take_fetched) at e)) p
      ]
    ]
  ]

  obj_ul_keeps :
      (fuel : ℕ) (s : State) (node : ℕ) (obj : Obj) (val : Scalar) (err : Option ℕ)
      (o : Fetched State)
      → KeptByReads bus node P
      → P s
      → obj_ul bus fuel s node (some obj) val err ≡ returned o
      → P o.after
  unfolding obj_ul
  obj_ul_keeps fuel s node obj val err o k p e =
      elim (Bool-cases (obj.object_type == object_type_var)) [
        | inl a ↦
            let (x, got, rest) =
              >>=-eq-returned (sdo_ul bus fuel s (obj_request node obj) (bus.stack_msg s)) _
                (rw (a, obj_ul) at e) in
            take_fetched_after fuel val err x o rest
              (sdo_ul_keeps bus P fuel s (obj_request node obj) (bus.stack_msg s) x k p got)
        | inr a ↦ subst (λ (f : Fetched State). P f.after) (returned_inj (rw (a, obj_ul) at e)) p
      ]

module _ (h : Host) (cfg : Settings) (bs : BinarySearch) (fuel : ℕ) where
  open h use {State, strtoul, same_word}

  module _ (P : State → Type 0) (k : (node : ℕ) → node < 256 → KeptByReads (bus_at h 0) node P)
      (w o : World State) (p : P w.after) where
    show_value_keeps :
        (obj : Obj) (f : Fetched State)
        → P f.after
        → show_value h cfg bs fuel obj w f ≡ returned o
        → P o.after
    unfolding show_value
    show_value_keeps obj f q e = elim (Bool-cases (is_ok f.status)) [
      | inl a ↦
          let (x, got, rest) =
            >>=-eq-returned (obj_print obj.data_type (cfg.descriptors obj) f.val) _
              (rw (a, show_value) at e) in
          subst (λ (x : World State). P x.after) (returned_inj rest)
            (rw (verbf_after cfg.verbosity 1 "dl status: %s\n" _ (record w { after = f.after })) q)
      | inr a ↦ absurd (cc (rw (a, show_value) at e))
    ]

    cmd_dict_ul_keeps :
        (args : List (List ℕ)) → cmd_dict_ul h cfg bs fuel args w ≡ returned o → P o.after
    unfolding cmd_dict_ul
    cmd_dict_ul_keeps [] e = absurd (cc)
    cmd_dict_ul_keeps (a ∷ []) e = absurd (cc)
    cmd_dict_ul_keeps (a ∷ b ∷ c ∷ args) e = absurd (cc)
    cmd_dict_ul_keeps (a ∷ b ∷ []) e =
        let (node, _, e1) = >>=-eq-returned (parse_uhex strtoul a max_node) _ e in
        let (obj, _, e2) = >>=-eq-returned (find_object h cfg bs fuel b) _ e1 in
        let (_, e3) = hard_assert-eq-returned (1 == length cfg.names) _ o e2 in
        let (f, got, e4) =
          >>=-eq-returned
            (obj_ul (bus_at h 0) fuel w.after (node % 2 ^ 8) (some obj) (h.stack_scalar w.after)
              none)
            _ e3 in
        show_value_keeps obj f
          (obj_ul_keeps (bus_at h 0) P fuel w.after (node % 2 ^ 8) obj (h.stack_scalar w.after) none
            f (k (node % 2 ^ 8) (omega arith)) p got)
          e4

    probe_node_keeps : (arg : List ℕ) → probe_node h cfg bs fuel arg w ≡ returned o → P o.after
    unfolding probe_node
    probe_node_keeps arg e =
        let (node, _, e1) = >>=-eq-returned (parse_uhex strtoul arg max_node) _ e in
        let (_, e2) = hard_assert-eq-returned (1 == length cfg.names) _ o e1 in
        let (x, got, e3) =
          >>=-eq-returned
            (probe_pdo (bus_at h 0) fuel (search_index bs cfg.dict402) (node % 2 ^ 8) w.after) _
            e2 in
        let (_, e4) = hard_assert-eq-returned (is_ok x.0) _ o e3 in
        let read : P x.1.after =
          probe_pdo-Keeps (bus_at h 0) fuel (search_index bs cfg.dict402) (node % 2 ^ 8) P
            (k (node % 2 ^ 8) (omega arith)) w.after x p got in
        subst (λ (x : World State). P x.after) (returned_inj e4)
          (rw
            (verbf_after cfg.verbosity 1 "Probing PDOs on node 0x%x\n" _
              (record w { after = x.1.after }))
            read)

    probe_args_keeps :
        (args : List (List ℕ)) → probe_args h cfg bs fuel args w ≡ returned o → P o.after
    unfolding probe_args
    probe_args_keeps [] e = absurd (cc)
    probe_args_keeps (a ∷ []) e = probe_node_keeps a e
    probe_args_keeps (a ∷ b ∷ args) e = absurd (cc)

    cmd_probe_keeps :
        (args : List (List ℕ)) → cmd_probe h cfg bs fuel args w ≡ returned o → P o.after
    unfolding cmd_probe
    cmd_probe_keeps [] e = absurd (cc)
    cmd_probe_keeps (what ∷ args) e = elim (Bool-cases (same_word "pdo" what)) [
      | inl a ↦ probe_args_keeps args (rw (a, cmd_probe) at e)
      | inr a ↦ absurd (cc (rw (a, cmd_probe) at e))
    ]

-- The commands that read from a node and end.
abbrev pub reads_only : Command → Bool
reads_only dict_ul = true
reads_only probe = true
reads_only _ = false

module _ (h : Host) (cfg : Settings) (bs : BinarySearch) (fuel : ℕ) where
  open h use {State}

  -- The commands dict-ul and probe do not write to a node: a property of the first interface that
  -- receiving keeps, and sending an SDO upload request to a node, still holds when such a command
  -- returns, whatever its arguments and the nodes' answers.
  pub opt_command-Keeps :
      (P : State → Type 0)
      → ((node : ℕ) → node < 256 → KeptByReads (bus_at h 0) node P)
      → (c : Command) (args : List (List ℕ)) (w o : World State) → reads_only c ≡ true
      → P w.after
      → opt_command h bs fuel cfg c args w ≡ returned o
      → P o.after
  unfolding opt_command
  opt_command-Keeps P k dict_ul args w o r p e = cmd_dict_ul_keeps h cfg bs fuel P k w o p args e
  opt_command-Keeps P k probe args w o r p e = cmd_probe_keeps h cfg bs fuel P k w o p args e
  opt_command-Keeps P k _ args w o r p e = absurd (cc)
