-- ===== src/Ds402/Start/Reaches.antt =====
-- `canmat_402_start` (src/ds402.c) enables a drive that follows CiA 402.
use socanmatic.Base.{ℕ, zero, suc, ◌<◌, ◌≡◌, ◌≢◌, refl, sym, ap, ◌∙◌, some, arith}
use socanmatic.Can.{ok}
use socanmatic.Run.{Run, returned}
use socanmatic.Scalar.Member.{u16}
use socanmatic.Client.{Client}
use socanmatic.Nmt.{send_nmt}
use socanmatic.Ds402.Words.{
  Masks, shutdown_cmd, switch_on_cmd, disable_voltage_cmd, enable_op_cmd, reset_fault_cmd,
}
use socanmatic.Ds402.State.{
  StateVal, off_nrdy, off_sw_on_disable, off_rdy, on_op_dis, on_op_en, on_quick_stop,
  fault_reaction_active, fault, unknown, state,
}
use socanmatic.Ds402.Start.{
  statusword_index, Drive, Outcome, code_of, then_do, store_ctrl, dl_ctrlmask, ul_statusword,
  start_nmt, recover, act, start_loop, start,
}
use socanmatic.Ds402.Start.Compliant.{Compliant, react, wake}
use socanmatic.Ds402.Start.Compliant.Commands.{
  sent, react-shutdown, react-shutdown_fault, react-switch_on, react-enable_op,
  react-disable_voltage, react-reset,
}

-- The rounds that a state is away from "operation enabled".
abbrev pub distance : StateVal → ℕ
distance on_op_en = 0
distance on_op_dis = 1
distance off_rdy = 2
distance off_sw_on_disable = 3
distance _ = 4

distance_bound : (v : StateVal) → distance v < 100
distance_bound v = ground arith

module _ (c : Client) (node : ℕ) (mode : c.State → StateVal) (last : c.State → ℕ)
    (compliant : Compliant c node mode last) where
  open c use {State}

  -- A step returns OK and keeps the node number. It leaves the drive in state `v` with the last
  -- control word `w`, and `ctrl` in `drive->ctrl_word`.
  record Steps (m : Run (Outcome State)) (v : StateVal) (w ctrl : ℕ) : Type 0 where
    outcome : Outcome State
    returns : m ≡ returned outcome
    status_ok : outcome.status ≡ ok
    same_node : outcome.drive.node_id ≡ node
    state_is : mode outcome.after ≡ v
    word_is : last outcome.after ≡ w
    ctrl_is : outcome.drive.ctrl_word ≡ ctrl

  dl_ctrlmask-Steps :
      (m : Masks) (drive : Drive) (s : State)
      → drive.node_id ≡ node
      → Steps
          (dl_ctrlmask c m drive s)
          (react (mode s) (last s) (sent m drive.ctrl_word))
          (sent m drive.ctrl_word)
          (sent m drive.ctrl_word)
  unfolding dl_ctrlmask store_ctrl
  dl_ctrlmask-Steps m drive s e =
      let (d, q, r, t, w) =
        compliant.writes s (sent m drive.ctrl_word) drive.abort_code (omega arith) in
      record {
        outcome = record {
          status = d.status;
          drive = record drive {
            abort_code = code_of c drive.abort_code d.err;
            ctrl_word = sent m drive.ctrl_word;
          };
          after = d.after;
        };
        returns = rw (e, q, r) refl;
        status_ok = r;
        same_node = e;
        state_is = t;
        word_is = w;
        ctrl_is = refl;
      }

  start_nmt-Steps :
      (drive : Drive) (s : State)
      → drive.node_id ≡ node
      → Steps (start_nmt c drive s) (wake (mode s)) (last s) drive.ctrl_word
  unfolding start_nmt send_nmt
  start_nmt-Steps drive s e =
      let (t, q, v, w) = compliant.starts s in
      record {
        outcome = record { status = ok; drive = drive; after = t };
        returns = rw (e, q) refl;
        status_ok = refl;
        same_node = e;
        state_is = v;
        word_is = w;
        ctrl_is = refl;
      }

  -- A step that is followed by another.
  then_do-eq :
      {v : StateVal} {w ctrl : ℕ} (m : Run (Outcome State)) (st : Steps m v w ctrl)
      (k : Drive → State → Run (Outcome State))
      → then_do c m k ≡ k st.outcome.drive st.outcome.after
  then_do-eq m st k = rw (st.returns, st.status_ok) refl

  -- The commands after a fault lead out of it.
  recover-Steps :
      (drive : Drive) (s : State)
      → drive.node_id ≡ node
      → react (mode s) (last s) (sent shutdown_cmd drive.ctrl_word) ≡ fault
      → let w = sent reset_fault_cmd (sent shutdown_cmd drive.ctrl_word) in
        Steps (recover c drive s) off_sw_on_disable w w
  unfolding recover
  recover-Steps drive s e f =
      let st1 = dl_ctrlmask-Steps shutdown_cmd drive s e in
      let d1 = st1.outcome.drive in
      let s1 = st1.outcome.after in
      let st2 = start_nmt-Steps d1 s1 st1.same_node in
      let d2 = st2.outcome.drive in
      let s2 = st2.outcome.after in
      let st3 = dl_ctrlmask-Steps reset_fault_cmd d2 s2 st2.same_node in
      let ctrl : d2.ctrl_word ≡ sent shutdown_cmd drive.ctrl_word = st2.ctrl_is ∙ st1.ctrl_is in
      let still : mode s2 ≡ fault = st2.state_is ∙ ap wake (st1.state_is ∙ f) in
      record {
        outcome = st3.outcome;
        returns =
            then_do-eq (dl_ctrlmask c shutdown_cmd drive s) st1 _
            ∙ (then_do-eq (start_nmt c d1 s1) st2 _ ∙ st3.returns);
        status_ok = st3.status_ok;
        same_node = st3.same_node;
        state_is =
            st3.state_is ∙ rw (still, st2.word_is, st1.word_is, ctrl) (react-reset drive.ctrl_word);
        word_is = st3.word_is ∙ ap (sent reset_fault_cmd) ctrl;
        ctrl_is = st3.ctrl_is ∙ ap (sent reset_fault_cmd) ctrl;
      }

  -- `OK`, with a status word and a drive in the state "operation enabled".
  abbrev pub Reaches : Run (Outcome State) → Type 0
  Reaches m =
      (o : Outcome State) × (m ≡ returned o)
      × (o.status ≡ ok)
      × (state o.drive.stat_word ≡ on_op_en)
      × (mode o.after ≡ on_op_en)

  -- The rest of the loop reaches it from every state that is nearer than `v`.
  abbrev FromNearer : (Drive → State → Run (Outcome State)) → StateVal → Type 0
  FromNearer k v =
      (d : Drive) (t : State)
      → d.node_id ≡ node
      → mode t ≢ unknown
      → distance (mode t) < distance v
      → Reaches (k d t)

  step-Reaches :
      {w ctrl : ℕ} (v next : StateVal) {led : StateVal} (m : Run (Outcome State))
      (k : Drive → State → Run (Outcome State))
      → Steps m led w ctrl
      → led ≡ next
      → next ≢ unknown
      → distance next < distance v
      → FromNearer k v
      → Reaches (then_do c m k)
  step-Reaches v next m k st e known near h =
      let at : mode st.outcome.after ≡ next = st.state_is ∙ e in
      rw (then_do-eq m st k)
        (h st.outcome.drive st.outcome.after st.same_node (rw (at) known) (rw (at) near))

  act-Reaches :
      (v : StateVal) (drive : Drive) (s : State) (k : Drive → State → Run (Outcome State))
      → v ≢ unknown
      → mode s ≡ v
      → state drive.stat_word ≡ v
      → drive.node_id ≡ node
      → FromNearer k v
      → Reaches (act c v drive s k)
  unfolding act
  act-Reaches off_nrdy drive s k known at word e h =
      step-Reaches off_nrdy off_sw_on_disable (start_nmt c drive s) k (start_nmt-Steps drive s e)
        (ap wake at) (λ q. absurd (cc)) (omega arith) h
  act-Reaches off_sw_on_disable drive s k known at word e h =
      step-Reaches off_sw_on_disable off_rdy (dl_ctrlmask c shutdown_cmd drive s) k
        (dl_ctrlmask-Steps shutdown_cmd drive s e)
        (rw (at) (react-shutdown drive.ctrl_word (last s))) (λ q. absurd (cc)) (omega arith) h
  act-Reaches off_rdy drive s k known at word e h =
      step-Reaches off_rdy on_op_dis (dl_ctrlmask c switch_on_cmd drive s) k
        (dl_ctrlmask-Steps switch_on_cmd drive s e)
        (rw (at) (react-switch_on drive.ctrl_word (last s))) (λ q. absurd (cc)) (omega arith) h
  act-Reaches on_op_dis drive s k known at word e h =
      step-Reaches on_op_dis on_op_en (dl_ctrlmask c enable_op_cmd drive s) k
        (dl_ctrlmask-Steps enable_op_cmd drive s e)
        (rw (at) (react-enable_op drive.ctrl_word (last s))) (λ q. absurd (cc)) (omega arith) h
  act-Reaches on_op_en drive s k known at word e h =
      (record { status = ok; drive = drive; after = s }, refl, refl, word, at)
  act-Reaches on_quick_stop drive s k known at word e h =
      step-Reaches on_quick_stop off_sw_on_disable (dl_ctrlmask c disable_voltage_cmd drive s) k
        (dl_ctrlmask-Steps disable_voltage_cmd drive s e)
        (rw (at) (react-disable_voltage drive.ctrl_word (last s))) (λ q. absurd (cc)) (omega arith)
        h
  act-Reaches fault_reaction_active drive s k known at word e h =
      step-Reaches fault_reaction_active off_sw_on_disable (recover c drive s) k
        (recover-Steps drive s e (rw (at) refl)) refl (λ q. absurd (cc)) (omega arith) h
  act-Reaches fault drive s k known at word e h =
      step-Reaches fault off_sw_on_disable (recover c drive s) k
        (recover-Steps drive s e (rw (at) (react-shutdown_fault drive.ctrl_word (last s)))) refl
        (λ q. absurd (cc)) (omega arith) h
  act-Reaches unknown drive s k known at word e h = absurd (known refl)

  -- As many rounds as the distance, and one, are enough.
  pub start_loop-Reaches :
      (rounds : ℕ) (drive : Drive) (s : State)
      → drive.node_id ≡ node
      → mode s ≢ unknown
      → distance (mode s) < rounds
      → Reaches (start_loop c rounds drive s)
  unfolding start_loop ul_statusword
  start_loop-Reaches zero drive s e known h = absurd (omega arith)
  start_loop-Reaches (suc rounds) drive s e known h =
      let (u, q, r, v, at, w) = compliant.reads s drive.stat_word drive.abort_code in
      let read : Drive = record drive {
        stat_word = u.val;
        abort_code = code_of c drive.abort_code u.err;
      } in
      let far : distance (state u.val) < suc rounds = rw (v) h in
      let here : c.upload u16 s drive.node_id statusword_index 0 drive.stat_word
            (some drive.abort_code)
          ≡ returned u =
        rw (e) q in
      rw (here, r)
        (act-Reaches (state u.val) read u.after (start_loop c rounds) (rw (v) known) (at ∙ sym v)
          refl e (λ d t e' known' near. start_loop-Reaches rounds d t e' known' (omega arith)))

  -- A drive at the node that follows CiA 402, and to which no transfer fails, in any of its eight states and whatever the control
  -- word that the library believes it to have, is brought to "operation enabled" within the 100
  -- rounds of `canmat_402_start`, which returns OK with the status word that says so.
  pub start-Reaches :
      (drive : Drive) (s : State)
      → drive.node_id ≡ node
      → mode s ≢ unknown
      → Reaches (start c drive s)
  unfolding start
  start-Reaches drive s e known = start_loop-Reaches 100 drive s e known (distance_bound (mode s))
