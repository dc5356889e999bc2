-- ===== src/Tool/Polls.antt =====
-- The commands of the tool (src/canmat.c) that print what arrives do not return.
use socanmatic.Base.{ℕ, zero, suc, ◌≡◌, refl, Bool, true, false, List, [], ◌∷◌}
use socanmatic.Base.Int.{exceeds}
use socanmatic.Can.{CanFrame}
use socanmatic.Dict.Search.{BinarySearch}
use socanmatic.Out.{Output}
use socanmatic.Run.{
  Run, assert_failed, waiting, fault, exited, returned, >>=-eq-returned, is_returned,
}
use socanmatic.Tool.{Host, Settings, World}
use socanmatic.Tool.Main.{Command, dump, display_frames, opt_command}
use socanmatic.Tool.Poll.{cmd_dump, cmd_display, cmd_pollin, pollin1, poll_one, poll_all}
use socanmatic.Tool.Valid.{hard_assert-eq-returned}

module _ (h : Host) (cfg : Settings) (bs : BinarySearch) (fuel : ℕ) where
  open h use {State}

  -- The loops of `cmd_pollin` do not end by returning.
  poll_one_runs :
      (rounds : ℕ) (printer : State → CanFrame → Run Output) (n : List ℕ) (w o : World State)
      → poll_one h cfg rounds printer n w ≡ returned o
      → ⊥
  unfolding poll_one
  poll_one_runs zero printer n w o e = absurd (cc)
  poll_one_runs (suc rounds) printer n w o e =
      let (v, _, rest) =
        >>=-eq-returned (pollin1 h cfg printer n 0 w) (poll_one h cfg rounds printer n) e in
      poll_one_runs rounds printer n v o rest

  poll_all_runs :
      (rounds : ℕ) (printer : State → CanFrame → Run Output) (w o : World State)
      → poll_all h cfg rounds printer w ≡ returned o
      → ⊥
  unfolding poll_all
  poll_all_runs zero printer w o e = absurd (cc)
  poll_all_runs (suc rounds) printer w o e =
      let (_, e1) = hard_assert-eq-returned (exceeds (h.poll w.after).0 0) _ o e in
      let (v, _, rest) = >>=-eq-returned _ (poll_all h cfg rounds printer) e1 in
      poll_all_runs rounds printer v o rest

  cmd_pollin_runs :
      (names : List (List ℕ)) (rounds : ℕ) (printer : State → CanFrame → Run Output)
      (w o : World State)
      → cfg.names ≡ names
      → cmd_pollin h cfg rounds printer w ≡ returned o
      → ⊥
  unfolding cmd_pollin
  cmd_pollin_runs [] rounds printer w o n e =
      poll_all_runs rounds printer w o (rw (n, cmd_pollin) at e)
  cmd_pollin_runs (x ∷ []) rounds printer w o n e =
      poll_one_runs rounds printer x w o (rw (n, cmd_pollin) at e)
  cmd_pollin_runs (x ∷ y ∷ names) rounds printer w o n e =
      poll_all_runs rounds printer w o (rw (n, cmd_pollin) at e)

  cmd_dump_runs :
      (args : List (List ℕ)) (w o : World State) → cmd_dump h cfg fuel args w ≡ returned o → ⊥
  unfolding cmd_dump
  cmd_dump_runs [] w o e = cmd_pollin_runs cfg.names fuel _ w o refl e
  cmd_dump_runs (a ∷ args) w o e = absurd (cc)

  cmd_display_runs :
      (args : List (List ℕ)) (w o : World State) → cmd_display h cfg bs fuel args w ≡ returned o → ⊥
  unfolding cmd_display
  cmd_display_runs [] w o e = cmd_pollin_runs cfg.names fuel _ w o refl e
  cmd_display_runs (a ∷ args) w o e = absurd (cc)

-- The commands that print what arrives.
abbrev pub polls : Command → Bool
polls dump = true
polls display_frames = true
polls _ = false

not_returned : {A : Type 0} (m : Run A) → ((a : A) → m ≡ returned a → ⊥) → is_returned m ≡ false
not_returned assert_failed k = refl
not_returned waiting k = refl
not_returned fault k = refl
not_returned exited k = refl
not_returned (returned a) k = absurd (k a refl)

module _ (h : Host) (cfg : Settings) (bs : BinarySearch) (fuel : ℕ) where
  -- The commands dump and display end by a failure only: for no number of rounds do they return.
  pub opt_command-polls :
      (c : Command) (args : List (List ℕ)) (w : World h.State)
      → polls c ≡ true
      → is_returned (opt_command h bs fuel cfg c args w) ≡ false
  unfolding opt_command
  opt_command-polls dump args w r = not_returned _ (cmd_dump_runs h cfg bs fuel args w)
  opt_command-polls display_frames args w r = not_returned _ (cmd_display_runs h cfg bs fuel args w)
  opt_command-polls _ args w r = absurd (cc)
