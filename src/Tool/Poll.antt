-- ===== src/Tool/Poll.antt =====
-- The commands of the tool (src/canmat.c) that print what arrives: dump and display.
use socanmatic.Base.{ℕ, zero, suc, ◌||◌, not, List, [], ◌∷◌, if◌then◌else◌}
use socanmatic.Base.Int.{exceeds}
use socanmatic.Bus.{is_ok}
use socanmatic.Can.{CanFrame}
use socanmatic.Dict.Search.{BinarySearch, search_index}
use socanmatic.Display.{display}
use socanmatic.Out.{Output, num, name, dump_frame}
use socanmatic.Run.{Run, assert_failed, waiting, returned, ◌>>=◌}
use socanmatic.Tool.{Host, Settings, World, Revents, put, put_all, hard_assert}

module _ (h : Host) (cfg : Settings) where
  open h use {State, recv, poll, clock, stack_frame, stack_msg}

  unfoldable pub timestamp : World State → World State
  timestamp w =
      if not cfg.timestamp
      then w
      else let (sec, nsec, s) = clock w.after in
        put "%u.%09lu: " (num sec ∷ num nsec ∷ []) (record w { after = s })

  -- `pollin1`, for the interface at position `i`; a printer is given what its own locals hold.
  unfoldable pub pollin1 :
      (State → CanFrame → Run Output) → List ℕ → ℕ → World State → Run (World State)
  unfolding timestamp
  pollin1 printer iface i w =
      let (r, can, s) = recv i w.after (stack_frame w.after) in
      hard_assert (is_ok r) (
        let t = timestamp (record w { after = s }) in
        printer t.after can >>= (λ out. returned (put_all out (put "%s: " (name iface ∷ []) t))))

  -- `while(1)` on one interface, for `rounds` rounds
  unfoldable pub poll_one :
      ℕ → (State → CanFrame → Run Output) → List ℕ → World State → Run (World State)
  poll_one zero printer iface w = waiting
  poll_one (suc rounds) printer iface w =
      pollin1 printer iface 0 w >>= poll_one rounds printer iface

  -- The loop over the polled interfaces, from position `i`
  unfoldable pub poll_ready :
      (State → CanFrame → Run Output)
      → (ℕ → Revents)
      → List (List ℕ)
      → ℕ
      → World State
      → Run (World State)
  unfolding pollin1
  poll_ready printer events [] i w = returned w
  poll_ready printer events (n ∷ names) i w =
      let ev : Revents = events i in
      hard_assert (not (ev.pollerr || ev.pollhup || ev.pollnval)) (
        (if ev.pollin then pollin1 printer n i w else returned w)
        >>= poll_ready printer events names (suc i))

  -- `while(1)` on several interfaces, for `rounds` rounds
  unfoldable pub poll_all : ℕ → (State → CanFrame → Run Output) → World State → Run (World State)
  unfolding poll_ready
  poll_all zero printer w = waiting
  poll_all (suc rounds) printer w =
      let (rp, events, s) = poll w.after in
      hard_assert (exceeds rp 0)
        (poll_ready printer events cfg.names 0 (record w { after = s }) >>= poll_all rounds printer)

  unfoldable pub cmd_pollin : ℕ → (State → CanFrame → Run Output) → World State → Run (World State)
  unfolding poll_one poll_all
  cmd_pollin rounds printer w = elim cfg.names [
    | [] ↦ poll_all rounds printer w
    | n ∷ more ↦ elim more [ [] ↦ poll_one rounds printer n w | _ ∷ _ ↦ poll_all rounds printer w ]
  ]

  -- `pollin_raw` and `pollin_display`
  abbrev pub pollin_raw : State → CanFrame → Run Output
  pollin_raw s can = dump_frame can

  abbrev pub pollin_display : BinarySearch → State → CanFrame → Run Output
  pollin_display bs s can = display (search_index bs cfg.dict402) (stack_msg s) can

  unfoldable pub cmd_dump : ℕ → List (List ℕ) → World State → Run (World State)
  unfolding cmd_pollin
  cmd_dump rounds [] w = cmd_pollin rounds pollin_raw w
  cmd_dump rounds (arg ∷ args) w = assert_failed

  unfoldable pub cmd_display : BinarySearch → ℕ → List (List ℕ) → World State → Run (World State)
  unfolding cmd_pollin
  cmd_display bs rounds [] w = cmd_pollin rounds (pollin_display bs) w
  cmd_display bs rounds (arg ∷ args) w = assert_failed
