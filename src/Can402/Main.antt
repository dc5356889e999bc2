-- ===== src/Can402/Main.antt =====
-- The main loop of the drive daemon (`get_msg` and `run` of src/can402.c), over the functions of
-- the Ach and Sns libraries that it calls.
use socanmatic.Base.{ℕ, zero, suc, Bool, true, ◌&&◌, Option, none, some, ◌==◌, if◌then◌else◌}
use socanmatic.Bus.{Bus}
use socanmatic.Run.{Run, waiting, exited, returned, ◌>>=◌}
use socanmatic.Can402.{Double, MotorRef, MotorState, Cx}
use socanmatic.Can402.Halt.{halt}
use socanmatic.Can402.Process.{process}
use socanmatic.Can402.Feedback.{update_feedback, send_feedback}

-- `ach_status_t`, with the values that the code names
pub data AchStatus : Type 0 where
  ach_ok ach_timeout ach_missed_frame ach_bug ach_corrupt : AchStatus
  ach_canceled ach_stale_frames : AchStatus
  ach_other : ℕ → AchStatus

-- The calls of the two libraries and of the clock, over the state of the bus. `Chan` is an open
-- channel with the options of its `ach_get`, which is given the size of the buffer and returns the
-- message, its size, and the state after it. `seq_bits` is the width of a header's unsigned `seq`.
pub record Sns (State W : Type 0) : Type 1 where
  pub Header : Type 0
  pub Time : Type 0
  pub Stamp : Type 0
  pub Chan : Type 0
  pub ach_get :
      State → Chan → ℕ → Time → MotorRef W Header → AchStatus × MotorRef W Header × ℕ × State
  pub ach_put : State → MotorState W Stamp → State
  pub clock : State → Time × State
  pub time_add : Time → Time
  pub seq_bits : ℕ
  pub set_time : Stamp → Time → Stamp
  pub is_expired : Header → Time → Bool
  pub size_n : ℕ → ℕ
  pub check_size : MotorRef W Header → ℕ → Bool
  pub shutdown : State → Bool

module _ (bus : Bus) {W : Type 0} (f : Double W) (sns : Sns bus.State W) where
  open bus use {State}
  open sns use {Header, Time, Stamp, Chan}

  abbrev pub Context : Type 0
  Context = Cx W Header Time Stamp

  -- The validation of a message of `frame_size` bytes; a bogus one is logged.
  unfoldable pub validate : ℕ → ℕ → Context → State → Run (Context × State)
  validate expected_size frame_size cx s =
      if sns.check_size cx.msg_ref frame_size && frame_size == expected_size
      then process bus f sns.is_expired cx s
      else returned (cx, s)

  -- The switch over the status of `ach_get`: a timeout before the expiry falls through.
  unfoldable pub act_on : AchStatus → ℕ → ℕ → Context → State → Run (Context × State)
  act_on ach_timeout expected_size frame_size cx s =
      if sns.is_expired cx.msg_ref.header cx.now
      then halt bus true cx s
      else validate expected_size frame_size cx s
  act_on ach_missed_frame expected_size frame_size cx s = validate expected_size frame_size cx s
  act_on ach_ok expected_size frame_size cx s = validate expected_size frame_size cx s
  act_on ach_bug expected_size frame_size cx s = exited
  act_on ach_corrupt expected_size frame_size cx s = exited
  act_on ach_canceled expected_size frame_size cx s = returned (cx, s)
  act_on ach_stale_frames expected_size frame_size cx s = returned (cx, s)
  act_on (ach_other r) expected_size frame_size cx s = returned (cx, s)

  -- The time of a message: that of the timeout, or the clock's.
  unfoldable pub time_of : AchStatus → Time → State → Time × State
  time_of ach_timeout timeout s = (timeout, s)
  time_of _ timeout s = sns.clock s

  unfoldable pub get_msg : Chan → Time → Context → State → Run (Context × State)
  get_msg chan timeout cx s =
      let got = sns.ach_get s chan (sns.size_n cx.count) timeout cx.msg_ref in
      let t = time_of got.0 timeout got.3 in
      update_feedback f (record cx { msg_ref = got.1; now = t.0 }) >>= λ cx1.
      act_on got.0 (sns.size_n cx.count) got.2 cx1 t.1

  -- One round of `run`, with the event channel if there is one.
  unfoldable pub round : Chan → Option Chan → Context → State → Run (Context × State)
  round chan_ref chan_event cx s =
      let timeout = sns.time_add cx.now in
      get_msg chan_ref timeout cx s >>= λ o.
      elim chan_event [ none ↦ returned o | some c ↦ get_msg c timeout o.0 o.1 ] >>= λ o2.
      send_feedback f sns.seq_bits sns.set_time sns.ach_put o2.0 o2.1

  unfoldable pub rounds : ℕ → Chan → Option Chan → Context → State → Run (Context × State)
  rounds zero chan_ref chan_event cx s = waiting
  rounds (suc fuel) chan_ref chan_event cx s =
      if sns.shutdown s
      then returned (cx, s)
      else (round chan_ref chan_event cx s >>= λ o. rounds fuel chan_ref chan_event o.0 o.1)

  -- `run`, for `fuel` rounds at most
  unfoldable pub run : ℕ → Chan → Option Chan → Context → State → Run (Context × State)
  run fuel chan_ref chan_event cx s =
      let t = sns.clock s in
      rounds fuel chan_ref chan_event
        (record cx { now = t.0; msg_ref = record (cx.msg_ref) { n = cx.count } }) t.1
