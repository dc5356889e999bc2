-- ===== src/Ds402/Tests.antt =====
-- A simulated drive, alone and on a bus, and each theorem of the drive's functions on it.
use socanmatic.Base.{ℕ, ◌≡◌, refl, false, Option, none, arith, ◌==◌, bit_and}
use socanmatic.Base.Int.{pos}
use socanmatic.Can.{ok, zero_frame}
use socanmatic.Bus.{is_ok}
use socanmatic.Run.{returned}
use socanmatic.Sdo.Typed.{Uploaded, Downloaded}
use socanmatic.Client.{Client}
use socanmatic.Ds402.State.{StateVal, on_op_en, fault, value_of, state}
use socanmatic.Ds402.State.Patterns.{state-eq_test}
use socanmatic.Ds402.Start.{Drive, Outcome, start, start_loop, ul_statusword, act}
use socanmatic.Ds402.Start.Enabled.{Enabled, start-Enabled}
use socanmatic.Dict.Typed.{objects_of}
use socanmatic.Ds402.Start.Compliant.{react, wake}
use socanmatic.Ds402.Start.OnBus.{drive_bus, Plant, mode_at, last_at, on_bus-Compliant}
use socanmatic.Ds402.Start.Reaches.{Reaches, start-Reaches}

record Device : Type 0 where
  mode : StateVal
  last : ℕ

abbrev shown : Device → Option ℕ → Uploaded Device
shown s err = record { status = ok; val = value_of s.mode; err = err; after = s }

abbrev told : Device → ℕ → Option ℕ → Downloaded Device
told s word err = record {
  status = ok;
  err = err;
  after = record { mode = react s.mode s.last word; last = word };
}

shown-val_kept :
    (s : Device) (val : ℕ) (err : Option ℕ) (u : Uploaded Device)
    → returned (shown s err) ≡ returned u
    → is_ok u.status ≡ false
    → u.val ≡ val
shown-val_kept s val err u h bad = absurd (ground (arith, h, bad))

told-null_kept :
    (s : Device) (word : ℕ) (d : Downloaded Device)
    → returned (told s word none) ≡ returned d
    → d.err ≡ none
told-null_kept s word d h = ground (arith, h)

abbrev simulated : Client
simulated = record {
  State = Device;
  upload = λ m s node idx subix val err. returned (shown s err);
  download = λ m s node idx subix val err. returned (told s val err);
  send = λ s f. (ok, record { mode = wake s.mode; last = s.last });
  val_kept = λ m s node idx subix val err u h bad. shown-val_kept s val err u h bad;
  null_kept = λ m s node idx subix val d h. told-null_kept s val d h;
}

-- A drive with a fault whose reset bit is set already.
abbrev faulty : Plant
faulty = record { mode = fault; last = 0x80; reply = zero_frame }

abbrev drive : Drive
drive = record {
  node_id = 5;
  ctrl_word = 0x80;
  stat_word = 0;
  abort_code = 0;
  op_mode = 1;
  rpdo_user = pos 1;
}

start-Reaches_example :
    Reaches
      (objects_of drive_bus 1)
      5
      mode_at
      last_at
      on_bus-Compliant
      (start (objects_of drive_bus 1) drive faulty)
start-Reaches_example =
    start-Reaches (objects_of drive_bus 1) 5 mode_at last_at on_bus-Compliant drive faulty refl
      (λ e. absurd (cc))

-- The drive is enabled already.
abbrev running : Device
running = record { mode = on_op_en; last = 0x0F }

abbrev running_outcome : Outcome Device
running_outcome = record { status = ok; drive = record drive { stat_word = 0x27 }; after = running }

running_started : start simulated drive running ≡ returned running_outcome
unfolding start start_loop ul_statusword act state
running_started = refl

start-Enabled_example : Enabled simulated running_outcome
start-Enabled_example = start-Enabled simulated drive running running_outcome running_started refl

state-eq_test_example :
    (value_of (state 0x0237) == value_of on_op_en) ≡ (0x27 == bit_and 0x0237 0x6F)
state-eq_test_example = state-eq_test 0x0237 on_op_en (λ e. absurd (cc))
