-- ===== src/Can402/Tests.antt =====
-- The theorems on the drive daemon at two drives.
use socanmatic.Base.{ℕ, ◌+◌, ◌≡◌, refl, Bool, true, false, List, [], ◌∷◌, arith}
use socanmatic.Base.Int.{ℤ, pos, negsuc, le_int}
use socanmatic.Can.{CanFrame}
use socanmatic.Bus.{is_ok}
use socanmatic.Run.{returned, ◌>>=◌}
use socanmatic.Pdo.Send.{rpdo_send, rpdo_send_u16, rpdo_send_i16, bytes_of}
use socanmatic.Sdo.Fixture.{listed}
use socanmatic.Ds402.Start.{Drive}
use socanmatic.Can402.{Servo, mode_vel, MotorRef, Cx, each2}
use socanmatic.Can402.First.{FirstAll, map_first}
use socanmatic.Can402.Fixture.{Whole, fin, whole, whole-IsDouble}
use socanmatic.Can402.Halt.{halt_word, halt_one, halt_loop, halt}
use socanmatic.Can402.Halt.Sent.{halt_as, halt-sent}
use socanmatic.Can402.Process.{
  vel_max, vel_min, pos_limit, clamp, next_target, drive_one, drive_all, process_mode, process,
}
use socanmatic.Can402.Limits.{next_target-in_bounds}
use socanmatic.Can402.Again.{process-again}
use socanmatic.Can402.Feedback.{feedback_frame, update_feedback, convert}
use socanmatic.Can402.Heard.{report_frame, reported, update_feedback-feedback_frame}
use socanmatic.Can402.Main.{ach_ok, Sns, validate, act_on}
use socanmatic.Can402.Safe.{Unhalted}
use socanmatic.Can402.Safe.Reach.{Step, acts, stay, goes, daemon-Safe}

abbrev drive : ℕ → Drive
drive ctrl = record {
  node_id = 5;
  ctrl_word = ctrl;
  stat_word = 0;
  abort_code = 0;
  op_mode = 2;
  rpdo_user = pos 1;
}

-- A drive at `p` between the limits -100 and 100, with a target of 7.
abbrev servo : ℕ → ℤ → Servo Whole
servo ctrl p = record {
  drive = drive ctrl;
  pos_factor = fin (pos 1);
  vel_factor = fin (pos 10);
  actual_pos_raw = pos 0;
  actual_vel_raw = pos 0;
  target_vel_raw = pos 7;
  pos_max_soft = fin (pos 90);
  pos_min_soft = fin (negsuc 89);
  pos_max_hard = fin (pos 100);
  pos_min_hard = fin (negsuc 99);
  actual_pos = fin p;
  actual_vel = fin (pos 0);
  pos_offset = fin (pos 0);
  tpdo_user = 0;
  tpdo_stat = negsuc 0;
  rpdo_ctrl = pos 0;
}

abbrev second : Servo Whole
second = record (servo 0x10F (pos 0)) { drive = record (drive 0x10F) { node_id = 6 } }

abbrev servos : List (Servo Whole)
servos = servo 0x10F (pos 50) ∷ second ∷ []

abbrev reference : MotorRef Whole Bool
reference = record {
  header = false;
  n = 2;
  mode = mode_vel;
  u = fin (pos 20) ∷ fin (negsuc 9999) ∷ [];
}

-- A header is its expiry, and the time is not looked at.
abbrev sns : Sns listed.State Whole
sns = record {
  Header = Bool;
  Time = ℕ;
  Stamp = ℕ;
  Chan = ℕ;
  ach_get = λ s c n t m. (ach_ok, m, n, s);
  ach_put = λ s m. s;
  clock = λ s. (0, s);
  time_add = λ t. t + 1;
  seq_bits = 32;
  set_time = λ st t. t;
  is_expired = λ h t. h;
  size_n = λ n. n + 8;
  check_size = λ m n. true;
  shutdown = λ s. true;
}

abbrev context : Cx Whole Bool ℕ ℕ
context = record {
  drives = servos;
  count = 2;
  msg_ref = reference;
  msg_state = record { seq = 0; stamp = 0; values = [] };
  is_halt = true;
  now = 0;
}

abbrev driven : Cx Whole Bool ℕ ℕ
driven = record context {
  drives =
      record (servo 0x00F (pos 50)) { target_vel_raw = pos 200 }
      ∷ record (second) {
        drive = record (drive 0x00F) { node_id = 6 };
        target_vel_raw = negsuc 32766;
      }
      ∷ [];
  is_halt = false;
}

sent : (s : listed.State) (can : CanFrame) → is_ok (listed.send s can).0 ≡ true
sent s can = refl

context-driven : process listed whole (λ h t. h) context [] ≡ returned (driven, [])
unfolding process process_mode halt halt_loop halt_one halt_word rpdo_send_u16 rpdo_send
    rpdo_send_i16 bytes_of drive_all each2 drive_one next_target pos_limit clamp
context-driven = refl

halt-sent_example :
    (s' : listed.State) × (halt listed false context []
      ≡ returned
          (record context { drives = map_first 2 (halt_as false) servos; is_halt = false }, s'))
halt-sent_example =
    halt-sent listed sent false context [] (omega arith) (omega arith, (omega arith, _))

next_target-in_bounds_example :
    (le_int vel_min (pos 200) ≡ true) × (le_int (pos 200) vel_max ≡ true)
next_target-in_bounds_example =
    next_target-in_bounds whole whole-IsDouble (servo 0 (pos 50)) (fin (pos 20)) (pos 200)
      (unfold next_target pos_limit clamp in refl)

process-again_example : process listed whole (λ h t. h) driven [] ≡ returned (driven, [])
process-again_example =
    process-again listed whole (λ h t. h) sent context [] (driven, []) refl refl (omega arith)
      (omega arith, (omega arith, _)) context-driven []

update_feedback-feedback_frame_example :
    (feedback_frame (report_frame 5 0 70 0xFFFFFFFF) context >>= λ cx1. update_feedback whole cx1)
    ≡ returned (record context {
      drives = map_first 2 (λ d. convert whole (reported 5 0 70 0xFFFFFFFF d)) servos;
    })
update_feedback-feedback_frame_example =
    update_feedback-feedback_frame whole 5 0 70 0xFFFFFFFF context (omega arith) (omega arith)
      (omega arith) (omega arith) (omega arith)

driven-Step : Step listed whole sns (context, []) (driven, [])
unfolding act_on validate
driven-Step = acts ach_ok 10 10 context-driven

daemon-Safe_example : FirstAll Unhalted 2 driven.drives
daemon-Safe_example =
    daemon-Safe listed whole sns (context, []) (driven, []) (goes stay driven-Step) refl refl
