-- ===== src/Can402/Feedback.antt =====
-- The feedback of the drives: the frames that the feedback thread takes, and what the main thread
-- makes of them (`feedback_recv`, `update_feedback` and `send_feedback` of src/can402.c).
use socanmatic.Base.{
  ℕ, zero, suc, ◌+◌, ◌*◌, ◌%◌, ◌^◌, Bool, true, ◌&&◌, List, [], ◌∷◌, ◌==◌, leb, if◌then◌else◌,
  bit_or,
}
use socanmatic.Base.Int.{to_signed}
use socanmatic.Can.{CanFrame}
use socanmatic.Can.FuncCode.{pdo1_tx}
use socanmatic.Bus.{Bus, is_ok}
use socanmatic.Byteorder.{Bytes4, ldle32}
use socanmatic.Run.{Run, waiting, fault, returned, ◌>>=◌}
use socanmatic.Can402.{Double, Servo, MotorState, Cx, each}

-- `CANMAT_TPDO_COBID( node, num )`
unfoldable pub tpdo_cobid : ℕ → ℕ → ℕ
tpdo_cobid node num = bit_or (pdo1_tx + num * 2 ^ 8) node

-- The bytes 0 to 3 and 4 to 7 of a frame.
abbrev pub low_half : CanFrame → Bytes4
low_half can = record { q0 = can.d0; q1 = can.d1; q2 = can.d2; q3 = can.d3 }

abbrev pub high_half : CanFrame → Bytes4
high_half can = record { q0 = can.d4; q1 = can.d5; q2 = can.d6; q3 = can.d7 }

-- The test for a TPDO
abbrev pub is_tpdo : CanFrame → Bool
is_tpdo can = leb (tpdo_cobid 0 0) can.can_id && leb can.can_id (tpdo_cobid 0x7F 0xFF)

module _ {W : Type 0} where
  -- The body of the loop over the drives
  unfoldable pub take_raw : CanFrame → Servo W → Servo W
  take_raw can d =
      if tpdo_cobid d.drive.node_id d.tpdo_user == can.can_id && can.can_dlc == 8
      then record d {
        actual_pos_raw = to_signed 32 (ldle32 (low_half can));
        actual_vel_raw = to_signed 32 (ldle32 (high_half can));
      }
      else d

module _ {W Header Time Stamp : Type 0} where
  -- What `feedback_recv` makes of a frame that is received without error.
  unfoldable pub feedback_frame : CanFrame → Cx W Header Time Stamp → Run (Cx W Header Time Stamp)
  feedback_frame can cx =
      if is_tpdo can
      then (each {S = Bool} (λ d s. returned (take_raw can d, s)) cx.count cx.drives true >>= λ r.
          returned (record cx { drives = r.0 }))
      else returned cx

-- The thread's loop, for `fuel` frames at most; `shutdown` reads the flag of the process.
module _ (bus : Bus) (shutdown : bus.State → Bool) {W Header Time Stamp : Type 0} where
  open bus use {State, recv, stack_frame}

  unfoldable pub feedback_recv :
      ℕ → Cx W Header Time Stamp → State → Run (Cx W Header Time Stamp × State)
  feedback_recv zero cx s = waiting
  feedback_recv (suc fuel) cx s =
      if shutdown s
      then returned (cx, s)
      else let out = recv s (stack_frame s) in
        (if is_ok out.0 then feedback_frame out.1 cx else returned cx) >>= λ cx1.
        feedback_recv fuel cx1 out.2

module _ {W : Type 0} (f : Double W) where
  -- The body of `update_feedback`
  unfoldable pub convert : Servo W → Servo W
  convert d = record d {
    actual_pos = f.div (f.of_int d.actual_pos_raw) d.pos_factor;
    actual_vel = f.div (f.of_int d.actual_vel_raw) d.vel_factor;
  }

  -- The values of the first drives, as `send_feedback` stores them.
  unfoldable pub values_of : ℕ → List (Servo W) → Run (List (W × W))
  values_of zero ds = returned []
  values_of (suc n) [] = fault
  values_of (suc n) (d ∷ ds) =
      values_of n ds >>= λ vs. returned ((f.add d.actual_pos d.pos_offset, d.actual_vel) ∷ vs)

  module _ {Header Time Stamp : Type 0} where
    unfoldable pub update_feedback : Cx W Header Time Stamp → Run (Cx W Header Time Stamp)
    update_feedback cx =
        each {S = Bool} (λ d s. returned (convert d, s)) cx.count cx.drives true >>= λ r.
        returned (record cx { drives = r.0 })

    -- `seq_bits` is the width of `header.seq`, `set_time` is `sns_msg_set_time`, and `put` is `ach_put`, whose failure is logged.
    unfoldable pub send_feedback :
        {State : Type 0}
        → ℕ
        → (Stamp → Time → Stamp)
        → (State → MotorState W Stamp → State)
        → Cx W Header Time Stamp
        → State
        → Run (Cx W Header Time Stamp × State)
    send_feedback seq_bits set_time put cx s = values_of cx.count cx.drives >>= λ vs.
        let msg : MotorState W Stamp = record {
          seq = (cx.msg_state.seq + 1) % 2 ^ seq_bits;
          stamp = set_time cx.msg_state.stamp cx.now;
          values = vs;
        } in
        returned (record cx { msg_state = msg }, put s msg)
