-- ===== src/Sdo/Query/Waits.antt =====
-- The receive loop of `canmat_sdo_query` (src/sdo.c) against the sequence of frames that the bus
-- delivers.
use socanmatic.Base.{ℕ, zero, suc, ◌<◌, ◌≡◌, true, false, some, arith, Bool-cases, inl, inr}
use socanmatic.Can.{CanFrame, Status}
use socanmatic.Bus.{Bus}
use socanmatic.Sdo.Query.{foreign, recv_loop}

module _ (bus : Bus) (id : ℕ) where
  open bus use {State, recv}

  -- From state `s`, the bus delivers `k` frames without error that have another identifier, and
  -- then `out`, which is an error or a frame with the identifier.
  pub data Waits : State → CanFrame → ℕ → Status × CanFrame × State → Type 0 where
    now :
        {s : State} {can : CanFrame} {out : Status × CanFrame × State}
        → recv s can ≡ out
        → foreign bus id out ≡ false
        → Waits s can zero out
    later :
        {s : State} {can : CanFrame} {k : ℕ} {out : Status × CanFrame × State}
        → foreign bus id (recv s can) ≡ true
        → Waits (recv s can).2 (recv s can).1 k out
        → Waits s can (suc k) out

  -- The loop returns what ends the wait, if its fuel exceeds the number of frames passed over.
  pub recv_loop_enough :
      (fuel : ℕ) {s : State} {can : CanFrame} {k : ℕ} {out : Status × CanFrame × State}
      → Waits s can k out
      → k < fuel
      → recv_loop bus fuel id s can ≡ some out
  unfolding recv_loop
  recv_loop_enough zero w h = absurd (omega arith)
  recv_loop_enough (suc fuel) (now e f) h = ground (arith, e, f)
  recv_loop_enough (suc fuel) (later f w) h =
      rw (f, recv_loop) (recv_loop_enough fuel w (omega arith))

  -- Whatever the loop returns ends such a wait, of fewer frames than its fuel.
  pub recv_loop_waited :
      (fuel : ℕ) (s : State) (can : CanFrame) {out : Status × CanFrame × State}
      → recv_loop bus fuel id s can ≡ some out
      → (k : ℕ) × (k < fuel) × Waits s can k out
  unfolding recv_loop
  recv_loop_waited zero s can h = absurd (cc)
  recv_loop_waited (suc fuel) s can {out} h = elim (Bool-cases (foreign bus id (recv s can))) [
    | inl on ↦
        let (k, lt, w) =
          recv_loop_waited fuel (recv s can).2 (recv s can).1 (rw (on, recv_loop) at h) in
        (suc k, omega arith, later on w)
    | inr off ↦
        let e : recv s can ≡ out = ground (arith, h, off) in (0, omega arith, now e (rw (← e) off))
  ]
