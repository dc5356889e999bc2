-- ===== src/Sdo/Query/Reads.antt =====
-- What an upload (src/sdo.c) does to the bus: it sends one read request, and it receives.
use mathlib.Core.Path.{subst}
use socanmatic.Base.{
  ℕ, zero, suc, ◌≡◌, refl, false, some, arith, Bool-cases, Option-cases, inl, inr, ltb,
}
use socanmatic.Bus.{Bus, is_ok}
use socanmatic.Can.{CanFrame, Status}
use socanmatic.Run.{returned, returned_inj}
use socanmatic.Sdo.Command.{ccs_ex_ul, sdo2can_cmd_ex}
use socanmatic.Sdo.Encode.{sdo2can}
use socanmatic.Sdo.Msg.{SdoMsg, req_id, resp_id}
use socanmatic.Sdo.Query.{foreign, recv_loop, take_response, sdo_recv, sdo_query, sdo_ul}

-- The frame is an upload request to the node: command byte 0x40, which stores nothing.
abbrev pub IsRead : ℕ → CanFrame → Type 0
IsRead node f = (f.can_id ≡ req_id node) × (f.d0 ≡ 0x40)

pub sdo2can-IsRead :
    (stack : CanFrame) (req : SdoMsg) (r : Status) (f : CanFrame)
    → req.cmd_spec ≡ ccs_ex_ul
    → sdo2can stack req false ≡ some (r, f)
    → IsRead req.node f
unfolding sdo2can sdo2can_cmd_ex
sdo2can-IsRead stack req r f c h = elim (Bool-cases (ltb 4 req.length)) [
  | inl a ↦ absurd (ground (arith, a, h))
  | inr a ↦ ground (arith, a, c, h)
]

-- A property of the bus that receiving keeps, and sending an upload request to the node.
pub record KeptByReads (bus : Bus) (node : ℕ) (P : bus.State → Type 0) : Type 0 where
  pub by_recv : (s : bus.State) (can : CanFrame) → P s → P (bus.recv s can).2
  pub by_read : (s : bus.State) (f : CanFrame) → IsRead node f → P s → P (bus.send s f).1

module _ (bus : Bus) (P : bus.State → Type 0) where
  open bus use {State}

  recv_loop_keeps :
      ((s : State) (can : CanFrame) → P s → P (bus.recv s can).2)
      → (fuel id : ℕ) (s : State) (can : CanFrame) (out : Status × CanFrame × State) → P s
      → recv_loop bus fuel id s can ≡ some out
      → P out.2
  unfolding recv_loop
  recv_loop_keeps k zero id s can out p h = absurd (cc)
  recv_loop_keeps k (suc fuel) id s can out p h =
      elim (Bool-cases (foreign bus id (bus.recv s can))) [
        | inl on ↦
            recv_loop_keeps k fuel id (bus.recv s can).2 (bus.recv s can).1 out (k s can p)
              (rw (on, recv_loop) at h)
        | inr off ↦
            let e : bus.recv s can ≡ out = ground (arith, h, off) in
            subst (λ (o : Status × CanFrame × State). P o.2) e (k s can p)
      ]

  response_after :
      (req resp : SdoMsg) (out : Status × CanFrame × State)
      → (take_response bus req resp out).2 ≡ out.2
  unfolding take_response
  response_after req resp out = elim (Bool-cases (is_ok out.0)) [
    | inl a ↦ rw (a) refl
    | inr a ↦ rw (a) refl
  ]

  recv_keeps :
      ((s : State) (can : CanFrame) → P s → P (bus.recv s can).2)
      → (fuel : ℕ) (s : State) (req resp : SdoMsg) (o : Status × SdoMsg × State) → P s
      → sdo_recv bus fuel s req resp ≡ returned o
      → P o.2
  unfolding sdo_recv
  recv_keeps k fuel s req resp o p h =
      elim (Option-cases (recv_loop bus fuel (resp_id req.node) s (bus.stack_frame s))) [
        | inl e ↦ absurd (cc (rw (e, sdo_recv) at h))
        | inr (out, e) ↦
            let q = recv_loop_keeps k fuel (resp_id req.node) s (bus.stack_frame s) out p e in
            let same : take_response bus req resp out ≡ o = returned_inj (rw (e, sdo_recv) at h) in
            subst (λ (x : Status × SdoMsg × State). P x.2) same (rw (response_after req resp out) q)
      ]

  -- What reading keeps, an upload from the node keeps, whatever it returns.
  pub sdo_ul_keeps :
      (fuel : ℕ) (s : State) (req resp : SdoMsg) (o : Status × SdoMsg × State)
      → KeptByReads bus req.node P
      → P s
      → sdo_ul bus fuel s req resp ≡ returned o
      → P o.2
  unfolding sdo_ul sdo_query
  sdo_ul_keeps fuel s req resp o k p h =
      let q = record req { cmd_spec = ccs_ex_ul } in
      elim (Option-cases (sdo2can (bus.stack_frame s) q false)) [
        | inl e ↦ absurd (cc (rw (e, sdo_ul, sdo_query) at h))
        | inr ((r, f), e) ↦
            let sent = k.by_read s f (sdo2can-IsRead (bus.stack_frame s) q r f refl e) p in
            elim (Bool-cases (is_ok (bus.send s f).0)) [
              | inl a ↦
                  recv_keeps k.by_recv fuel (bus.send s f).1 q resp o sent
                    (rw (e, a, sdo_ul, sdo_query) at h)
              | inr a ↦
                  subst (λ (x : Status × SdoMsg × State). P x.2)
                    (returned_inj (rw (e, a, sdo_ul, sdo_query) at h)) sent
            ]
      ]
