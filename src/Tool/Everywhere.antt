-- ===== src/Tool/Everywhere.antt =====
-- What `send_frame` (src/canmat.c) does on a set of interfaces.
use socanmatic.Base.{
  ℕ, suc, ◌≤◌, ◌≡◌, ◌≢◌, refl, sym, ◌∙◌, inl, inr, true, false, List, [], ◌∷◌, ◌++◌, ◌==◌,
  Bool-cases, arith,
}
use mathlib.Core.List.{append-nil, append_assoc}
use mathlib.Core.Path.{subst}
use socanmatic.Bus.{is_ok}
use socanmatic.Can.{CanFrame, Status, ok}
use socanmatic.Out.{Output, Print, name, text}
use socanmatic.Out.Bytes.{dump_frame-Returns}
use socanmatic.Run.{returned}
use socanmatic.Tool.{Host, Settings, World, put_all, send_frame, send_each, verbf}
use socanmatic.Tool.Valid.{verbf_after}

module _ (h : Host) where
  open h use {State, send, errno_text}

  -- The frame is given once to each of the named interfaces, the first of which has the number `i`,
  -- in their order, whatever the ones before answered. The output is one line for each that does not
  -- return OK, with the interface's name.
  pub data SentOn (can : CanFrame) : ℕ → List (List ℕ) → State → State → Output → Type 0 where
    all : {i : ℕ} {s : State} → SentOn can i [] s s []
    taken :
        {i : ℕ} {n : List ℕ} {names : List (List ℕ)} {s t : State} {out : Output}
        → (send i s can).0 ≡ ok
        → SentOn can (suc i) names (send i s can).1 t out
        → SentOn can i (n ∷ names) s t out
    refused :
        {i : ℕ} {n : List ℕ} {names : List (List ℕ)} {s t : State} {out : Output}
        → (send i s can).0 ≢ ok
        → SentOn can (suc i) names (send i s can).1 t out
        → SentOn can i (n ∷ names) s t (
            record {
              format = "Couldn't send frame on %s: %s\n";
              args = name n ∷ text (errno_text (send i s can).1) ∷ [];
            }
            ∷ out)

  is_ok-eq : (r : Status) → is_ok r ≡ true → r ≡ ok
  is_ok-eq r e = ground (arith, e)

  is_ok-ne : (r : Status) → is_ok r ≡ false → r ≢ ok
  is_ok-ne r e q = absurd (cc (rw (q) at e))

  module _ (cfg : Settings) (can : CanFrame) where
    send_each-SentOn :
        (names : List (List ℕ)) (i : ℕ) (w : World State)
        → (out : Output) × SentOn can i names w.after (send_each h cfg names i can w).after out
          × ((send_each h cfg names i can w).printed ≡ w.printed ++ out)
    unfolding send_each
    send_each-SentOn [] i w = ([], all, sym (append-nil w.printed))
    send_each-SentOn (n ∷ names) i w = elim (Bool-cases (is_ok (send i w.after can).0)) [
      | inl a ↦
          let sent : World State = record w { after = (send i w.after can).1 } in
          let (out, d, p) = send_each-SentOn names (suc i) sent in
          (
            out,
            rw (a, send_each) (taken (is_ok-eq (send i w.after can).0 a) d),
            rw (a, send_each) p,
          )
      | inr a ↦
          let line : Print = record {
            format = "Couldn't send frame on %s: %s\n";
            args = name n ∷ text (errno_text (send i w.after can).1) ∷ [];
          } in
          let told : World State = record {
            after = (send i w.after can).1;
            printed = w.printed ++ (line ∷ []);
          } in
          let (out, d, p) = send_each-SentOn names (suc i) told in
          (
            line ∷ out,
            rw (a, send_each) (refused (is_ok-ne (send i w.after can).0 a) d),
            rw (a, send_each) (p ∙ append_assoc w.printed (line ∷ []) out),
          )
    ]

    -- A frame of at most eight bytes is given once to each interface, in their order, also after one
    -- that fails; `send_frame` returns, and its output ends in one line for each failure.
    pub send_frame-SentOn :
        (w : World State)
        → can.can_dlc ≤ 8
        → (o : World State) × (before out : Output) × (send_frame h cfg can w ≡ returned o)
          × SentOn can 0 cfg.names w.after o.after out
          × (o.printed ≡ before ++ out)
    unfolding send_frame
    send_frame-SentOn w short = elim (Bool-cases (cfg.verbosity == 0)) [
      | inl quiet ↦
          let (out, d, p) = send_each-SentOn cfg.names 0 w in
          (send_each h cfg cfg.names 0 can w, w.printed, out, rw (quiet, send_frame) refl, d, p)
      | inr loud ↦
          let (raw, e) = dump_frame-Returns can short in
          let dumped : World State = put_all raw (verbf cfg.verbosity 1 "Sending " [] w) in
          let (out, d, p) = send_each-SentOn cfg.names 0 dumped in
          (
            send_each h cfg cfg.names 0 can dumped,
            dumped.printed,
            out,
            rw (loud, e, send_frame) refl,
            subst (λ q. SentOn can 0 cfg.names q (send_each h cfg cfg.names 0 can dumped).after out)
                (verbf_after cfg.verbosity 1 "Sending " [] w) d,
            p,
          )
    ]
