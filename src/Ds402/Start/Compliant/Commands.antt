-- ===== src/Ds402/Start/Compliant/Commands.antt =====
-- What the control words that src/ds402.c makes do to a drive that follows CiA 402, whatever bits
-- the word had before.
use socanmatic.Base.{
  ℕ, zero, suc, ◌/◌, ◌%◌, ◌^◌, ◌<◌, ◌≡◌, refl, ap, ◌∙◌, Bool, true, false, ◌==◌, bit_or, bit_and,
  mod-bit_or, mod-bit_and, all_below, all_below-holds, arith, same, same-eq,
}
use socanmatic.Ds402.Words.{
  Masks, shutdown_cmd, switch_on_cmd, disable_voltage_cmd, enable_op_cmd, reset_fault_cmd, masked,
}
use socanmatic.Ds402.State.{off_sw_on_disable, off_rdy, on_op_dis, on_op_en, on_quick_stop, fault}
use socanmatic.Ds402.Start.Compliant.{is_set, react}

-- The word that `canmat_402_dl_ctrlmask` sends.
abbrev pub sent : Masks → ℕ → ℕ
sent m word = masked m word % 2 ^ 16

-- Its low byte, from the low byte of the word.
low_sent : Masks → ℕ → ℕ
low_sent m x = bit_or (bit_and x (m.keep % 2 ^ 8)) (m.put % 2 ^ 8)

sent_low : (m : Masks) (word : ℕ) → sent m word % 2 ^ 8 ≡ low_sent m (word % 2 ^ 8)
unfolding low_sent masked
sent_low m word =
    let cut : masked m word % 2 ^ 16 % 2 ^ 8 ≡ masked m word % 2 ^ 8 = omega arith in
    cut
    ∙ (mod-bit_or 8 (bit_and word m.keep) m.put
        ∙ ap (λ x. bit_or x (m.put % 2 ^ 8)) (mod-bit_and 8 word m.keep))

-- A bit below the eighth is read off the low byte.
digit_low : (k v : ℕ) → k < 8 → v / 2 ^ k % 2 ≡ v % 2 ^ 8 / 2 ^ k % 2
digit_low zero v h = omega arith
digit_low (suc zero) v h = omega arith
digit_low (suc (suc zero)) v h = omega arith
digit_low (suc (suc (suc zero))) v h = omega arith
digit_low (suc (suc (suc (suc zero)))) v h = omega arith
digit_low (suc (suc (suc (suc (suc zero))))) v h = omega arith
digit_low (suc (suc (suc (suc (suc (suc zero)))))) v h = omega arith
digit_low (suc (suc (suc (suc (suc (suc (suc zero))))))) v h = omega arith
digit_low (suc (suc (suc (suc (suc (suc (suc (suc k)))))))) v h = absurd (omega arith)

-- A bit that a command sets or clears in every byte, it sets or clears in every word.
is_set-sent :
    (k : ℕ) (m : Masks) (b : Bool)
    → k < 8
    → all_below 256 (λ x. same (is_set k (low_sent m x)) b) ≡ true
    → (word : ℕ) → is_set k (sent m word) ≡ b
is_set-sent k m b h t word =
    ap (λ (d : ℕ). d == 1)
      (digit_low k (sent m word) h ∙ ap (λ (x : ℕ). x / 2 ^ k % 2) (sent_low m word))
    ∙ same-eq (is_set k (low_sent m (word % 2 ^ 8))) b
        (all_below-holds 256 (λ x. same (is_set k (low_sent m x)) b) t (word % 2 ^ 8) (omega arith))

module _ (word : ℕ) where
  pub shutdown-bits :
      (is_set 0 (sent shutdown_cmd word) ≡ false)
      × (is_set 1 (sent shutdown_cmd word) ≡ true)
      × (is_set 2 (sent shutdown_cmd word) ≡ true)
      × (is_set 7 (sent shutdown_cmd word) ≡ false)
  unfolding all_below low_sent
  shutdown-bits = (
    is_set-sent 0 shutdown_cmd false (omega arith) refl word,
    is_set-sent 1 shutdown_cmd true (omega arith) refl word,
    is_set-sent 2 shutdown_cmd true (omega arith) refl word,
    is_set-sent 7 shutdown_cmd false (omega arith) refl word,
  )

  -- Shutdown makes a drive that is disabled ready, and leaves a fault.
  pub react-shutdown : (old : ℕ) → react off_sw_on_disable old (sent shutdown_cmd word) ≡ off_rdy
  react-shutdown old = rw (shutdown-bits.0, shutdown-bits.1, shutdown-bits.2) refl

  pub react-shutdown_fault : (old : ℕ) → react fault old (sent shutdown_cmd word) ≡ fault
  react-shutdown_fault old = rw (shutdown-bits.3) refl

  pub react-switch_on : (old : ℕ) → react off_rdy old (sent switch_on_cmd word) ≡ on_op_dis
  unfolding all_below low_sent
  react-switch_on old =
      rw
        (
          is_set-sent 0 switch_on_cmd true (omega arith) refl word,
          is_set-sent 1 switch_on_cmd true (omega arith) refl word,
          is_set-sent 2 switch_on_cmd true (omega arith) refl word,
          is_set-sent 3 switch_on_cmd false (omega arith) refl word,
        )
        refl

  pub react-enable_op : (old : ℕ) → react on_op_dis old (sent enable_op_cmd word) ≡ on_op_en
  unfolding all_below low_sent
  react-enable_op old =
      rw
        (
          is_set-sent 0 enable_op_cmd true (omega arith) refl word,
          is_set-sent 1 enable_op_cmd true (omega arith) refl word,
          is_set-sent 2 enable_op_cmd true (omega arith) refl word,
          is_set-sent 3 enable_op_cmd true (omega arith) refl word,
        )
        refl

  pub react-disable_voltage :
      (old : ℕ) → react on_quick_stop old (sent disable_voltage_cmd word) ≡ off_sw_on_disable
  unfolding all_below low_sent
  react-disable_voltage old =
      rw (is_set-sent 1 disable_voltage_cmd false (omega arith) refl word) refl

  -- A reset after a shutdown is a rising edge.
  pub react-reset :
      react fault (sent shutdown_cmd word) (sent reset_fault_cmd (sent shutdown_cmd word))
      ≡ off_sw_on_disable
  unfolding all_below low_sent
  react-reset =
      rw
        (
          is_set-sent 7 reset_fault_cmd true (omega arith) refl (sent shutdown_cmd word),
          shutdown-bits.3,
        )
        refl
