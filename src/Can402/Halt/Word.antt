-- ===== src/Can402/Halt/Word.antt =====
-- The halt bit of a control word (`halt` of src/can402.c).
use socanmatic.Base.{
  ℕ, ◌%◌, ◌^◌, ◌≡◌, refl, ap, ◌∙◌, Bool, true, false, not, same, same-eq, ◌==◌, arith, bit_and,
  bit_or, bit_and_mod, mod-bit_and, mod-bit_or, all_below, all_below-holds,
}
use socanmatic.Can402.Halt.{halt_word}

abbrev pub has_halt : ℕ → Bool
has_halt w = not (bit_and w (2 ^ 8) == 0)

or_table : all_below 512 (λ x. has_halt (bit_or x 256)) ≡ true
unfolding all_below
or_table = refl

and_table : all_below 512 (λ x. same (has_halt (bit_and x 0xFF)) false) ≡ true
unfolding all_below
and_table = refl

-- The bit is read in the low nine bits.
has_halt-low : (w : ℕ) → has_halt w ≡ has_halt (w % 2 ^ 9)
has_halt-low w = ap (λ x. not (x == 0)) (bit_and_mod 9 w 256 (omega arith))

-- The word that `halt` sends has the halt bit that is asked for.
pub has_halt-halt_word : (b : Bool) (w : ℕ) → has_halt (halt_word b w) ≡ b
unfolding halt_word
has_halt-halt_word true w =
    let low : bit_or w 256 % 2 ^ 16 % 2 ^ 9 ≡ bit_or (w % 2 ^ 9) 256 =
      omega (arith, mod-bit_or 9 w 256) in
    has_halt-low (bit_or w 256 % 2 ^ 16)
    ∙ (ap has_halt low
        ∙ all_below-holds 512 (λ x. has_halt (bit_or x 256)) or_table (w % 2 ^ 9) (omega arith))
has_halt-halt_word false w =
    let low : bit_and w 0xFEFF % 2 ^ 16 % 2 ^ 9 ≡ bit_and (w % 2 ^ 9) 0xFF =
      omega (arith, mod-bit_and 9 w 0xFEFF) in
    has_halt-low (bit_and w 0xFEFF % 2 ^ 16)
    ∙ (ap has_halt low
        ∙ same-eq _ false (
            all_below-holds 512 (λ x. same (has_halt (bit_and x 0xFF)) false) and_table (w % 2 ^ 9)
              (omega arith)))
