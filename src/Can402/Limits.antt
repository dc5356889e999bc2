-- ===== src/Can402/Limits.antt =====
-- The velocity that is sent to a drive (`pos_limit` and `process` of src/can402.c): its bounds, and
-- its direction beyond a hard limit.
use socanmatic.Base.{
  ◌≡◌, refl, sym, ap, ◌∙◌, Bool, true, false, Option, none, some, Bool-cases, inl, inr,
}
use socanmatic.Base.Int.{ℤ, pos, le_int}
use socanmatic.Run.{fault, returned}
use socanmatic.Can402.{Double, Servo}
use socanmatic.Can402.First.{returned_inj}
use socanmatic.Can402.Process.{vel_max, vel_min, pos_limit, clamp, next_target}

-- What C and IEEE 754 say of the conversion to an integer, of comparisons with integers, and of
-- infinity times a positive number.
pub record IsDouble {W : Type 0} (f : Double W) : Type 0 where
  pub trunc_le :
      (x : W) (m t : ℤ) → f.trunc x ≡ some t → f.gt x (f.of_int m) ≡ false → le_int t m ≡ true
  pub trunc_ge :
      (x : W) (m t : ℤ) → f.trunc x ≡ some t → f.lt x (f.of_int m) ≡ false → le_int m t ≡ true
  pub huge_gt :
      (v : W) (m : ℤ) → f.gt v (f.of_int (pos 0)) ≡ true → f.gt (f.mul f.huge v) (f.of_int m) ≡ true
  pub huge_lt :
      (v : W) (m : ℤ)
      → f.gt v (f.of_int (pos 0)) ≡ true
      → (f.gt (f.mul (f.neg f.huge) v) (f.of_int m) ≡ false)
        × (f.lt (f.mul (f.neg f.huge) v) (f.of_int m) ≡ true)

module _ {W : Type 0} (f : Double W) where
  -- The position is beyond the upper, or beyond the lower, hard limit, and so beyond the soft one.
  abbrev pub Beyond : Bool → Servo W → Type 0
  Beyond true d =
      (f.gt d.actual_pos d.pos_max_soft ≡ true) × (f.gt d.actual_pos d.pos_max_hard ≡ true)
  Beyond false d =
      (f.gt d.actual_pos d.pos_max_soft ≡ false)
      × (f.lt d.actual_pos d.pos_min_soft ≡ true)
      × (f.lt d.actual_pos d.pos_min_hard ≡ true)

module _ {W : Type 0} (f : Double W) (law : IsDouble f) where
  truncated :
      (x : W) (z : Option ℤ) (t : ℤ)
      → f.trunc x ≡ z
      → f.gt x (f.of_int vel_max) ≡ false
      → f.lt x (f.of_int vel_min) ≡ false
      → (elim z [ none ↦ fault | some n ↦ returned n ]) ≡ returned t
      → (le_int vel_min t ≡ true) × (le_int t vel_max ≡ true)
  truncated x none t e g l h = absurd (cc)
  truncated x (some n) t e g l h =
      let q : n ≡ t = returned_inj h in
      (
        ap (le_int vel_min) (sym q) ∙ law.trunc_ge x vel_min n e l,
        ap (λ m. le_int m vel_max) (sym q) ∙ law.trunc_le x vel_max n e g,
      )

  clamp-in_bounds :
      (x : W) (t : ℤ)
      → clamp f x ≡ returned t
      → (le_int vel_min t ≡ true) × (le_int t vel_max ≡ true)
  unfolding clamp
  clamp-in_bounds x t h = elim (Bool-cases (f.gt x (f.of_int vel_max))) [
    | inl g ↦
        let q : vel_max ≡ t = returned_inj (rw (g) at h) in
        (ap (le_int vel_min) (sym q), ap (λ m. le_int m vel_max) (sym q))
    | inr g ↦ elim (Bool-cases (f.lt x (f.of_int vel_min))) [
      | inl l ↦
          let q : vel_min ≡ t = returned_inj (rw (g, l) at h) in
          (ap (le_int vel_min) (sym q), ap (λ m. le_int m vel_max) (sym q))
      | inr l ↦ truncated x (f.trunc x) t refl g l (rw (g, l) at h)
    ]
  ]

  -- Under the laws of `IsDouble`, and whatever the position, the reference and the factor are, a target that is computed is between
  -- -32767 and 32767, so that its conversion to `int16_t` keeps it.
  pub next_target-in_bounds :
      (d : Servo W) (u : W) (t : ℤ)
      → next_target f d u ≡ returned t
      → (le_int vel_min t ≡ true) × (le_int t vel_max ≡ true)
  unfolding next_target
  next_target-in_bounds d u t h = clamp-in_bounds (f.mul (pos_limit f d u) d.vel_factor) t h
