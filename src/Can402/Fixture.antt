-- ===== src/Can402/Fixture.antt =====
-- Doubles for the tests of the daemon: whole numbers with two infinities.
use socanmatic.Base.{
  zero, suc, ◌+◌, ◌-◌, ◌*◌, ◌≡◌, refl, Bool, true, false, not, leb, Option, none, some,
  if◌then◌else◌, arith,
}
use socanmatic.Base.Int.{ℤ, pos, negsuc, le_int}
use socanmatic.Can402.{Double}
use socanmatic.Can402.Limits.{IsDouble}

pub data Whole : Type 0 where
  inf neg_inf : Whole
  fin : ℤ → Whole

abbrev pub neg_int : ℤ → ℤ
neg_int (pos zero) = pos 0
neg_int (pos (suc n)) = negsuc n
neg_int (negsuc n) = pos (suc n)

abbrev pub mul_int : ℤ → ℤ → ℤ
mul_int (pos a) (pos b) = pos (a * b)
mul_int (pos a) (negsuc b) = neg_int (pos (a * suc b))
mul_int (negsuc a) (pos b) = neg_int (pos (suc a * b))
mul_int (negsuc a) (negsuc b) = pos (suc a * suc b)

abbrev pub add_int : ℤ → ℤ → ℤ
add_int (pos a) (pos b) = pos (a + b)
add_int (pos a) (negsuc b) = if leb (suc b) a then pos (a - suc b) else negsuc (b - a)
add_int (negsuc a) (pos b) = if leb (suc a) b then pos (b - suc a) else negsuc (a - b)
add_int (negsuc a) (negsuc b) = negsuc (a + b + 1)

abbrev pub whole_lt : Whole → Whole → Bool
whole_lt neg_inf neg_inf = false
whole_lt neg_inf inf = true
whole_lt neg_inf (fin b) = true
whole_lt inf y = false
whole_lt (fin a) neg_inf = false
whole_lt (fin a) inf = true
whole_lt (fin a) (fin b) = not (le_int b a)

abbrev pub whole_neg : Whole → Whole
whole_neg inf = neg_inf
whole_neg neg_inf = inf
whole_neg (fin a) = fin (neg_int a)

abbrev pub whole_mul : Whole → Whole → Whole
whole_mul (fin a) (fin b) = fin (mul_int a b)
whole_mul (fin a) y = y
whole_mul inf y = if whole_lt (fin (pos 0)) y then inf else neg_inf
whole_mul neg_inf y = if whole_lt (fin (pos 0)) y then neg_inf else inf

abbrev pub whole_add : Whole → Whole → Whole
whole_add (fin a) (fin b) = fin (add_int a b)
whole_add (fin a) y = y
whole_add x y = x

abbrev pub whole_trunc : Whole → Option ℤ
whole_trunc (fin a) = some a
whole_trunc _ = none

abbrev pub whole : Double Whole
whole = record {
  of_int = λ z. fin z;
  trunc = whole_trunc;
  huge = inf;
  neg = whole_neg;
  add = whole_add;
  sub = λ x y. whole_add x (whole_neg y);
  mul = whole_mul;
  div = λ x y. x;
  gt = λ x y. whole_lt y x;
  lt = whole_lt;
}

whole_le :
    (x : Whole) (m t : ℤ) → whole_trunc x ≡ some t → whole_lt (fin m) x ≡ false → le_int t m ≡ true
whole_le inf m t e h = absurd (cc)
whole_le neg_inf m t e h = absurd (cc)
whole_le (fin a) m t e h = ground (arith, e, h)

whole_ge :
    (x : Whole) (m t : ℤ) → whole_trunc x ≡ some t → whole_lt x (fin m) ≡ false → le_int m t ≡ true
whole_ge inf m t e h = absurd (cc)
whole_ge neg_inf m t e h = absurd (cc)
whole_ge (fin a) m t e h = ground (arith, e, h)

pub whole-IsDouble : IsDouble whole
whole-IsDouble = record {
  trunc_le = whole_le;
  trunc_ge = whole_ge;
  huge_gt = λ v m h. rw (h) refl;
  huge_lt = λ v m h. (rw (h) refl, rw (h) refl);
}
