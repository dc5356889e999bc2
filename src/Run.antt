-- ===== src/Run.antt =====
-- How a call ends: it returns, it fails one of its `assert`s, it still waits for a frame when the
-- fuel of its receive loop is used up, it does what C leaves undefined (an access outside an array,
-- a conversion out of range), or it ends the process.
use socanmatic.Base.{◌≡◌, refl, ap, Bool, true, false}

pub data Run {ℓ} (A : Type ℓ) : Type ℓ where
  assert_failed waiting fault exited : Run A
  returned : A → Run A

abbrev pub is_returned {ℓ} : {A : Type ℓ} → Run A → Bool
is_returned (returned a) = true
is_returned _ = false

infixl 5 ◌>>=◌
abbrev pub ◌>>=◌ {ℓ κ} : {A : Type ℓ} {B : Type κ} → Run A → (A → Run B) → Run B
assert_failed >>= f = assert_failed
waiting >>= f = waiting
fault >>= f = fault
exited >>= f = exited
returned a >>= f = f a

pub >>=-eq-returned {ℓ κ} :
    {A : Type ℓ} {B : Type κ} (m : Run A) (f : A → Run B) {b : B}
    → (m >>= f) ≡ returned b
    → (a : A) × (m ≡ returned a) × (f a ≡ returned b)
>>=-eq-returned assert_failed f h = absurd (cc)
>>=-eq-returned waiting f h = absurd (cc)
>>=-eq-returned fault f h = absurd (cc)
>>=-eq-returned exited f h = absurd (cc)
>>=-eq-returned (returned a) f h = (a, refl, h)

pub returned_inj {ℓ} : {A : Type ℓ} {a b : A} → returned a ≡ returned b → a ≡ b
returned_inj {a = a} h = ap (λ m. elim m [ returned x ↦ x | _ ↦ a ]) h
