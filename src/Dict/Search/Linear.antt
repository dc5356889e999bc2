-- ===== src/Dict/Search/Linear.antt =====
-- A `bsearch` that searches from the start keeps the contract.
use socanmatic.Base.{
  ℕ, zero, suc, ◌≡◌, refl, inl, inr, true, ==→eq, Bool-cases, Option, none, some, List, [], ◌∷◌,
  get_elem?, ap, ◌∙◌, if◌then◌else◌,
}
use mathlib.Core.Path.{subst}
use socanmatic.Base.Int.{ℤ, pos, negsuc, same_int}
use socanmatic.Dict.Search.{BinarySearch}

module _ {A : Type 0} (compar : A → ℤ) where
  abbrev pub find_equal : List A → Option A
  find_equal [] = none
  find_equal (x ∷ xs) =
      let rest = find_equal xs in if same_int (compar x) (pos 0) then some x else rest

  same_zero : (z : ℤ) → same_int z (pos 0) ≡ true → z ≡ pos 0
  same_zero (pos n) h = ap pos (==→eq n 0 h)
  same_zero (negsuc n) h = absurd (cc)

  pub find_found :
      (xs : List A) (a : A)
      → find_equal xs ≡ some a
      → (i : ℕ) × (get_elem? xs i ≡ some a) × (compar a ≡ pos 0)
  find_found [] a h = absurd (cc)
  find_found (x ∷ xs) a h = elim (Bool-cases (same_int (compar x) (pos 0))) [
    | inl e ↦
        let same : some x ≡ some a = rw (e) at h in
        (0, same, subst (λ (o : Option A). Fits o) same (same_zero (compar x) e))
    | inr e ↦ let (i, at, z) = find_found xs a (rw (e) at h) in (suc i, at, z)
  ]
    where
      Fits : Option A → Type 0
      Fits none = compar x ≡ pos 0
      Fits (some b) = compar b ≡ pos 0

  some_inj : {a b : A} → some a ≡ some b → a ≡ b
  some_inj {a} h = ap (λ o. elim o [ none ↦ a | some x ↦ x ]) h

  pub find_finds :
      (xs : List A) (i : ℕ) (a : A)
      → get_elem? xs i ≡ some a
      → compar a ≡ pos 0
      → (b : A) × (find_equal xs ≡ some b)
  find_finds [] i a h z = absurd (cc)
  find_finds (x ∷ xs) zero a h z =
      let zero_x : compar x ≡ pos 0 = ap compar (some_inj h) ∙ z in (x, rw (zero_x) refl)
  find_finds (x ∷ xs) (suc i) a h z = elim (Bool-cases (same_int (compar x) (pos 0))) [
    | inl e ↦ (x, rw (e) refl)
    | inr e ↦ let (b, found) = find_finds xs i a h z in (b, rw (e) found)
  ]

abbrev pub linear : BinarySearch
linear = record {
  bsearch = find_equal;
  bsearch_found = find_found;
  bsearch_finds = λ compar xs i a order h z. find_finds compar xs i a h z;
}
