-- ===== src/Can402/First.antt =====
-- Properties of the first drives of the array through the loops over it.
use socanmatic.Base.{ℕ, zero, suc, length, ap, ◌≡◌, refl, List, [], ◌∷◌}
pub use socanmatic.Run.{returned_inj}
use socanmatic.Run.{Run, returned, >>=-eq-returned}
use socanmatic.Can402.{each, each2}
use mathlib.Core.Path.{subst}
use Prim.{Unit}

module _ {A : Type 0} where
  -- The first `n` elements satisfy `P`.
  abbrev pub FirstAll : (A → Type 0) → ℕ → List A → Type 0
  FirstAll P zero xs = Unit
  FirstAll P (suc n) [] = Unit
  FirstAll P (suc n) (x ∷ xs) = P x × FirstAll P n xs

  -- The first `n` elements go through `g`.
  abbrev pub map_first : ℕ → (A → A) → List A → List A
  map_first zero g xs = xs
  map_first (suc n) g [] = []
  map_first (suc n) g (x ∷ xs) = g x ∷ map_first n g xs

pub map_first-twice :
    {A : Type 0} (n : ℕ) (g h : A → A) (xs : List A)
    → map_first n g (map_first n h xs) ≡ map_first n (λ x. g (h x)) xs
map_first-twice zero g h xs = refl
map_first-twice (suc n) g h [] = refl
map_first-twice (suc n) g h (x ∷ xs) = ap (λ ys. g (h x) ∷ ys) (map_first-twice n g h xs)

pub length-map_first :
    {A : Type 0} (n : ℕ) (g : A → A) (xs : List A) → length (map_first n g xs) ≡ length xs
length-map_first zero g xs = refl
length-map_first (suc n) g [] = refl
length-map_first (suc n) g (x ∷ xs) = ap suc (length-map_first n g xs)

module _ {A S : Type 0} (P : A → Type 0) (body : A → S → Run (A × S)) where
  -- A loop whose body keeps `P` keeps it for the first elements.
  pub each-FirstAll :
      ((x : A) (s : S) (o : A × S) → body x s ≡ returned o → P x → P o.0)
      → (k n : ℕ) (xs : List A) (s : S) (r : List A × S) → each body n xs s ≡ returned r
      → FirstAll P k xs
      → FirstAll P k r.0
  unfolding each
  each-FirstAll keeps k zero xs s r h all =
      subst (λ (o : List A × S). FirstAll P k o.0) (returned_inj h) all
  each-FirstAll keeps k (suc n) [] s r h all = absurd (cc)
  each-FirstAll keeps zero (suc n) (x ∷ xs) s r h all = _
  each-FirstAll keeps (suc k) (suc n) (x ∷ xs) s r h all =
      let (o, e, h1) = >>=-eq-returned (body x s) _ h in
      let (rest, e2, h2) = >>=-eq-returned (each body n xs o.1) _ h1 in
      subst (λ (q : List A × S). FirstAll P (suc k) q.0) (returned_inj h2)
        (keeps x s o e all.0, each-FirstAll keeps k n xs o.1 rest e2 all.1)

module _ {A B S : Type 0} (P : A → Type 0) (body : A → B → S → Run (A × S)) where
  -- The same for the loop over two arrays.
  pub each2-FirstAll :
      ((x : A) (y : B) (s : S) (o : A × S) → body x y s ≡ returned o → P x → P o.0)
      → (k n : ℕ) (xs : List A) (ys : List B) (s : S) (r : List A × S)
      → each2 body n xs ys s ≡ returned r
      → FirstAll P k xs
      → FirstAll P k r.0
  unfolding each2
  each2-FirstAll keeps k zero xs ys s r h all =
      subst (λ (o : List A × S). FirstAll P k o.0) (returned_inj h) all
  each2-FirstAll keeps k (suc n) [] ys s r h all = absurd (cc)
  each2-FirstAll keeps k (suc n) (x ∷ xs) [] s r h all = absurd (cc)
  each2-FirstAll keeps zero (suc n) (x ∷ xs) (y ∷ ys) s r h all = _
  each2-FirstAll keeps (suc k) (suc n) (x ∷ xs) (y ∷ ys) s r h all =
      let (o, e, h1) = >>=-eq-returned (body x y s) _ h in
      let (rest, e2, h2) = >>=-eq-returned (each2 body n xs ys o.1) _ h1 in
      subst (λ (q : List A × S). FirstAll P (suc k) q.0) (returned_inj h2)
        (keeps x y s o e all.0, each2-FirstAll keeps k n xs ys o.1 rest e2 all.1)
