-- ===== src/Iface/Registry/Keeps.antt =====
-- The registry of drivers (src/iface/iface.c) over the calls of `canmat_iface_new`.
use socanmatic.Base.{
  ℕ, ◌≡◌, ◌≢◌, inl, inr, refl, Bool-cases, Option-cases, true, false, List, [], ◌∷◌, ◌++◌, Option,
  none, some, ==-refl, ==→eq, ◌==◌, sym, ap,
}
use mathlib.Core.Path.{subst}
use socanmatic.Dict.Print.{same_text}
use socanmatic.Iface.Registry.{
  Loader, FunDesc, lookup, load, register, find_symbol, iface_new, prefix, suffix,
}

same_text_refl : (xs : List ℕ) → same_text xs xs ≡ true
same_text_refl [] = refl
same_text_refl (x ∷ xs) = rw (==-refl x, same_text_refl xs) refl

same_text-eq : (xs ys : List ℕ) → same_text xs ys ≡ true → xs ≡ ys
same_text-eq [] [] h = refl
same_text-eq [] (y ∷ ys) h = absurd (cc)
same_text-eq (x ∷ xs) [] h = absurd (cc)
same_text-eq (x ∷ xs) (y ∷ ys) h = elim (Bool-cases (x == y)) [
  | inl t ↦
      let first : x ≡ y = ==→eq x y t in let rest : xs ≡ ys = same_text-eq xs ys (rw (t) at h) in cc
  | inr t ↦ absurd (cc (rw (t) at h))
]

module _ (l : Loader) where
  open l use {State, Handle, Fun, Made, dlopen, dlsym, call}

  -- No driver of the registry has this type.
  abbrev pub Absent : List ℕ → List (FunDesc l) → Type 0
  Absent type [] = Unit
  Absent type (d ∷ ds) = (type ≢ d.type_name) × Absent type ds

  -- No two drivers have the same type.
  abbrev pub IsRegistry : List (FunDesc l) → Type 0
  IsRegistry [] = Unit
  IsRegistry (d ∷ ds) = Absent d.type_name ds × IsRegistry ds

  -- The registry `after` has everything that `before` has, where the search finds it.
  abbrev pub Extends : List (FunDesc l) → List (FunDesc l) → Type 0
  Extends before after =
      (type : List ℕ) (d : FunDesc l) → lookup l type before ≡ some d → lookup l type after ≡ some d

  lookup-Absent :
      (type : List ℕ) (desc : List (FunDesc l)) → lookup l type desc ≡ none → Absent type desc
  unfolding lookup
  lookup-Absent type [] h = tt
  lookup-Absent type (d ∷ ds) h = elim (Bool-cases (same_text type d.type_name)) [
    | inl t ↦ absurd (cc (rw (t) at h))
    | inr t ↦ (
      λ q.
          absurd
            (cc (subst (λ x. same_text x d.type_name ≡ false) q t, same_text_refl d.type_name)),
      lookup-Absent type ds (rw (t) at h),
    )
  ]

  registered-Extends :
      (type : List ℕ) (f : Fun) (desc : List (FunDesc l))
      → lookup l type desc ≡ none
      → Extends desc (record { type_name = type; fun = f } ∷ desc)
  unfolding lookup
  registered-Extends type f desc h other d found = elim (Bool-cases (same_text other type)) [
    | inl t ↦ let same : other ≡ type = same_text-eq other type t in absurd (cc (found, h, same))
    | inr t ↦ rw (t) found
  ]

  abbrev Kept : List (FunDesc l) → List (FunDesc l) → Type 0
  Kept before after = IsRegistry after × Extends before after

  -- What a load leaves of a registry that lacks the type.
  module _ (type : List ℕ) (desc : List (FunDesc l)) (h : lookup l type desc ≡ none)
      (v : IsRegistry desc) where
    register-Kept : (out : Option Fun × State) → Kept desc (register l type desc out).0
    register-Kept (none, s) = (v, λ other d found. found)
    register-Kept (some f, s) = ((lookup-Absent type desc h, v), registered-Extends type f desc h)

    find_symbol-Kept : (out : Option Handle × State) → Kept desc (find_symbol l type desc out).0
    find_symbol-Kept (none, s) = (v, λ other d found. found)
    find_symbol-Kept (some p, s) = register-Kept (dlsym s p)

    load-Kept : (s : State) → Kept desc (load l type desc s).0
    unfolding load
    load-Kept s = find_symbol-Kept (dlopen s (prefix l ++ (type ++ suffix l)))

  -- A driver that the search finds is called, and nothing else happens.
  iface_new-found :
      (type : List ℕ) (d : FunDesc l) (desc : List (FunDesc l)) (s : State)
      → lookup l type desc ≡ some d
      → iface_new l type desc s ≡ (call s d.fun, desc)
  unfolding iface_new
  iface_new-found type d desc s e = rw (e, iface_new) refl

  iface_new-missing :
      (type : List ℕ) (desc : List (FunDesc l)) (s : State)
      → lookup l type desc ≡ none
      → (iface_new l type desc s).1 ≡ (load l type desc s).0
  unfolding iface_new
  iface_new-missing type desc s e = rw (e, iface_new) refl

  new-Kept :
      (type : List ℕ) (desc : List (FunDesc l)) (s : State)
      → IsRegistry desc
      → Kept desc (iface_new l type desc s).1
  new-Kept type desc s v = elim (Option-cases (lookup l type desc)) [
    | inl e ↦
        subst (λ q. Kept desc q) (sym (iface_new-missing type desc s e)) (load-Kept type desc e v s)
    | inr (d, e) ↦
        subst (λ (q : List (FunDesc l)). Kept desc q)
          (sym (ap (λ q. q.1) (iface_new-found type d desc s e))) (v, λ other d' found. found)
  ]

  -- The registry holds the driver.
  pub data In (d : FunDesc l) : List (FunDesc l) → Type 0 where
    first : {ds : List (FunDesc l)} → In d (d ∷ ds)
    further : {e : FunDesc l} {ds : List (FunDesc l)} → In d ds → In d (e ∷ ds)

  -- The registry after some calls of `canmat_iface_new`, each in any state of the process.
  pub data Later (before : List (FunDesc l)) : List (FunDesc l) → Type 0 where
    here : Later before before
    next :
        {desc : List (FunDesc l)} (type : List ℕ) (s : State)
        → Later before desc
        → Later before (iface_new l type desc s).1

  Absent-In :
      {d : FunDesc l} {desc : List (FunDesc l)} (type : List ℕ)
      → Absent type desc
      → In d desc
      → type ≢ d.type_name
  Absent-In type a first = a.0
  Absent-In type a (further i) = Absent-In type a.1 i

  lookup-In :
      {d : FunDesc l} {desc : List (FunDesc l)}
      → IsRegistry desc
      → In d desc
      → lookup l d.type_name desc ≡ some d
  unfolding lookup
  lookup-In {d} v first = rw (same_text_refl d.type_name) refl
  lookup-In {d} v (further {e} i) = elim (Bool-cases (same_text d.type_name e.type_name)) [
    | inl t ↦ absurd (Absent-In e.type_name v.0 i (sym (same_text-eq d.type_name e.type_name t)))
    | inr t ↦ rw (t) (lookup-In v.1 i)
  ]

  Later-Kept :
      {before after : List (FunDesc l)} → IsRegistry before → Later before after → Kept before after
  Later-Kept v here = (v, λ other d found. found)
  Later-Kept v (next type s w) =
      let (v1, e1) = Later-Kept v w in
      let (v2, e2) = new-Kept type _ s v1 in (v2, λ other d found. e2 other d (e1 other d found))

  -- From a registry in which no two drivers have the same type, any calls of `canmat_iface_new`, each
  -- in any state of the process and whatever the loader answers, lead to such a registry; and for
  -- the type of a driver that was in it, one more call is only a call of that driver's constructor:
  -- nothing is loaded, and the registry stays as it is.
  pub IsRegistry-Later :
      (before after : List (FunDesc l)) (d : FunDesc l) (s : State)
      → IsRegistry before
      → In d before
      → Later before after
      → IsRegistry after × (iface_new l d.type_name after s ≡ (call s d.fun, after))
  IsRegistry-Later before after d s v i w =
      let (v', kept) = Later-Kept v w in
      (v', iface_new-found d.type_name d after s (kept d.type_name d (lookup-In v i)))
