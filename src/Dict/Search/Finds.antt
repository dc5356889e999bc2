-- ===== src/Dict/Search/Finds.antt =====
-- The search of the dictionary by index (src/dict.c) finds what the dictionary holds.
use socanmatic.Base.{
  ℕ, dec_lt, Bool-cases, ◌+◌, ◌*◌, ◌^◌, ◌<◌, ◌≡◌, ◌⊎◌, ◌↔◌, inl, inr, sym, ap, ◌∙◌, true, some,
  get_elem?, leb, arith, bit_or_disjoint,
}
use socanmatic.Base.Int.{pos, negsuc, le_int}
use socanmatic.Dict.{Obj}
use socanmatic.Dict.Search.{
  Dictionary, BinarySearch, InOrder, diff, obj_key, dict_compar_index, search_index,
}

-- The objects of the dictionary have indices in the range of their C types, and ascend by index and
-- subindex.
pub record IsSorted (dict : Dictionary) : Type 0 where
  pub index_in :
      (i : ℕ) (o : Obj) → get_elem? dict.objs i ≡ some o → (o.index < 2 ^ 16) × (o.subindex < 2 ^ 8)
  pub ascending :
      (i j : ℕ) (o p : Obj)
      → i < j
      → get_elem? dict.objs i ≡ some o
      → get_elem? dict.objs j ≡ some p
      → o.index * 2 ^ 8 + o.subindex < p.index * 2 ^ 8 + p.subindex

obj_key-eq_sum :
    (index subindex : ℕ) → subindex < 2 ^ 8 → obj_key index subindex ≡ index * 2 ^ 8 + subindex
obj_key-eq_sum index subindex h = bit_or_disjoint 8 index subindex h

pos_inj : {a b : ℕ} → pos a ≡ pos b → a ≡ b
pos_inj {a} h = ap (λ x. elim x [ pos n ↦ n | negsuc n ↦ a ]) h

diff_zero : (a b : ℕ) → diff a b ≡ pos 0 → a ≡ b
diff_zero a b h = elim (Bool-cases (leb b a)) [
  | inl le ↦ ground (arith, le, pos_inj (rw (le) at h))
  | inr gt ↦ absurd (cc (rw (gt) at h))
]

diff_falls : (k a b : ℕ) → a < b → le_int (diff k b) (diff k a) ≡ true
diff_falls k a b h = ground arith

diff_self : (a : ℕ) → diff a a ≡ pos 0
diff_self a = ground arith

-- Two numbers with a low byte are equal only if both parts are.
split_key :
    (a b c d : ℕ) → b < 2 ^ 8 → d < 2 ^ 8 → a * 2 ^ 8 + b ≡ c * 2 ^ 8 + d → (a ≡ c) × (b ≡ d)
split_key a b c d h k e = (omega arith, omega arith)

some_inj : {a b : Obj} → some a ≡ some b → a ≡ b
some_inj h = cc

lt_cases : (i j : ℕ) → (i < j) ⊎ ((j < i) ⊎ (i ≡ j))
lt_cases i j = elim (dec_lt i j) [
  | yes lt ↦ inl lt
  | no not_lt ↦ elim (dec_lt j i) [ yes gt ↦ inr (inl gt) | no not_gt ↦ inr (inr (omega arith)) ]
]

module _ (bs : BinarySearch) (dict : Dictionary) (sorted : IsSorted dict) (idx subindex : ℕ)
    (low : subindex < 2 ^ 8) where
  -- The object that the search is for
  abbrev pub IsStored : Obj → Type 0
  IsStored o =
      (i : ℕ) × (get_elem? dict.objs i ≡ some o) × (o.index ≡ idx) × (o.subindex ≡ subindex)

  in_order : InOrder (dict_compar_index (obj_key idx subindex)) dict.objs
  unfolding dict_compar_index
  in_order i j a b h ha hb =
      let (_, la) = sorted.index_in i a ha in
      let (_, lb) = sorted.index_in j b hb in
      diff_falls (obj_key idx subindex) (obj_key a.index a.subindex) (obj_key b.index b.subindex) (
        omega (
          arith,
          obj_key-eq_sum a.index a.subindex la,
          obj_key-eq_sum b.index b.subindex lb,
          sorted.ascending i j a b h ha hb,
        ))

  found : (o : Obj) → search_index bs dict idx subindex ≡ some o → IsStored o
  unfolding search_index dict_compar_index
  found o h =
      let (i, at, zero_diff) = bs.bsearch_found _ dict.objs o h in
      let (_, lo) = sorted.index_in i o at in
      let same = diff_zero _ _ zero_diff in
      let (e1, e2) = split_key o.index o.subindex idx subindex lo low (
        omega
          (arith, same, obj_key-eq_sum o.index o.subindex lo, obj_key-eq_sum idx subindex low)) in
      (i, at, e1, e2)

  -- Two objects with the same indices are one.
  same_object : (o p : Obj) → IsStored o → IsStored p → o ≡ p
  same_object o p (i, ai, e1, e2) (j, aj, f1, f2) = elim (lt_cases i j) [
    | inl lt ↦ absurd (omega (arith, sorted.ascending i j o p lt ai aj))
    | inr (inl gt) ↦ absurd (omega (arith, sorted.ascending j i p o gt aj ai))
    | inr (inr eq) ↦ some_inj (sym ai ∙ ap (get_elem? dict.objs) eq ∙ aj)
  ]

  is_found : (o : Obj) → IsStored o → search_index bs dict idx subindex ≡ some o
  unfolding search_index dict_compar_index
  is_found o (i, at, e1, e2) =
      let (_, lo) = sorted.index_in i o at in
      let same : obj_key idx subindex ≡ obj_key o.index o.subindex = cc in
      let zero_diff : dict_compar_index (obj_key idx subindex) o ≡ pos 0 =
        rw (same, dict_compar_index) (diff_self (obj_key o.index o.subindex)) in
      let (b, e) =
        bs.bsearch_finds (dict_compar_index (obj_key idx subindex)) dict.objs i o in_order at
          zero_diff in
      e ∙ ap some (same_object b o (found b e) (i, at, e1, e2))

  -- In a dictionary sorted by index and subindex, and with a `bsearch` that keeps its contract, the
  -- search by an index and a subindex of eight bits returns an object exactly if it is the
  -- dictionary's object with these two indices.
  pub search_index-eq_some : (o : Obj) → (search_index bs dict idx subindex ≡ some o) ↔ IsStored o
  search_index-eq_some o = (found o, is_found o)
