-- ===== src/Dict/Search.antt =====
-- The searches of the object dictionary (src/dict.c). The C library's `bsearch` and `strcasecmp` are
-- parameters.
pub mod Finds
pub mod Linear
mod Tests
use socanmatic.Base.{
  ℕ, ◌-◌, ◌*◌, ◌^◌, ◌<◌, ◌≡◌, bit_or, true, Option, none, some, List, get_elem?, leb, if◌then◌else◌,
}
use socanmatic.Base.Int.{ℤ, pos, negsuc, le_int}
use socanmatic.Dict.{Obj}
use socanmatic.Run.{Run, fault, returned}

-- `canmat_dict_name_tree_t`
pub record NameEntry : Type 0 where
  pub parameter_name : List ℕ
  pub i : ℕ

-- `canmat_dict_t`; both arrays have `length` elements.
pub record Dictionary : Type 0 where
  pub btree_name : List NameEntry
  pub objs : List Obj

-- The array is in the order that `bsearch` asks for: what `compar` gives for the key and an element
-- falls along it.
abbrev pub InOrder : {A : Type 0} → (A → ℤ) → List A → Type 0
InOrder {A} compar xs =
    (i j : ℕ) (a b : A)
    → i < j
    → get_elem? xs i ≡ some a
    → get_elem? xs j ≡ some b
    → le_int (compar b) (compar a) ≡ true

-- `bsearch`, given `compar` at its key. What it finds is an element that compares equal, and in an
-- array in order it finds one if there is any.
pub record BinarySearch : Type 1 where
  pub bsearch : {A : Type 0} → (A → ℤ) → List A → Option A
  pub bsearch_found :
      {A : Type 0} (compar : A → ℤ) (xs : List A) (a : A)
      → bsearch compar xs ≡ some a
      → (i : ℕ) × (get_elem? xs i ≡ some a) × (compar a ≡ pos 0)
  pub bsearch_finds :
      {A : Type 0} (compar : A → ℤ) (xs : List A) (i : ℕ) (a : A)
      → InOrder compar xs
      → get_elem? xs i ≡ some a
      → compar a ≡ pos 0
      → (b : A) × (bsearch compar xs ≡ some b)

-- `a - b`
abbrev pub diff : ℕ → ℕ → ℤ
diff a b = if leb b a then pos (a - b) else negsuc (b - a - 1)

-- `(index << 8) | subindex`
abbrev pub obj_key : ℕ → ℕ → ℕ
obj_key index subindex = bit_or (index * 2 ^ 8) subindex

unfoldable pub dict_compar_index : ℕ → Obj → ℤ
dict_compar_index key obj = diff key (obj_key obj.index obj.subindex)

unfoldable pub dict_compar_name : (List ℕ → List ℕ → ℤ) → List ℕ → NameEntry → ℤ
dict_compar_name strcasecmp name b = strcasecmp name b.parameter_name

module _ (bs : BinarySearch) (dict : Dictionary) where
  -- `canmat_dict_search_index`
  unfoldable pub search_index : ℕ → ℕ → Option Obj
  search_index idx subindex = bs.bsearch (dict_compar_index (obj_key idx subindex)) dict.objs

  -- `dict->obj + p->i`
  unfoldable pub obj_at : ℕ → Run (Option Obj)
  obj_at i = elim (get_elem? dict.objs i) [ none ↦ fault | some obj ↦ returned (some obj) ]

  -- `canmat_dict_search_name`
  unfoldable pub search_name : (List ℕ → List ℕ → ℤ) → List ℕ → Run (Option Obj)
  search_name strcasecmp name =
      elim (bs.bsearch (dict_compar_name strcasecmp name) dict.btree_name) [
        | none ↦ returned none
        | some p ↦ obj_at p.i
      ]
