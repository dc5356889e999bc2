-- ===== src/Dict/Search/Tests.antt =====
-- A dictionary of two objects.
use socanmatic.Base.{ℕ, zero, suc, ◌+◌, ◌*◌, ◌^◌, ◌<◌, ◌≡◌, ◌↔◌, [], ◌∷◌, some, get_elem?, arith}
use socanmatic.DataType.{unsigned16, integer8}
use socanmatic.Dict.{Obj}
use socanmatic.Dict.Search.{Dictionary, search_index}
use socanmatic.Dict.Search.Finds.{IsSorted, IsStored, search_index-eq_some}
use socanmatic.Dict.Search.Linear.{linear}

abbrev control : Obj
control = record {
  index = 0x6040;
  subindex = 0;
  parameter_name = [];
  sub_number = 0;
  access_type = 0;
  object_type = 7;
  data_type = unsigned16;
  pdo_mapping = 1;
}

abbrev op_mode : Obj
op_mode = record control { index = 0x6060; data_type = integer8 }

abbrev pair : Dictionary
pair = record { btree_name = []; objs = control ∷ op_mode ∷ [] }

pair-IsSorted : IsSorted pair
pair-IsSorted = record { index_in = ranges; ascending = ascends }
  where
    ranges :
        (i : ℕ) (o : Obj)
        → get_elem? pair.objs i ≡ some o
        → (o.index < 2 ^ 16) × (o.subindex < 2 ^ 8)
    ranges zero o h = ground (arith, h)
    ranges (suc zero) o h = ground (arith, h)
    ranges (suc (suc i)) o h = absurd (cc)

    ascends :
        (i j : ℕ) (o p : Obj)
        → i < j
        → get_elem? pair.objs i ≡ some o
        → get_elem? pair.objs j ≡ some p
        → o.index * 2 ^ 8 + o.subindex < p.index * 2 ^ 8 + p.subindex
    ascends zero zero o p l h k = absurd (omega arith)
    ascends zero (suc zero) o p l h k = ground (arith, h, k)
    ascends zero (suc (suc j)) o p l h k = absurd (cc)
    ascends (suc zero) zero o p l h k = absurd (omega arith)
    ascends (suc zero) (suc zero) o p l h k = absurd (omega arith)
    ascends (suc zero) (suc (suc j)) o p l h k = absurd (cc)
    ascends (suc (suc i)) j o p l h k = absurd (cc)

search_index-eq_some_example :
    (search_index linear pair 0x6060 0 ≡ some op_mode)
    ↔ IsStored linear pair pair-IsSorted 0x6060 0 (omega arith) op_mode
search_index-eq_some_example =
    search_index-eq_some linear pair pair-IsSorted 0x6060 0 (omega arith) op_mode
