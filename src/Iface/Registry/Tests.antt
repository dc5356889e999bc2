-- ===== src/Iface/Registry/Tests.antt =====
-- A loader that knows one driver, and whose state counts the objects that its constructor made.
use socanmatic.Base.{ℕ, ◌+◌, ◌≡◌, refl, List, [], ◌∷◌, some, none, if◌then◌else◌}
use socanmatic.Dict.Print.{same_text}
use socanmatic.Iface.Registry.{Loader, FunDesc, iface_new, lookup, load}
use socanmatic.Iface.Registry.Keeps.{IsRegistry, first, Later, here, next, IsRegistry-Later}

-- The file of the driver "a"
abbrev file_a : List ℕ
file_a =
    108 ∷ 105 ∷ 98 ∷ 115 ∷ 111 ∷ 99 ∷ 97 ∷ 110 ∷ 109 ∷ 97 ∷ 116 ∷ 105 ∷ 99 ∷ 95 ∷ 105 ∷ 102 ∷ 97
    ∷ 99 ∷ 101 ∷ 95 ∷ 97 ∷ 46 ∷ 115 ∷ 111 ∷ []

abbrev one_driver : Loader
one_driver = record {
  State = ℕ;
  Handle = ℕ;
  Fun = ℕ;
  Made = ℕ;
  dlopen = λ s file. (if same_text file file_a then some 3 else none, s);
  dlsym = λ s p. (some (p + 4), s);
  call = λ s f. (some s, s + 1);
}

abbrev driver_a : FunDesc one_driver
driver_a = record { type_name = 97 ∷ []; fun = 7 }

-- The first call loads the driver and makes the object 5, one for the type "b" fails, and the next
-- for "a" makes another object.
loaded : iface_new one_driver (97 ∷ []) [] 5 ≡ ((some 5, 6), driver_a ∷ [])
unfolding iface_new lookup load
loaded = refl

not_loaded : iface_new one_driver (98 ∷ []) (driver_a ∷ []) 6 ≡ ((none, 6), driver_a ∷ [])
unfolding iface_new lookup load
not_loaded = refl

after_b : Later one_driver (driver_a ∷ []) (iface_new one_driver (98 ∷ []) (driver_a ∷ []) 6).1
after_b = next (98 ∷ []) 6 here

IsRegistry-Later_example :
    IsRegistry one_driver (iface_new one_driver (98 ∷ []) (driver_a ∷ []) 6).1
    × (iface_new one_driver (97 ∷ []) (iface_new one_driver (98 ∷ []) (driver_a ∷ []) 6).1 6
        ≡ ((some 6, 7), (iface_new one_driver (98 ∷ []) (driver_a ∷ []) 6).1))
IsRegistry-Later_example =
    IsRegistry-Later one_driver (driver_a ∷ []) (iface_new one_driver (98 ∷ []) (driver_a ∷ []) 6).1
      driver_a 6 (tt, tt) first after_b
