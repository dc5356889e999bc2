-- ===== src/Iface/Esd/Tests.antt =====
-- The driver over the NTCAN library at a library whose state is the set of enabled identifiers.
use socanmatic.Base.{
  ℕ, ◌≡◌, refl, Bool, true, not, ◌&&◌, ◌||◌, List, [], ◌∷◌, ltb, ◌==◌, if◌then◌else◌,
}
use socanmatic.Base.Int.{negsuc}
use socanmatic.Can.{ok}
use socanmatic.Ntcan.{NtResult, success, invalid_parameter, Cmsg, Ntcan}
use socanmatic.Iface.{Iface, esd_vtable}
use socanmatic.Iface.Esd.{CanFilter, v_filter}
use socanmatic.Iface.Esd.Filter.{Deletes, wanted, v_filter-keeps}

abbrev zero_cmsg : Cmsg
zero_cmsg = record {
  id = 0;
  len = 0;
  b0 = 0;
  b1 = 0;
  b2 = 0;
  b3 = 0;
  b4 = 0;
  b5 = 0;
  b6 = 0;
  b7 = 0;
}

abbrev enabling : Ntcan
enabling = record {
  State = ℕ → Bool;
  can_write = λ s m. (success, s);
  can_read = λ s m. (success, m, s);
  can_id_add = λ s i. (success, λ j. s j || i == j);
  can_id_delete =
      λ s i. if s i then (success, λ j. s j && not (i == j)) else (invalid_parameter, s);
  can_open = λ s n. (success, s);
  can_close = λ s. (success, s);
  can_set_baudrate = λ s b. (success, s);
  stack_cmsg = λ s. zero_cmsg;
}

enabling-Deletes : Deletes enabling (λ s j. s j)
enabling-Deletes = record { succeeds = λ s i h. rw (h) refl; removes = λ s i j h. rw (h) refl }

abbrev opened : Iface NtResult
opened = record { vtable = esd_vtable; fd = negsuc 0; err = success }

-- The SDO responses
abbrev responses : List CanFilter
responses = record { filter_id = 0x580; filter_mask = 0x780 } ∷ []

v_filter-keeps_example :
    (s' : ℕ → Bool) × (v_filter enabling responses opened (λ j. true) ≡ (ok, opened, s'))
    × ((j : ℕ) → s' j ≡ (true && (ltb 0x7FF j || wanted j responses)))
v_filter-keeps_example =
    v_filter-keeps enabling (λ s j. s j) enabling-Deletes responses opened (λ j. true) (λ j h. refl)
