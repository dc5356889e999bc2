-- ===== src/Iface.antt =====
-- The interface object that a driver works on (include/socanmatic/iface.h).
pub mod Esd
pub mod Kernel
pub mod Registry
use socanmatic.Base.{Bool, true, false}
use socanmatic.Base.Int.{ℤ}

-- Which driver's table `vtable` points to.
pub data Vtable : Type 0 where
  esd_vtable kernel_vtable other_vtable : Vtable

-- `struct canmat_iface`; the drivers keep errors of different kinds in `err`.
pub record Iface (E : Type 0) : Type 0 where
  pub vtable : Vtable
  pub fd : ℤ
  pub err : E

abbrev pub is_esd : Vtable → Bool
is_esd esd_vtable = true
is_esd _ = false

abbrev pub is_kernel : Vtable → Bool
is_kernel kernel_vtable = true
is_kernel _ = false
