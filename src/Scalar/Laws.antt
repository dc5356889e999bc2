-- ===== src/Scalar/Laws.antt =====
-- Reading back what was stored in a `canmat_scalar`.
use socanmatic.Base.{ℕ, ◌%◌, ◌^◌, ◌≡◌, arith}
use socanmatic.Scalar.{Scalar, IsScalar, u8, u16, u32, set_u8, set_u16, set_u32}

module _ (s : Scalar) (v : ℕ) where
  pub u8-set_u8 : u8 (set_u8 s v) ≡ v % 2 ^ 8
  unfolding u8 set_u8
  u8-set_u8 = omega arith

  pub u16-set_u16 : u16 (set_u16 s v) ≡ v % 2 ^ 16
  unfolding u16 set_u16
  u16-set_u16 = omega arith

  pub u32-set_u32 : u32 (set_u32 s v) ≡ v % 2 ^ 32
  unfolding u32 set_u32
  u32-set_u32 = omega arith

  pub set_u8-IsScalar : IsScalar s → IsScalar (set_u8 s v)
  unfolding set_u8
  set_u8-IsScalar h = omega arith

  pub set_u16-IsScalar : IsScalar s → IsScalar (set_u16 s v)
  unfolding set_u16
  set_u16-IsScalar h = omega arith

  pub set_u32-IsScalar : IsScalar (set_u32 s v)
  unfolding set_u32
  set_u32-IsScalar = omega arith

-- Storing the members of one scalar into another copies that many bytes.
pub set_u32-u32 : (s t : Scalar) → IsScalar t → set_u32 s (u32 t) ≡ t
unfolding u32 set_u32
set_u32-u32 s t h = ground arith

pub set_u16-u16 :
    (s t : Scalar) → IsScalar t → set_u16 s (u16 t) ≡ record s { byte0 = t.byte0; byte1 = t.byte1 }
unfolding u16 set_u16
set_u16-u16 s t h = ground arith

pub set_u8-u8 : (s t : Scalar) → IsScalar t → set_u8 s (u8 t) ≡ record s { byte0 = t.byte0 }
unfolding u8 set_u8
set_u8-u8 s t h = ground arith
