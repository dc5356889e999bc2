-- ===== src/Scalar/Wire.antt =====
-- A scalar's members through the little-endian stores and loads of a CAN frame
-- (include/socanmatic/byteorder.h, include/socanmatic/dict.h).
use socanmatic.Base.{◌^◌, ◌<◌, ◌≡◌, arith}
use socanmatic.Byteorder.{stle32, stle16, ldle32, ldle16}
use socanmatic.Byteorder.RoundTrip.{ldle-stle}
use socanmatic.Scalar.{Scalar, IsScalar, u8, u16, u32, set_u8, set_u16, set_u32}
use socanmatic.Scalar.Laws.{set_u32-u32, set_u16-u16, set_u8-u8}

u32-lt : (s : Scalar) → IsScalar s → u32 s < 2 ^ 32
unfolding u32
u32-lt s h = omega arith

u16-lt : (s : Scalar) → IsScalar s → u16 s < 2 ^ 16
unfolding u16
u16-lt s h = omega arith

module _ (s t : Scalar) (h : IsScalar t) where
  pub wire_u32 : set_u32 s (ldle32 (stle32 (u32 t))) ≡ t
  wire_u32 = rw (ldle-stle (u32 t) 0 (u32-lt t h) (omega arith)).0 (set_u32-u32 s t h)

  pub wire_u16 : set_u16 s (ldle16 (stle16 (u16 t))) ≡ record s { byte0 = t.byte0; byte1 = t.byte1 }
  wire_u16 = rw (ldle-stle 0 (u16 t) (omega arith) (u16-lt t h)).1 (set_u16-u16 s t h)

  pub wire_u8 : set_u8 s (u8 t) ≡ record s { byte0 = t.byte0 }
  wire_u8 = set_u8-u8 s t h
