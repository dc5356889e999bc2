-- ===== src/Byteorder/Tests.antt =====
-- Runs of the byte order functions.
use socanmatic.Base.{◌≡◌, refl, arith}
use socanmatic.Byteorder.{stle32, stle16, stle8, ldle32, ldle16, ldle8}
use socanmatic.Byteorder.RoundTrip.{ldle-stle}

stle32_order : stle32 0x12345678 ≡ record { q0 = 0x78; q1 = 0x56; q2 = 0x34; q3 = 0x12 }
unfolding stle32
stle32_order = refl

ldle16_order : ldle16 (record { q0 = 0x34; q1 = 0x12 }) ≡ 0x1234
unfolding ldle16
ldle16_order = refl

one_byte : ldle8 (stle8 0x1ff) ≡ 0xff
unfolding ldle8 stle8
one_byte = refl

ldle-stle_example : (ldle32 (stle32 0xDEADBEEF) ≡ 0xDEADBEEF) × (ldle16 (stle16 0xCAFE) ≡ 0xCAFE)
ldle-stle_example = ldle-stle 0xDEADBEEF 0xCAFE (omega arith) (omega arith)
