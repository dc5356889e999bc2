-- ===== src/Can/Cobid.antt =====
-- The two parts of a COB-ID (include/socanmatic/ds301.h): what `canmat_frame_func` and
-- `canmat_frame_node` take from a CAN identifier.
use socanmatic.Base.{ℕ, ◌+◌, ◌*◌, ◌/◌, ◌%◌, ◌^◌, ◌<◌, ◌≡◌, arith, bit_or, bit_and_high, bit_and_low}
use socanmatic.Base.{bit_or_low_high}
use socanmatic.Can.{CanFrame, frame_func, frame_node, node_part}

-- The function code of a frame is the multiple of 128 below its low 16 identifier bits.
pub frame_func-eq_div : (f : CanFrame) → frame_func f ≡ f.can_id / 2 ^ 7 % 2 ^ 9 * 2 ^ 7
unfolding frame_func
frame_func-eq_div f =
    ground (arith, bit_and_high 7 f.can_id 0x1FF, bit_and_low 9 (f.can_id / 2 ^ 7))

-- Function code and node number together are the low 16 bits of the identifier, none of them
-- counted twice.
pub frame_func-add-frame_node : (f : CanFrame) → frame_func f + frame_node f ≡ f.can_id % 2 ^ 16
unfolding frame_node
frame_func-add-frame_node f = omega (arith, frame_func-eq_div f)

-- A COB-ID made from a function code that is a multiple of 128 is the sum of its parts.
pub cobid_sum : (node c : ℕ) → bit_or (node_part node) (c * 2 ^ 7) ≡ c * 2 ^ 7 + node_part node
cobid_sum node c = omega (arith, bit_or_low_high 7 (node % 2 ^ 7) c (omega arith))

-- A frame whose identifier is `c * 128` with a node number below 128 put in by `|`, as the
-- `CANMAT_SDO_*_ID` macros do, has that function code and that node, for codes below 2^9.
pub frame_func-cobid :
    (f : CanFrame) (node c : ℕ)
    → c < 2 ^ 9
    → f.can_id ≡ bit_or (node_part node) (c * 2 ^ 7)
    → (frame_func f ≡ c * 2 ^ 7) × (frame_node f ≡ node_part node)
unfolding frame_node
frame_func-cobid f node c h e = omega (arith, frame_func-eq_div f, cobid_sum node c)
