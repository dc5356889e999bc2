-- ===== src/Sdo/Decode/Length.antt =====
-- How long a message that `canmat_can2sdo` (src/sdo.c) decodes is, abort or not.
use socanmatic.Base.{◌≤◌, ◌≡◌, inl, inr, Bool, true, false, ◌||◌, arith, Bool-cases, ltb, ◌==◌}
use socanmatic.Bus.{is_ok}
use socanmatic.Can.{CanFrame, Status, frame_func}
use socanmatic.Can.FuncCode
use socanmatic.DataType.{DataType, Size, four, two, one, zero_bytes, unsupported}
use socanmatic.Sdo.Command.{cs_abort, can2sdo_cmd_ex}
use socanmatic.Sdo.Decode.{can2sdo, get_cmd, get_ids, get_data}
use socanmatic.Sdo.Encode.{sends_nothing, sends_data}
use socanmatic.Sdo.Msg.{SdoMsg}
use socanmatic.Sdo.Typed.{is_abort}

-- The frame is decoded, as a transfer or as an abort.
abbrev pub taken : Status → Bool
taken r = is_ok r || is_abort r

get_data_length :
    (dst : SdoMsg) (f : CanFrame) (size : Size)
    → taken ((get_data dst f size).0) ≡ true
    → (get_data dst f size).1.length ≤ 4
unfolding get_data
get_data_length dst f four h = ground arith
get_data_length dst f two h = ground arith
get_data_length dst f one h = ground arith
get_data_length dst f zero_bytes h = ground arith
get_data_length dst f unsupported h = absurd (cc)

get_cmd_length :
    (is_tx : Bool) (dst : SdoMsg) (f : CanFrame) (t : DataType)
    → taken ((get_cmd is_tx dst f t).0) ≡ true
    → (get_cmd is_tx dst f t).1.length ≤ 4
unfolding get_cmd get_ids
get_cmd_length is_tx dst f t h = elim (Bool-cases (cs_abort == (can2sdo_cmd_ex f.d0).cs)) [
  | inl a ↦ rw (a) (get_data_length _ f _ (rw (a, get_cmd, get_ids) at h))
  | inr a ↦ elim (Bool-cases (sends_nothing is_tx (can2sdo_cmd_ex f.d0).cs)) [
    | inl b ↦ rw (a, b) (get_data_length _ f _ (rw (a, b, get_cmd, get_ids) at h))
    | inr b ↦ elim (Bool-cases (sends_data is_tx (can2sdo_cmd_ex f.d0).cs)) [
      | inl c ↦ rw (a, b, c) (get_data_length _ f _ (rw (a, b, c, get_cmd, get_ids) at h))
      | inr c ↦ absurd (ground (arith, a, b, c))
    ]
  ]
]

-- Such a message has at most four bytes.
pub can2sdo_length :
    (dst : SdoMsg) (f : CanFrame) (t : DataType)
    → taken ((can2sdo dst f t).0) ≡ true
    → (can2sdo dst f t).1.length ≤ 4
unfolding can2sdo
can2sdo_length dst f t h = elim (Bool-cases (ltb f.can_dlc 4)) [
  | inl a ↦ absurd (ground (arith, a))
  | inr a ↦ elim (Bool-cases (FuncCode.sdo_tx == frame_func f)) [
    | inl b ↦ rw (a, b) (get_cmd_length true dst f t (rw (a, b, can2sdo) at h))
    | inr b ↦ elim (Bool-cases (FuncCode.sdo_rx == frame_func f)) [
      | inl c ↦ rw (a, b, c) (get_cmd_length false dst f t (rw (a, b, c, can2sdo) at h))
      | inr c ↦ absurd (ground (arith, a, b, c))
    ]
  ]
]
