-- ===== src/Sdo/Decode/Accepts.antt =====
-- Which frames `canmat_can2sdo` (src/sdo.c) accepts, and what it takes from an abort.
use socanmatic.Base.{ℕ, ◌/◌, ◌%◌, ◌^◌, ◌≤◌, ◌<◌, ◌≡◌, ◌⊎◌, inl, inr, Bool, true, false, arith}
use socanmatic.Base.{Bool-cases, ==→eq, ltb, ◌==◌, ap, sym, ◌∙◌, not, ◌||◌}
use socanmatic.Can.{CanFrame, Status, ok, err_abort, frame_func, node_part}
use socanmatic.Can.FuncCode
use socanmatic.Byteorder.{ldle32}
use socanmatic.DataType.{
  DataType, unsigned32, Size, four, two, one, zero_bytes, unsupported, size_case,
}
use socanmatic.Scalar.{Scalar, set_u32}
use socanmatic.Sdo.Msg.{SdoMsg}
use socanmatic.Sdo.Command.{cs_abort, can2sdo_cmd_ex}
use socanmatic.Sdo.Encode.{sends_nothing, sends_data}
use socanmatic.Sdo.Decode.{get_data, get_ids, get_cmd, can2sdo, can2sdo_index, can2sdo_subindex}

-- The bytes of data of a type that the library transfers.
abbrev pub Holds : SdoMsg → ℕ → Size → Type 0
Holds m dlc four = (m.length ≡ 4) × (8 ≤ dlc)
Holds m dlc two = (m.length ≡ 2) × (6 ≤ dlc)
Holds m dlc one = (m.length ≡ 1) × (5 ≤ dlc)
Holds m dlc zero_bytes = (m.length ≡ 0) × (4 ≤ dlc)
Holds m dlc unsupported = ⊥

-- Storing the data changes nothing else of the message.
kept :
    (dst m : SdoMsg) (t : Scalar) (r : Status)
    → ◌≡◌ {A = Status × SdoMsg} (r, record dst { scalar = t }) (ok, m)
    → (m.length ≡ dst.length) × (m.node ≡ dst.node) × (m.data_type ≡ dst.data_type)
kept dst m t r h =
    let e : record dst { scalar = t } ≡ m = ap (λ (p : Status × SdoMsg). p.1) h in
    (
      sym (ap (λ (x : SdoMsg). x.length) e),
      sym (ap (λ (x : SdoMsg). x.node) e),
      sym (ap (λ (x : SdoMsg). x.data_type) e),
    )

-- The check that both lengths pass before the data is read.
checked : (dlc need l k : ℕ) → (ltb dlc need || not (l == k)) ≡ false → (l ≡ k) × (need ≤ dlc)
checked dlc need l k h = ground arith

get_data_accepts :
    (dst m : SdoMsg) (f : CanFrame) (size : Size)
    → 4 ≤ f.can_dlc
    → get_data dst f size ≡ (ok, m)
    → Holds m f.can_dlc size × (m.node ≡ dst.node) × (m.data_type ≡ dst.data_type)
unfolding get_data
get_data_accepts dst m f four l h = elim (Bool-cases (ltb f.can_dlc 8 || not (dst.length == 4))) [
  | inl t ↦ absurd (cc (rw (t, get_data) at h))
  | inr t ↦
      let (len, node, type) = kept dst m _ _ (rw (t, get_data) at h) in
      let (k, need) = checked f.can_dlc 8 dst.length 4 t in ((len ∙ k, need), node, type)
]
get_data_accepts dst m f two l h = elim (Bool-cases (ltb f.can_dlc 6 || not (dst.length == 2))) [
  | inl t ↦ absurd (cc (rw (t, get_data) at h))
  | inr t ↦
      let (len, node, type) = kept dst m _ _ (rw (t, get_data) at h) in
      let (k, need) = checked f.can_dlc 6 dst.length 2 t in ((len ∙ k, need), node, type)
]
get_data_accepts dst m f one l h = elim (Bool-cases (ltb f.can_dlc 5 || not (dst.length == 1))) [
  | inl t ↦ absurd (cc (rw (t, get_data) at h))
  | inr t ↦
      let (len, node, type) = kept dst m _ _ (rw (t, get_data) at h) in
      let (k, need) = checked f.can_dlc 5 dst.length 1 t in ((len ∙ k, need), node, type)
]
get_data_accepts dst m f zero_bytes l h = elim (Bool-cases (dst.length == 0)) [
  | inl t ↦
      let (len, node, type) = kept dst m dst.scalar _ (rw (t, get_data) at h) in
      ((len ∙ ==→eq dst.length 0 t, l), node, type)
  | inr t ↦ absurd (cc (rw (t, get_data) at h))
]
get_data_accepts dst m f unsupported l h = absurd (cc)

abbrev Accepted : SdoMsg → CanFrame → Type 0
Accepted m f = Holds m f.can_dlc (size_case m.data_type) × (m.node < 128)

get_ids_accepts :
    (dst m : SdoMsg) (f : CanFrame) → 4 ≤ f.can_dlc → get_ids dst f ≡ (ok, m) → Accepted m f
unfolding get_ids
get_ids_accepts dst m f l h =
    let (fits, same_node, same_type) =
      get_data_accepts
        (record dst {
          node = node_part f.can_id;
          index = can2sdo_index f;
          subindex = can2sdo_subindex f;
        })
        m f (size_case dst.data_type) l h in
    (rw same_type fits, omega arith)

get_cmd_accepts :
    (is_tx : Bool) (dst m : SdoMsg) (f : CanFrame) (data_type : DataType)
    → 4 ≤ f.can_dlc
    → get_cmd is_tx dst f data_type ≡ (ok, m)
    → Accepted m f
unfolding get_cmd
get_cmd_accepts is_tx dst m f data_type l h =
    let cs = (can2sdo_cmd_ex f.d0).cs in
    elim (Bool-cases (cs_abort == cs)) [
      | inl a ↦ get_ids_accepts _ m f l (rw (a, get_cmd) at h)
      | inr a ↦ elim (Bool-cases (sends_nothing is_tx cs)) [
        | inl b ↦ get_ids_accepts _ m f l (rw (a, b, get_cmd) at h)
        | inr b ↦ elim (Bool-cases (sends_data is_tx cs)) [
          | inl c ↦ get_ids_accepts _ m f l (rw (a, b, c, get_cmd) at h)
          | inr c ↦ absurd (ground (arith, a, b, c))
        ]
      ]
    ]

at_least : (a b : ℕ) → ltb a b ≡ false → b ≤ a
at_least a b h = ground arith

-- A frame that is decoded without error is an SDO frame of either direction with at least four
-- bytes. The message's length is that of its type, the frame is long enough for it, its node is
-- below 128.
pub can2sdo_accepts :
    (dst m : SdoMsg) (f : CanFrame) (data_type : DataType)
    → can2sdo dst f data_type ≡ (ok, m)
    → Holds m f.can_dlc (size_case m.data_type)
      × (m.node < 128)
      × ((frame_func f ≡ FuncCode.sdo_tx) ⊎ (frame_func f ≡ FuncCode.sdo_rx))
unfolding can2sdo
can2sdo_accepts dst m f data_type h = elim (Bool-cases (ltb f.can_dlc 4)) [
  | inl short ↦ absurd (ground (arith, short))
  | inr long ↦ elim (Bool-cases (FuncCode.sdo_tx == frame_func f)) [
    | inl tx ↦
        let (fits, low) =
          get_cmd_accepts true dst m f data_type (at_least f.can_dlc 4 long)
            (rw (long, tx, can2sdo) at h) in
        (fits, low, inl (ground arith))
    | inr no_tx ↦ elim (Bool-cases (FuncCode.sdo_rx == frame_func f)) [
      | inl rx ↦
          let (fits, low) =
            get_cmd_accepts false dst m f data_type (at_least f.can_dlc 4 long)
              (rw (long, no_tx, rx, can2sdo) at h) in
          (fits, low, inr (ground arith))
      | inr no_rx ↦ absurd (ground (arith, long, no_tx, no_rx))
    ]
  ]
]

-- A frame of at least eight bytes from or to an SDO server whose command is an abort is decoded as
-- one whatever type the caller expects, and the message holds the four bytes of the abort code.
pub can2sdo_abort :
    (dst : SdoMsg) (f : CanFrame) (data_type : DataType)
    → (frame_func f ≡ FuncCode.sdo_tx) ⊎ (frame_func f ≡ FuncCode.sdo_rx)
    → 8 ≤ f.can_dlc
    → f.d0 / 2 ^ 5 % 2 ^ 3 ≡ cs_abort
    → can2sdo dst f data_type ≡ (
      err_abort,
      record {
        index = can2sdo_index f;
        subindex = can2sdo_subindex f;
        node = node_part f.can_id;
        cmd_spec = cs_abort;
        data_type = unsigned32;
        length = 4;
        scalar =
            set_u32 dst.scalar (ldle32 (record { q0 = f.d4; q1 = f.d5; q2 = f.d6; q3 = f.d7 }));
      },
    )
unfolding can2sdo can2sdo_cmd_ex size_case
can2sdo_abort dst f data_type (inl e) h a = ground arith
can2sdo_abort dst f data_type (inr e) h a = ground arith
