-- ===== src/Display/Shown.antt =====
-- What the frames that the library sends look like when they are printed (src/display.c, together
-- with src/sdo.c and src/nmt.c).
use socanmatic.Base.{
  ℕ, ◌≤◌, ◌<◌, ◌≡◌, refl, ◌∙◌, inl, inr, Bool, true, false, Option, none, some, [], ◌∷◌, arith,
  if◌then◌else◌, Bool-cases,
}
use socanmatic.Base.Int.{to_signed}
use socanmatic.Can.{CanFrame, ok, frame_node}
use socanmatic.DataType.{
  DataType, integer8, integer16, integer32, unsigned8, unsigned16, unsigned32, Size, four, two, one,
  zero_bytes, unsupported, size_case,
}
use socanmatic.Dict.{Obj}
use socanmatic.Display.{display}
use socanmatic.Display.Sdo.{
  display_sdo, display_msg, display_data, display_object, display_value, if_length, heading,
  type_for, name_for, scs2str, ccs2str,
}
use socanmatic.Out.{Output, Print, num, int, text, name, puts}
use socanmatic.Run.{Run, returned}
use socanmatic.Scalar.{u8, u16, u32}
use socanmatic.Sdo.Decode.{can2sdo}
use socanmatic.Sdo.Encode.{sdo2can, sends_data}
use socanmatic.Sdo.Encode.Ids.{Addressed, sdo2can-Addressed}
use socanmatic.Sdo.Msg.{SdoMsg, IsMsg}
use socanmatic.Sdo.RoundTrip.{carried, can2sdo-sdo2can}

-- How a message's value is printed: by its type, as C's `int` or in hexadecimal. `none` for the
-- types without a case of their own.
abbrev pub shown : DataType → SdoMsg → Option Print
shown integer8 m = some (record { format = " %d"; args = int (to_signed 8 (u8 m.scalar)) ∷ [] })
shown integer16 m = some (record { format = " %d"; args = int (to_signed 16 (u16 m.scalar)) ∷ [] })
shown integer32 m = some (record { format = " %d"; args = int (to_signed 32 (u32 m.scalar)) ∷ [] })
shown unsigned8 m = some (record { format = " 0x%x"; args = num (u8 m.scalar) ∷ [] })
shown unsigned16 m = some (record { format = " 0x%x"; args = num (u16 m.scalar) ∷ [] })
shown unsigned32 m = some (record { format = " 0x%x"; args = num (u32 m.scalar) ∷ [] })
shown _ m = none

-- The line that announces a message with data: its direction, its node, its command, the object's
-- name and the indices.
abbrev pub announced : Bool → Obj → SdoMsg → Print
announced is_tx obj m = record {
  format = "sdo %s, node %03x %s '%s' (%04x.%02x)";
  args =
      text (if is_tx then "tx" else "rx")
      ∷ num m.node
      ∷ text (if is_tx then "ex_ul" else "ex_dl")
      ∷ name obj.parameter_name
      ∷ num m.index
      ∷ num m.subindex
      ∷ [];
}

-- A printed value, moved along two equations between results.
along :
    (t : DataType) {x m : SdoMsg} {p q : Print}
    → some q ≡ some p
    → some x ≡ some m
    → display_value t x ≡ returned (q ∷ [])
    → display_value t m ≡ returned (p ∷ [])
along t h c e = cc

-- The value that arrives is printed as the one that was sent.
value_shown :
    (dst src m : SdoMsg) (t : DataType) (p : Print)
    → shown t src ≡ some p
    → carried dst src (size_case t) ≡ some m
    → display_value t m ≡ returned (p ∷ [])
unfolding display_value if_length size_case u8 u16 u32
value_shown dst src m integer8 p h c = along integer8 h c refl
value_shown dst src m integer16 p h c = along integer16 h c refl
value_shown dst src m integer32 p h c = along integer32 h c refl
value_shown dst src m unsigned8 p h c = along unsigned8 h c refl
value_shown dst src m unsigned16 p h c = along unsigned16 h c refl
value_shown dst src m unsigned32 p h c = along unsigned32 h c refl
value_shown dst src m _ p h c = absurd (cc)

-- A type that is printed by its value carries data.
carried-some :
    (dst src : SdoMsg) (t : DataType) (p : Print)
    → shown t src ≡ some p
    → (m : SdoMsg) × (carried dst src (size_case t) ≡ some m)
unfolding size_case
carried-some dst src integer8 p h = (_, refl)
carried-some dst src integer16 p h = (_, refl)
carried-some dst src integer32 p h = (_, refl)
carried-some dst src unsigned8 p h = (_, refl)
carried-some dst src unsigned16 p h = (_, refl)
carried-some dst src unsigned32 p h = (_, refl)
carried-some dst src _ p h = absurd (cc)

command_of : (is_tx : Bool) (cs : ℕ) → sends_data is_tx cs ≡ true → cs ≡ (if is_tx then 2 else 1)
command_of true cs h = ground arith
command_of false cs h = ground arith

heading-announced :
    (is_tx : Bool) (obj : Obj) (m : SdoMsg)
    → sends_data is_tx m.cmd_spec ≡ true
    → heading is_tx m.node (some obj) m ≡ announced is_tx obj m
unfolding heading name_for scs2str ccs2str
heading-announced true obj m h = rw (command_of true m.cmd_spec h) refl
heading-announced false obj m h = rw (command_of false m.cmd_spec h) refl

-- A message that carries data is not an abort, and its value is printed.
data_shown :
    (is_tx : Bool) (obj : Obj) (m : SdoMsg)
    → m.cmd_spec ≡ (if is_tx then 2 else 1)
    → display_data is_tx (some obj) m ≡ display_value obj.data_type m
unfolding display_data display_object
data_shown true obj m h = rw h refl
data_shown false obj m h = rw h refl

module _ (is_tx : Bool) (obj : Obj) (dst src : SdoMsg) where
  -- The heading tells nothing of the data.
  heading_kept :
      (size : Size) (m : SdoMsg)
      → carried dst src size ≡ some m
      → (heading is_tx src.node (some obj) m ≡ heading is_tx src.node (some obj) src)
        × (m.cmd_spec ≡ src.cmd_spec)
  unfolding heading
  heading_kept four m c = (cc, cc)
  heading_kept two m c = (cc, cc)
  heading_kept one m c = (cc, cc)
  heading_kept zero_bytes m c = absurd (cc)
  heading_kept unsupported m c = absurd (cc)

  msg_shown :
      (f : CanFrame) (m : SdoMsg) (p : Print)
      → frame_node f ≡ src.node
      → sends_data is_tx src.cmd_spec ≡ true
      → carried dst src (size_case obj.data_type) ≡ some m
      → shown obj.data_type src ≡ some p
      → display_msg is_tx (some obj) f (ok, m)
        ≡ returned (announced is_tx obj src ∷ p ∷ puts "\n" ∷ [])
  unfolding display_msg
  msg_shown f m p n d c h =
      let (same_heading, same_cmd) = heading_kept (size_case obj.data_type) m c in
      rw
        (
          data_shown is_tx obj m (same_cmd ∙ command_of is_tx src.cmd_spec d),
          value_shown dst src m obj.data_type p h c,
          n,
          same_heading,
          heading-announced is_tx obj src d,
        )
        refl

  frame_shown :
      (search : ℕ → ℕ → Option Obj) (f : CanFrame) (m : SdoMsg) (res : Run Output)
      → Addressed src is_tx f
      → search src.index src.subindex ≡ some obj
      → can2sdo dst f obj.data_type ≡ (ok, m)
      → display_msg is_tx (some obj) f (ok, m) ≡ res
      → display search dst f ≡ res
  unfolding display display_sdo type_for
  frame_shown search f m res (func, node, index, subindex) found decoded e =
      elim (Bool-cases is_tx) [
        | inl t ↦ rw (func, t, index, subindex, found, decoded) (rw (t) at e)
        | inr t ↦ rw (func, t, index, subindex, found, decoded) (rw (t) at e)
      ]

  -- The dictionary object found at the message's indices has the message's type, one of the six
  -- integer types of 8, 16 and 32 bits; the message carries data (a download request or an upload
  -- response) to or from a node below 128, with every field in range and a length of at most 4. Then
  -- encoding the message and printing the frame shows "tx" for a response and "rx" for a request,
  -- the node, "ex_ul" or "ex_dl", the object's name, the index and the subindex, and then the value
  -- that was sent, in decimal with its sign or in hexadecimal: what the local frame of the encoder
  -- and the local message of the printer hold before plays no part.
  pub display-sdo2can :
      (search : ℕ → ℕ → Option Obj) (stack : CanFrame) (p : Print)
      → IsMsg src
      → src.length ≤ 4
      → src.node < 128
      → sends_data is_tx src.cmd_spec ≡ true
      → search src.index src.subindex ≡ some obj
      → obj.data_type ≡ src.data_type
      → shown src.data_type src ≡ some p
      → (f : CanFrame) × (sdo2can stack src is_tx ≡ some (ok, f))
        × (display search dst f ≡ returned (announced is_tx obj src ∷ p ∷ puts "\n" ∷ []))
  display-sdo2can search stack p v len low d found type h =
      let (m, c) = carried-some dst src src.data_type p h in
      let (f, encoded, decoded) = can2sdo-sdo2can stack dst src is_tx v m len low d c in
      let ids = sdo2can-Addressed stack src v low is_tx ok f d encoded in
      let (func, node, index, subindex) = ids in
      (
        f,
        encoded,
        frame_shown search f m _ ids found (rw (type) decoded)
            (msg_shown f m p node d (rw (type) c) (rw (type) h)),
      )
