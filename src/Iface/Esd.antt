-- ===== src/Iface/Esd.antt =====
-- The driver over esd's NTCAN library (src/iface/iface_ntcan.c).
pub mod Texts
pub mod Filter
mod Tests
use socanmatic.Base.{
  ℕ, zero, suc, ◌+◌, ◌*◌, ◌%◌, ◌^◌, Bool, true, false, not, List, [], ◌∷◌, Option, none, some, ltb,
  ◌==◌, if◌then◌else◌, bit_and,
}
use socanmatic.Base.Int.{ℤ, pos, negsuc}
use socanmatic.Can.{CanFrame, Status, ok, err_os, err_param}
use socanmatic.Run.{Run, fault, returned, ◌>>=◌}
use socanmatic.Ntcan.{
  NtResult, success, is_success, Cmsg, Baud, baud_1000, baud_800, baud_500, baud_250, baud_125,
  baud_100, baud_50, baud_20, baud_10, baud_other, Ntcan,
}
use socanmatic.Iface.{Iface, is_esd}

-- `CANMAT_COB_ID_MAX_BASE`
abbrev pub cob_id_max_base : ℕ
cob_id_max_base = 0x7FF

-- `struct can_filter`
pub record CanFilter : Type 0 where
  pub filter_id : ℕ
  pub filter_mask : ℕ

-- `ntcan_baud_kbps`
unfoldable pub ntcan_baud_kbps : Baud → ℤ
ntcan_baud_kbps baud_1000 = pos 1000
ntcan_baud_kbps baud_800 = pos 800
ntcan_baud_kbps baud_500 = pos 500
ntcan_baud_kbps baud_250 = pos 250
ntcan_baud_kbps baud_125 = pos 125
ntcan_baud_kbps baud_100 = pos 100
ntcan_baud_kbps baud_50 = pos 50
ntcan_baud_kbps baud_10 = pos 10
ntcan_baud_kbps _ = negsuc 0

-- The switch of `v_set_kbps`
unfoldable pub baud_code : ℕ → Option Baud
baud_code kbps =
    if kbps == 1000
    then some baud_1000
    else if kbps == 800
    then some baud_800
    else if kbps == 500
    then some baud_500
    else if kbps == 250
    then some baud_250
    else if kbps == 125
    then some baud_125
    else if kbps == 100
    then some baud_100
    else if kbps == 50
    then some baud_50
    else if kbps == 20
    then some baud_20
    else if kbps == 10
    then some baud_10
    else none

-- The byte at `i` after a `memcpy` of `n` bytes.
abbrev pub moved : ℕ → ℕ → ℕ → ℕ → ℕ
moved n i new old = if ltb i n then new else old

-- `cif->vtable != &vtable` before the rest of a function.
abbrev pub guarded :
    {S : Type 0}
    → Iface NtResult
    → S
    → Run (Status × Iface NtResult × S)
    → Run (Status × Iface NtResult × S)
guarded cif s rest = if is_esd cif.vtable then rest else returned (err_param, cif, s)

-- The frame of a message that was read.
unfoldable pub frame_of : Cmsg → CanFrame → CanFrame
frame_of msg frame = record {
  can_id = msg.id;
  can_dlc = msg.len;
  d0 = moved msg.len 0 msg.b0 frame.d0;
  d1 = moved msg.len 1 msg.b1 frame.d1;
  d2 = moved msg.len 2 msg.b2 frame.d2;
  d3 = moved msg.len 3 msg.b3 frame.d3;
  d4 = moved msg.len 4 msg.b4 frame.d4;
  d5 = moved msg.len 5 msg.b5 frame.d5;
  d6 = moved msg.len 6 msg.b6 frame.d6;
  d7 = moved msg.len 7 msg.b7 frame.d7;
}

-- The message that `v_send` writes over a local one.
unfoldable pub message_of : CanFrame → Cmsg → Cmsg
message_of frame msg = record {
  id = frame.can_id;
  len = frame.can_dlc;
  b0 = moved frame.can_dlc 0 frame.d0 msg.b0;
  b1 = moved frame.can_dlc 1 frame.d1 msg.b1;
  b2 = moved frame.can_dlc 2 frame.d2 msg.b2;
  b3 = moved frame.can_dlc 3 frame.d3 msg.b3;
  b4 = moved frame.can_dlc 4 frame.d4 msg.b4;
  b5 = moved frame.can_dlc 5 frame.d5 msg.b5;
  b6 = moved frame.can_dlc 6 frame.d6 msg.b6;
  b7 = moved frame.can_dlc 7 frame.d7 msg.b7;
}

-- The test of `v_filter` for one filter, and its inner loop.
abbrev pub passes_one : ℕ → CanFilter → Bool
passes_one i f = bit_and i f.filter_mask == bit_and f.filter_id f.filter_mask

unfoldable pub matched : ℕ → List CanFilter → Bool
matched i [] = false
matched i (f ∷ fs) = let rest = matched i fs in if passes_one i f then true else rest

module _ (nt : Ntcan) where
  open nt use {
    State, can_write, can_read, can_id_add, can_id_delete, can_open, can_close, can_set_baudrate,
    stack_cmsg,
  }

  unfoldable pub check_result : Iface NtResult → NtResult × State → Status × Iface NtResult × State
  check_result cif (r, s) =
      if is_esd cif.vtable
      then (if is_success r then (ok, cif, s) else (err_os, record cif { err = r }, s))
      else (err_param, cif, s)

  -- The loop that binds the identifiers, `left` of them from `i` on; a failure closes the handle.
  unfoldable pub bind_ids : ℕ → ℕ → Iface NtResult → State → Status × Iface NtResult × State
  bind_ids zero i cif s = (ok, cif, s)
  bind_ids (suc left) i cif s =
      let (r, s1) = can_id_add s i in
      let rest = bind_ids left (i + 1) cif s1 in
      let (closed, s2) = can_close s1 in
      if is_success r then rest else (err_os, record cif { err = r }, s2)

  -- `net` is the 32 bits of what `strtol` reads in the name, `none` if it is not a number as a
  -- whole.
  unfoldable pub v_open : Option ℕ → Iface NtResult → State → Run (Status × Iface NtResult × State)
  v_open none cif s = guarded cif s (returned (err_param, record cif { fd = negsuc 0 }, s))
  v_open (some net) cif s = guarded cif s (
      let opened = record cif { fd = negsuc 0 } in
      let (r, s1) = can_open s net in
      returned (
        if is_success r
        then bind_ids (cob_id_max_base + 1) 0 opened s1
        else (err_os, record opened { err = r }, s1)))

  unfoldable pub v_send : CanFrame → Iface NtResult → State → Run (Status × Iface NtResult × State)
  v_send frame cif s = guarded cif s (
      if ltb 8 frame.can_dlc
      then fault
      else returned (check_result cif (can_write s (message_of frame (stack_cmsg s)))))

  -- What `v_recv` leaves in `*frame` comes with its result.
  unfoldable pub v_recv :
      CanFrame → Iface NtResult → State → Run (Status × CanFrame × Iface NtResult × State)
  v_recv frame cif s =
      let out = can_read s (stack_cmsg s) in
      if is_esd cif.vtable
      then (if is_success out.0
          then (if ltb 8 out.1.len then fault else returned (ok, frame_of out.1 frame, cif, out.2))
          else returned (err_os, frame, record cif { err = out.0 }, out.2))
      else returned (err_param, frame, cif, s)

  unfoldable pub v_destroy : Iface NtResult → State → Run (Status × Iface NtResult × State)
  v_destroy cif s = guarded cif s (returned (check_result cif (can_close s)))

  unfoldable pub v_set_kbps : ℕ → Iface NtResult → State → Run (Status × Iface NtResult × State)
  v_set_kbps kbps cif s = guarded cif s (elim (baud_code kbps) [
    | none ↦ returned (err_param, cif, s)
    | some baudcode ↦ returned (check_result cif (can_set_baudrate s baudcode))
  ])

  -- The outer loop of `v_filter`, over `left` identifiers from `i` on.
  unfoldable pub filter_ids :
      ℕ → ℕ → List CanFilter → Iface NtResult → State → Status × Iface NtResult × State
  filter_ids zero i filters cif s = (ok, cif, s)
  filter_ids (suc left) i filters cif s =
      if matched i filters
      then filter_ids left (i + 1) filters cif s
      else let (r, s1) = can_id_delete s i in
        if is_success r
        then filter_ids left (i + 1) filters cif s1
        else (err_os, record cif { err = r }, s1)

  unfoldable pub v_filter :
      List CanFilter → Iface NtResult → State → Status × Iface NtResult × State
  v_filter filters cif s = filter_ids (cob_id_max_base + 1) 0 filters cif s
