-- ===== src/Display/Returns.antt =====
-- That printing a frame (src/display.c) stays inside its arrays, and when its assertions hold.
use socanmatic.Base.{
  ap, if◌then◌else◌, ℕ, ◌≤◌, ◌≡◌, refl, inl, inr, Bool, true, false, not, ◌&&◌, ◌||◌, Option, none,
  some, [], arith, Bool-cases, ltb, leb, ◌==◌,
}
use socanmatic.Can.{CanFrame, Status, frame_func}
use socanmatic.Can.FuncCode
use socanmatic.DataType.{
  DataType, boolean, integer8, integer16, integer32, unsigned8, unsigned16, unsigned32, real32,
  visible_string, octet_string, unicode_string, time_of_day, time_difference, domain, int24, real64,
  integer40, integer48, integer56, integer64, uint24, unsigned40, unsigned48, unsigned56,
  unsigned64, pdo_com, pdo_map, sdo_parm, identity, void, unknown,
}
use socanmatic.Display.{display, display_nmt, display_nmt_err}
use socanmatic.Display.Emcy.{display_emcy}
use socanmatic.Display.Sdo.{
  display_sdo, display_msg, display_data, display_object, display_value, if_length, sdo_bytes,
  scalar_bytes, type_for,
}
use socanmatic.Dict.{Obj}
use socanmatic.Out.{Output, Print, display_raw, display_malformed, dump_frame}
use socanmatic.Out.Bytes.{Returns, >>=-Returns, print_bytes-Returns, dump_frame-Returns}
use socanmatic.Run.{returned, ◌>>=◌, is_returned}
use socanmatic.Sdo.Command.{cs_abort, ccs_ex_dl, ccs_ex_ul, scs_ex_ul, scs_ex_dl}
use socanmatic.Sdo.Decode.{can2sdo, can2sdo_index, can2sdo_subindex}
use socanmatic.Sdo.Decode.Length.{taken, can2sdo_length}
use socanmatic.Sdo.Msg.{SdoMsg}

module _ (sdo : SdoMsg) (h : sdo.length ≤ 4) where
  -- The bytes with something before them
  bytes_after : (f : Output → Output) → Returns (sdo_bytes sdo >>= (λ out. returned (f out)))
  unfolding sdo_bytes
  bytes_after f =
      >>=-Returns (sdo_bytes sdo) _ (print_bytes-Returns sdo.length (scalar_bytes sdo.scalar) h)
        (λ out. (_, refl))

  if_length-Returns : (len : ℕ) (value : Print) → Returns (if_length sdo len value)
  unfolding if_length
  if_length-Returns len value = elim (Bool-cases (ltb len sdo.length)) [
    | inl a ↦ rw (a) (bytes_after _)
    | inr a ↦ elim (Bool-cases (ltb sdo.length len)) [
      | inl b ↦ rw (a, b) (bytes_after _)
      | inr b ↦ rw (a, b) (_, refl)
    ]
  ]

  display_value-Returns : (t : DataType) → Returns (display_value t sdo)
  unfolding display_value
  display_value-Returns integer8 = if_length-Returns 1 _
  display_value-Returns integer16 = if_length-Returns 2 _
  display_value-Returns integer32 = if_length-Returns 4 _
  display_value-Returns unsigned8 = if_length-Returns 1 _
  display_value-Returns unsigned16 = if_length-Returns 2 _
  display_value-Returns unsigned32 = if_length-Returns 4 _
  display_value-Returns boolean = bytes_after _
  display_value-Returns real32 = bytes_after _
  display_value-Returns visible_string = bytes_after _
  display_value-Returns octet_string = bytes_after _
  display_value-Returns unicode_string = bytes_after _
  display_value-Returns time_of_day = bytes_after _
  display_value-Returns time_difference = bytes_after _
  display_value-Returns domain = bytes_after _
  display_value-Returns int24 = bytes_after _
  display_value-Returns real64 = bytes_after _
  display_value-Returns integer40 = bytes_after _
  display_value-Returns integer48 = bytes_after _
  display_value-Returns integer56 = bytes_after _
  display_value-Returns integer64 = bytes_after _
  display_value-Returns uint24 = bytes_after _
  display_value-Returns unsigned40 = bytes_after _
  display_value-Returns unsigned48 = bytes_after _
  display_value-Returns unsigned56 = bytes_after _
  display_value-Returns unsigned64 = bytes_after _
  display_value-Returns pdo_com = bytes_after _
  display_value-Returns pdo_map = bytes_after _
  display_value-Returns sdo_parm = bytes_after _
  display_value-Returns identity = bytes_after _
  display_value-Returns void = bytes_after _
  display_value-Returns unknown = bytes_after _

  display_object-Returns : (obj : Option Obj) → Returns (display_object obj sdo)
  unfolding display_object sdo_bytes
  display_object-Returns none = print_bytes-Returns sdo.length (scalar_bytes sdo.scalar) h
  display_object-Returns (some obj) = display_value-Returns obj.data_type

  display_data-Returns : (is_tx : Bool) (obj : Option Obj) → Returns (display_data is_tx obj sdo)
  unfolding display_data
  display_data-Returns is_tx obj = elim (Bool-cases (cs_abort == sdo.cmd_spec)) [
    | inl a ↦ elim (Bool-cases (4 == sdo.length)) [
      | inl b ↦ rw (a, b) (_, refl)
      | inr b ↦ rw (a, b) (bytes_after _)
    ]
    | inr a ↦
        elim (Bool-cases
          ((not is_tx && ccs_ex_dl == sdo.cmd_spec) || (is_tx && scs_ex_ul == sdo.cmd_spec))) [
            | inl b ↦ rw (a, b) (display_object-Returns obj)
            | inr b ↦
                elim (Bool-cases (
                  (not is_tx && ccs_ex_ul == sdo.cmd_spec)
                  || (is_tx && scs_ex_dl == sdo.cmd_spec))) [
                    | inl c ↦ rw (a, b, c) (_, refl)
                    | inr c ↦ rw (a, b, c) (bytes_after _)
                  ]
          ]
  ]

module _ (can : CanFrame) (short : can.can_dlc ≤ 8) where
  -- The frame's bytes with something before them
  dump_after : (f : Output → Output) → Returns (dump_frame can >>= (λ out. returned (f out)))
  dump_after f = >>=-Returns (dump_frame can) _ (dump_frame-Returns can short) (λ out. (_, refl))

  display_raw-Returns : Returns (display_raw can)
  unfolding display_raw
  display_raw-Returns = dump_after _

  display_malformed-Returns : Returns (display_malformed can)
  unfolding display_malformed
  display_malformed-Returns = dump_after _

  display_msg-Returns :
      (is_tx : Bool) (obj : Option Obj) (p : Status × SdoMsg)
      → (taken p.0 ≡ true → p.1.length ≤ 4)
      → Returns (display_msg is_tx obj can p)
  unfolding display_msg
  display_msg-Returns is_tx obj p k = elim (Bool-cases (taken p.0)) [
    | inl a ↦ rw (a) (
        >>=-Returns (display_data is_tx obj p.1) _ (display_data-Returns p.1 (k a) is_tx obj)
          (λ out. (_, refl)))
    | inr a ↦ rw (a) (>>=-Returns (display_raw can) _ display_raw-Returns (λ out. (_, refl)))
  ]

  module _ (search : ℕ → ℕ → Option Obj) (stack : SdoMsg) where
    display_sdo-Returns :
        ((FuncCode.sdo_tx == frame_func can) || (FuncCode.sdo_rx == frame_func can)) ≡ true
        → Returns (display_sdo search stack can)
    unfolding display_sdo
    display_sdo-Returns e =
        let obj = search (can2sdo_index can) (can2sdo_subindex can) in
        let rest =
          display_msg-Returns (FuncCode.sdo_tx == frame_func can) obj
            (can2sdo stack can (type_for obj)) (can2sdo_length stack can (type_for obj)) in
        elim (Bool-cases (FuncCode.sdo_rx == frame_func can)) [
          | inl a ↦ rw (a) rest
          | inr a ↦ elim (Bool-cases (FuncCode.sdo_tx == frame_func can)) [
            | inl b ↦ rw (a, b) (rw (b) at rest)
            | inr b ↦ absurd (ground (arith, a, b, e))
          ]
        ]

    display_nmt-returned :
        Returns (if FuncCode.nmt == can.can_id then display_nmt can else returned [])
    unfolding display_nmt
    display_nmt-returned = elim (Bool-cases (FuncCode.nmt == can.can_id)) [
      | inl a ↦ elim (Bool-cases (leb 2 can.can_dlc)) [
        | inl b ↦ rw (a, b) (_, refl)
        | inr b ↦ rw (a, b) display_malformed-Returns
      ]
      | inr a ↦ rw (a) (_, refl)
    ]

    display_nmt_err-Returns :
        (FuncCode.nmt_err == frame_func can) ≡ true → Returns (display_nmt_err can)
    unfolding display_nmt_err
    display_nmt_err-Returns e = elim (Bool-cases (ltb can.can_dlc 1)) [
      | inl b ↦ rw (e, b) display_malformed-Returns
      | inr b ↦ rw (e, b) (_, refl)
    ]

    display_emcy-Returns :
        (FuncCode.sync_emcy == frame_func can) ≡ true → Returns (display_emcy can)
    unfolding display_emcy
    display_emcy-Returns e = elim (Bool-cases (ltb can.can_dlc 3)) [
      | inl b ↦ rw (e, b) display_malformed-Returns
      | inr b ↦ rw (e, b) (_, refl)
    ]

    -- Every frame whose function code is not that of NMT is printed.
    other-Returns : (FuncCode.nmt == frame_func can) ≡ false → Returns (display search stack can)
    unfolding display
    other-Returns n =
        elim (Bool-cases
          ((FuncCode.sdo_tx == frame_func can) || (FuncCode.sdo_rx == frame_func can))) [
            | inl a ↦ rw (n, a) (display_sdo-Returns a)
            | inr a ↦ elim (Bool-cases (FuncCode.nmt_err == frame_func can)) [
              | inl b ↦ rw (n, a, b) (display_nmt_err-Returns b)
              | inr b ↦ elim (Bool-cases (FuncCode.sync_emcy == frame_func can)) [
                | inl c ↦ rw (n, a, b, c) (display_emcy-Returns c)
                | inr c ↦ rw (n, a, b, c) display_raw-Returns
              ]
            ]
          ]

    -- A frame of at most eight bytes is printed, with no read outside an array and no failed
    -- assertion, whatever the dictionary holds, except in one case: its function code is that of NMT,
    -- the low sixteen bits of the identifier being below 128, and its whole identifier is not 0.
    pub display-is_returned :
        is_returned (display search stack can)
        ≡ (not (FuncCode.nmt == frame_func can) || (FuncCode.nmt == can.can_id))
    unfolding display display_nmt
    display-is_returned = elim (Bool-cases (FuncCode.nmt == frame_func can)) [
      | inl n ↦ elim (Bool-cases (FuncCode.nmt == can.can_id)) [
        | inl z ↦
            let (out, e) = display_nmt-returned in
            rw (n, z) (ap is_returned (rw (z, display_nmt) at e))
        | inr z ↦ rw (n, z) refl
      ]
      | inr n ↦ let (out, e) = other-Returns n in rw (e, n) refl
    ]
