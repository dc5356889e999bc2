-- ===== src/Pdo/Send.antt =====
-- The sending of an RPDO (src/pdo.c, include/socanmatic/pdo.h), and what a receiver takes from it.
use socanmatic.Base.{
  ℕ, ◌+◌, ◌*◌, ◌/◌, ◌%◌, ◌^◌, ◌<◌, ◌≡◌, refl, ap, ◌∙◌, ◌||◌, none, some, List, [], ◌∷◌, length,
  get_elem?, bit_or, ltb, if◌then◌else◌, arith, bit_or_low_high, bit_or_disjoint,
}
use socanmatic.Base.Int.{ℤ, to_unsigned}
use socanmatic.Can.{CanFrame, Status, frame_func, frame_node, node_part}
use socanmatic.Can.FuncCode.{pdo1_rx}
use socanmatic.Can.Cobid.{frame_func-cobid}
use socanmatic.Byteorder.{stle16, ldle16}
use socanmatic.Byteorder.RoundTrip.{ldle-stle}
use socanmatic.Bus.{Bus}
use socanmatic.Run.{Run, returned, fault}

-- `CANMAT_RPDO_COBID( node, num )`
unfoldable pub rpdo_cobid : ℕ → ℕ → ℕ
rpdo_cobid node num = bit_or (pdo1_rx + num * 2 ^ 8) node

-- Byte `i` after the first `len` bytes are overwritten by `bytes`.
copied : ℕ → List ℕ → ℕ → ℕ → ℕ
copied len bytes i old =
    if ltb i len then elim (get_elem? bytes i) [ none ↦ old | some x ↦ x ] else old

-- `memcpy( can.data, data, len )`
unfoldable pub copy_data : ℕ → List ℕ → CanFrame → CanFrame
unfolding copied
copy_data len bytes can = record can {
  d0 = copied len bytes 0 can.d0;
  d1 = copied len bytes 1 can.d1;
  d2 = copied len bytes 2 can.d2;
  d3 = copied len bytes 3 can.d3;
  d4 = copied len bytes 4 can.d4;
  d5 = copied len bytes 5 can.d5;
  d6 = copied len bytes 6 can.d6;
  d7 = copied len bytes 7 can.d7;
}

-- `{ val & 0xFF, (val >> 8) & 0xFF }`
unfoldable pub bytes_of : ℕ → List ℕ
bytes_of val = val % 2 ^ 8 ∷ val / 2 ^ 8 % 2 ^ 8 ∷ []

module _ (bus : Bus) where
  open bus use {State, send, stack_frame}

  -- `canmat_rpdo_send`: the copy is a fault when it runs past the frame's 8 bytes or past `bytes`.
  unfoldable pub rpdo_send : State → ℕ → ℕ → ℕ → List ℕ → Run (Status × State)
  rpdo_send s node pdo len bytes =
      if ltb 8 len || ltb (length bytes) len
      then fault
      else returned (
          send s (
            copy_data len bytes
              (record (stack_frame s) { can_dlc = len; can_id = rpdo_cobid node pdo })))

  unfoldable pub rpdo_send_u16 : State → ℕ → ℕ → ℕ → Run (Status × State)
  rpdo_send_u16 s node pdo val = rpdo_send s node pdo 2 (bytes_of val)

  -- The shift of a negative `val` is arithmetic, so its two low bytes are those of the conversion.
  unfoldable pub rpdo_send_i16 : State → ℕ → ℕ → ℤ → Run (Status × State)
  rpdo_send_i16 s node pdo val = rpdo_send s node pdo 2 (bytes_of (to_unsigned 16 val))

pub rpdo_cobid-eq :
    (node num : ℕ)
    → node < 128
    → rpdo_cobid node num ≡ bit_or (node_part node) ((4 + num * 2) * 2 ^ 7)
unfolding rpdo_cobid
rpdo_cobid-eq node num h =
    let shape : rpdo_cobid node num ≡ bit_or ((4 + num * 2) * 2 ^ 7) node =
      ap (λ x. bit_or x node) (omega arith) in
    shape
    ∙ omega (
      arith,
      bit_or_disjoint 7 (4 + num * 2) node h,
      bit_or_low_high 7 (node % 2 ^ 7) (4 + num * 2),
    )

-- What the receiver of an RPDO frame reads: its function code, its node, its length, and its
-- first two bytes.
pub record Carries (f : CanFrame) (node pdo val : ℕ) : Type 0 where
  pub func_is : frame_func f ≡ pdo1_rx + pdo * 2 ^ 8
  pub node_is : frame_node f ≡ node
  pub dlc_is : f.can_dlc ≡ 2
  pub data_is : ldle16 (record { q0 = f.d0; q1 = f.d1 }) ≡ val

module _ (bus : Bus) (s : bus.State) (node pdo : ℕ) where
  -- A 16-bit RPDO to a node below 128 is sent in one frame that carries the node, the PDO's
  -- function code and the value, which the receiver reads back little-endian.
  pub rpdo_send_u16-Carries :
      (val : ℕ)
      → node < 128
      → pdo < 128
      → val < 2 ^ 16
      → (f : CanFrame) × (rpdo_send_u16 bus s node pdo val ≡ returned (bus.send s f))
        × Carries f node pdo val
  unfolding rpdo_send_u16 rpdo_send copy_data bytes_of stle16
  rpdo_send_u16-Carries val hn hp hv =
      let f : CanFrame =
        copy_data 2 (bytes_of val)
          (record (bus.stack_frame s) { can_dlc = 2; can_id = rpdo_cobid node pdo }) in
      let (e, n) =
        frame_func-cobid f node (4 + pdo * 2) (omega arith) (rpdo_cobid-eq node pdo hn) in
      let d' : ldle16 (record { q0 = f.d0; q1 = f.d1 }) ≡ val =
        (ldle-stle 0 val (omega arith) hv).1 in
      (
        f,
        refl,
        record {
          func_is = e ∙ omega arith;
          node_is = n ∙ omega arith;
          dlc_is = refl;
          data_is = d';
        },
      )
