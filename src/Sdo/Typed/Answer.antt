-- ===== src/Sdo/Typed/Answer.antt =====
-- What the typed transfers of include/socanmatic/sdo.h return once the server's answer arrives.
use socanmatic.Base.{ℕ, ◌/◌, ◌%◌, ◌^◌, ◌≤◌, ◌<◌, ◌≡◌, refl, true, Option, some, arith, inl}
use socanmatic.Can.{CanFrame, ok, err_abort, frame_func}
use socanmatic.Can.FuncCode
use socanmatic.Can.Cobid.{frame_func-cobid}
use socanmatic.Byteorder.{ldle32}
use socanmatic.Bus.{Bus}
use socanmatic.Run.{returned}
use socanmatic.DataType.{void, four, two, size_case}
use socanmatic.Scalar.{u32, u16, u8}
use socanmatic.Scalar.Laws.{u32-set_u32}
use socanmatic.Scalar.Member.{Member, type_of, read, write}
use socanmatic.Sdo.Msg.{SdoMsg, IsMsg, resp_id}
use socanmatic.Sdo.Command.{cs_abort, ccs_ex_dl, ccs_ex_ul, scs_ex_ul, scs_ex_dl}
use socanmatic.Sdo.Encode.{sdo2can}
use socanmatic.Sdo.Decode.{can2sdo}
use socanmatic.Sdo.Decode.Accepts.{can2sdo_abort}
use socanmatic.Sdo.RoundTrip.{carried, can2sdo-sdo2can_empty}
use socanmatic.Sdo.Query.{sdo_ul, sdo_dl}
use socanmatic.Sdo.Query.Waits.{Waits, now, later}
use socanmatic.Sdo.Query.Answer.{Sent, sdo_query_answered, sdo_ul_answered}
use socanmatic.Sdo.Typed.{
  request, set_err, take_upload, take_download, sdo_ul_member, sdo_dl_member,
}

-- The message that arrives for a member's type.
arrived : Member → SdoMsg → SdoMsg → SdoMsg
arrived m dst src = elim (size_case (type_of m)) [
  | four ↦ record src { length = 4 }
  | two ↦ record src {
    length = 2;
    scalar = record (dst.scalar) { byte0 = src.scalar.byte0; byte1 = src.scalar.byte1 };
  }
  | _ ↦ record src { length = 1; scalar = record (dst.scalar) { byte0 = src.scalar.byte0 } }
]

carried_member :
    (m : Member) (dst src : SdoMsg)
    → src.data_type ≡ type_of m
    → carried dst src (size_case src.data_type) ≡ some (arrived m dst src)
unfolding arrived size_case type_of
carried_member Member.u8 dst src h = rw (h) refl
carried_member Member.u16 dst src h = rw (h) refl
carried_member Member.u32 dst src h = rw (h) refl
carried_member Member.i8 dst src h = rw (h) refl
carried_member Member.i16 dst src h = rw (h) refl
carried_member Member.i32 dst src h = rw (h) refl

read-arrived :
    (m : Member) (dst src : SdoMsg) → read m (arrived m dst src).scalar ≡ read m src.scalar
unfolding arrived size_case type_of read u32 u16 u8
read-arrived Member.u8 dst src = refl
read-arrived Member.u16 dst src = refl
read-arrived Member.u32 dst src = refl
read-arrived Member.i8 dst src = refl
read-arrived Member.i16 dst src = refl
read-arrived Member.i32 dst src = refl

-- The frame that ends a wait without error has the awaited identifier.
waited_id :
    (bus : Bus) (id : ℕ) {s u : bus.State} {can f : CanFrame} {k : ℕ}
    → Waits bus id s can k (ok, f, u)
    → f.can_id ≡ id
waited_id bus id (now e h) = ground (arith, h)
waited_id bus id (later h w) = waited_id bus id w

waited_func :
    (bus : Bus) (node : ℕ) {s u : bus.State} {can f : CanFrame} {k : ℕ}
    → Waits bus (resp_id node) s can k (ok, f, u)
    → frame_func f ≡ FuncCode.sdo_tx
unfolding resp_id
waited_func bus node {f} w =
    (frame_func-cobid f node 11 (omega arith) (waited_id bus (resp_id node) w)).0

-- The code of an abort frame.
abbrev pub abort_code : CanFrame → ℕ
abort_code f = ldle32 (record { q0 = f.d4; q1 = f.d5; q2 = f.d6; q3 = f.d7 }) % 2 ^ 32

-- The command byte of the frame is an abort, and it has all of its eight bytes.
abbrev pub IsAbort : CanFrame → Type 0
IsAbort f = (8 ≤ f.can_dlc) × (f.d0 / 2 ^ 5 % 2 ^ 3 ≡ cs_abort)

module _ (bus : Bus) (fuel : ℕ) (mem : Member) (s : bus.State) (node idx subix val : ℕ) where
  open bus use {State, stack_frame, stack_msg}

  -- A typed upload whose request is sent, and that the node answers within the fuel by an upload
  -- response of the member's type, returns OK and stores the member of the server's value;
  -- `*err` is left alone.
  pub sdo_ul_member_answered :
      (err : Option ℕ) (t u : State) (server f : CanFrame) (k : ℕ) (src : SdoMsg)
      → IsMsg src
      → src.length ≤ 4
      → src.node < 128
      → src.node ≡ node
      → src.data_type ≡ type_of mem
      → src.cmd_spec ≡ scs_ex_ul
      → sdo2can server src true ≡ some (ok, f)
      → Sent bus s (record (request mem node idx subix) { cmd_spec = ccs_ex_ul }) t
      → Waits bus (resp_id node) t (stack_frame t) k (ok, f, u)
      → k < fuel
      → sdo_ul_member bus fuel mem s node idx subix val err
        ≡ returned (record { status = ok; val = read mem src.scalar; err = err; after = u })
  unfolding sdo_ul_member take_upload request
  sdo_ul_member_answered err t u server f k src v short low same_node same_type cs e q w h =
      rw
        (
          sdo_ul_answered bus fuel s (request mem node idx subix) (stack_msg s) src
              (arrived mem (stack_msg s) src) t u server f k v short low same_node same_type cs
              (carried_member mem (stack_msg s) src same_type) e q w h,
          read-arrived mem (stack_msg s) src,
        )
        refl

  -- A typed upload that the node answers by an abort within the fuel returns `CANMAT_ERR_ABORT`, leaves the
  -- caller's value alone, and stores the abort code in `*err` unless `err` is NULL.
  pub sdo_ul_member_aborted :
      (err : Option ℕ) (t u : State) (f : CanFrame) (k : ℕ)
      → IsAbort f
      → Sent bus s (record (request mem node idx subix) { cmd_spec = ccs_ex_ul }) t
      → Waits bus (resp_id node) t (stack_frame t) k (ok, f, u)
      → k < fuel
      → sdo_ul_member bus fuel mem s node idx subix val err
        ≡ returned
            (record { status = err_abort; val = val; err = set_err err (abort_code f); after = u })
  unfolding sdo_ul_member sdo_ul take_upload request
  sdo_ul_member_aborted err t u f k a q w h =
      rw
        (
          sdo_query_answered bus fuel s
              (record (request mem node idx subix) { cmd_spec = ccs_ex_ul }) (stack_msg s) t u f k q
              w h,
          can2sdo_abort (stack_msg s) f (type_of mem) (inl (waited_func bus node w)) a.0 a.1,
          u32-set_u32,
        )
        refl

  -- A typed download that the node answers by an abort within the fuel returns `CANMAT_ERR_ABORT`,
  -- and stores the abort code in `*err` unless `err` is NULL.
  pub sdo_dl_member_aborted :
      (err : Option ℕ) (t u : State) (f : CanFrame) (k : ℕ)
      → IsAbort f
      → Sent bus s
          (record (request mem node idx subix) {
            scalar = write mem (request mem node idx subix).scalar val;
            cmd_spec = ccs_ex_dl;
          })
          t
      → Waits bus (resp_id node) t (stack_frame t) k (ok, f, u)
      → k < fuel
      → sdo_dl_member bus fuel mem s node idx subix val err
        ≡ returned (record { status = err_abort; err = set_err err (abort_code f); after = u })
  unfolding sdo_dl_member sdo_dl take_download request
  sdo_dl_member_aborted err t u f k a q w h =
      rw
        (
          sdo_query_answered bus fuel s
              (record (request mem node idx subix) {
                scalar = write mem (request mem node idx subix).scalar val;
                cmd_spec = ccs_ex_dl;
              })
              (stack_msg s) t u f k q w h,
          can2sdo_abort (stack_msg s) f (type_of mem) (inl (waited_func bus node w)) a.0 a.1,
          u32-set_u32,
        )
        refl

  -- A typed download whose request is sent, and that the node confirms within the fuel by a
  -- download response, returns OK and leaves `*err` alone.
  pub sdo_dl_member_answered :
      (err : Option ℕ) (t u : State) (server f : CanFrame) (k : ℕ) (src : SdoMsg)
      → IsMsg src
      → src.length ≤ 4
      → src.node < 128
      → src.cmd_spec ≡ scs_ex_dl
      → sdo2can server src true ≡ some (ok, f)
      → Sent bus s
          (record (request mem node idx subix) {
            scalar = write mem (request mem node idx subix).scalar val;
            cmd_spec = ccs_ex_dl;
          })
          t
      → Waits bus (resp_id node) t (stack_frame t) k (ok, f, u)
      → k < fuel
      → sdo_dl_member bus fuel mem s node idx subix val err
        ≡ returned (record { status = ok; err = err; after = u })
  unfolding sdo_dl_member sdo_dl take_download request
  sdo_dl_member_answered err t u server f k src v short low cs e q w h =
      let (f', e', d) =
        can2sdo-sdo2can_empty server (stack_msg s) src true v (type_of mem) short low
          (rw cs refl) in
      let same : f' ≡ f = cc (e, e') in
      let decoded : can2sdo (stack_msg s) f (type_of mem)
          ≡ (ok, record src { length = 0; data_type = void; scalar = (stack_msg s).scalar }) =
        cc (d, same) in
      rw
        (
          sdo_query_answered bus fuel s
              (record (request mem node idx subix) {
                scalar = write mem (request mem node idx subix).scalar val;
                cmd_spec = ccs_ex_dl;
              })
              (stack_msg s) t u f k q w h,
          decoded,
        )
        refl
