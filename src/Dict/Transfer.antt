-- ===== src/Dict/Transfer.antt =====
-- The transfer of a dictionary object's value (src/dict.c).
use socanmatic.Base.{ℕ, Option, none, some, ltb, ◌==◌, not, if◌then◌else◌}
use socanmatic.Can.{Status, err_param, err_proto}
use socanmatic.Bus.{Bus, is_ok}
use socanmatic.Run.{Run, assert_failed, returned, ◌>>=◌}
use socanmatic.Scalar.{Scalar, zero_scalar, u32}
use socanmatic.Sdo.Msg.{SdoMsg}
use socanmatic.Sdo.Command.{cs_abort}
use socanmatic.Sdo.Query.{sdo_ul, sdo_dl}
use socanmatic.Sdo.Typed.{Downloaded, is_abort}
use socanmatic.Dict.{Obj}

-- `CANMAT_OBJECT_TYPE_VAR`, from `[enum:object_type]` of eds/dsp301.eds
abbrev pub object_type_var : ℕ
object_type_var = 7

-- The message that both functions initialise; the fields that they do not name are 0.
abbrev pub obj_request : ℕ → Obj → SdoMsg
obj_request node obj = record {
  index = obj.index;
  subindex = obj.subindex;
  node = node;
  cmd_spec = 0;
  data_type = obj.data_type;
  length = 0;
  scalar = zero_scalar;
}

-- What an upload returns, with `*val` and `*err_val` after it.
pub record Fetched (State : Type 0) : Type 0 where
  pub status : Status
  pub val : Scalar
  pub err : Option ℕ
  pub after : State

-- `memcpy( val, &resp.data, n )`, for `n` up to 4
unfoldable pub copy_low : ℕ → Scalar → Scalar → Scalar
copy_low n src dst = record {
  byte0 = if ltb 0 n then src.byte0 else dst.byte0;
  byte1 = if ltb 1 n then src.byte1 else dst.byte1;
  byte2 = if ltb 2 n then src.byte2 else dst.byte2;
  byte3 = if ltb 3 n then src.byte3 else dst.byte3;
}

-- `*err_val = code`, unless it is NULL
abbrev pub store_err : Option ℕ → ℕ → Option ℕ
store_err none code = none
store_err (some old) code = some code

-- The copy of an abort's four bytes, to `*err_val`, or to `*val` when `err_val` is NULL.
store_abort : Scalar → Option ℕ → Status × SdoMsg → Scalar × Option ℕ
store_abort val none (r, resp) = (resp.scalar, none)
store_abort val (some old) (r, resp) = (val, some (u32 resp.scalar))

module _ (bus : Bus) (fuel : ℕ) where
  open bus use {State, stack_msg}

  -- After `canmat_sdo_ul`; the assertion reads `resp.length` also when nothing was received.
  unfoldable pub take_fetched : Scalar → Option ℕ → Status × SdoMsg × State → Run (Fetched State)
  unfolding store_abort
  take_fetched val err (r, resp, s) =
      if ltb 4 resp.length
      then assert_failed
      else if is_ok r
      then returned (record {
        status = r;
        val = copy_low resp.length resp.scalar val;
        err = store_err err 0;
        after = s;
      })
      else if is_abort r
      then (if not (resp.length == 4)
          then returned (record { status = err_proto; val = val; err = err; after = s })
          else let (val', err') = store_abort val err (r, resp) in
            returned (record { status = r; val = val'; err = err'; after = s }))
      else returned (record { status = r; val = val; err = err; after = s })

  -- `canmat_obj_ul`; `none` is a NULL `obj`.
  unfoldable pub obj_ul : State → ℕ → Option Obj → Scalar → Option ℕ → Run (Fetched State)
  obj_ul s node none val err =
      returned (record { status = err_param; val = val; err = err; after = s })
  obj_ul s node (some obj) val err =
      if obj.object_type == object_type_var
      then sdo_ul bus fuel s (obj_request node obj) (stack_msg s) >>= take_fetched val err
      else returned (record { status = err_param; val = val; err = err; after = s })

  -- After `canmat_sdo_dl`: `*err_val` by the command of `resp`, whatever the status.
  unfoldable pub take_stored : Option ℕ → Status × SdoMsg × State → Downloaded State
  take_stored err (r, resp, s) = record {
    status = r;
    err = store_err err (if cs_abort == resp.cmd_spec then u32 resp.scalar else 0);
    after = s;
  }

  -- `canmat_obj_dl`
  unfoldable pub obj_dl : State → ℕ → Option Obj → Scalar → Option ℕ → Run (Downloaded State)
  obj_dl s node none val err = returned (record { status = err_param; err = err; after = s })
  obj_dl s node (some obj) val err =
      if obj.object_type == object_type_var
      then sdo_dl bus fuel s (record (obj_request node obj) { scalar = val }) (stack_msg s)
        >>= (λ out. returned (take_stored err out))
      else returned (record { status = err_param; err = err; after = s })
