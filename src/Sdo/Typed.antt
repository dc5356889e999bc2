-- ===== src/Sdo/Typed.antt =====
-- The typed transfers that `CANMAT_SDO_TYPE_FUN` (include/socanmatic/sdo.h) defines for each
-- member of `canmat_scalar`.
pub mod Answer
pub mod Fixture
mod Tests
use socanmatic.Base.{ℕ, Bool, true, false, Option, none, some, if◌then◌else◌}
use socanmatic.Can.{Status, err_abort}
use socanmatic.Bus.{Bus, is_ok}
use socanmatic.Run.{Run, returned, ◌>>=◌}
use socanmatic.Scalar.{zero_scalar, u32}
use socanmatic.Scalar.Member.{Member, type_of, read, write}
use socanmatic.Sdo.Msg.{SdoMsg}
use socanmatic.Sdo.Query.{sdo_dl, sdo_ul}

-- `CANMAT_ERR_ABORT == r`
abbrev pub is_abort : Status → Bool
is_abort err_abort = true
is_abort _ = false

-- `*err = code`, unless `err` is NULL
abbrev pub set_err : Option ℕ → ℕ → Option ℕ
set_err none code = none
set_err (some old) code = some code

-- The initialiser of `req`: the fields that it does not name are 0.
unfoldable pub request : Member → ℕ → ℕ → ℕ → SdoMsg
request m node idx subix = record {
  index = idx;
  subindex = subix;
  node = node;
  cmd_spec = 0;
  data_type = type_of m;
  length = 0;
  scalar = zero_scalar;
}

-- What a typed upload returns, with `*val` and `*err` after it.
pub record Uploaded (State : Type 0) : Type 0 where
  pub status : Status
  pub val : ℕ
  pub err : Option ℕ
  pub after : State

pub record Downloaded (State : Type 0) : Type 0 where
  pub status : Status
  pub err : Option ℕ
  pub after : State

module _ (bus : Bus) (fuel : ℕ) where
  open bus use {State, stack_msg}

  unfoldable pub take_upload : Member → ℕ → Option ℕ → Status × SdoMsg × State → Uploaded State
  take_upload m val err (r, resp, s) =
      if is_ok r
      then record { status = r; val = read m resp.scalar; err = err; after = s }
      else if is_abort r
      then record { status = r; val = val; err = set_err err (u32 resp.scalar); after = s }
      else record { status = r; val = val; err = err; after = s }

  -- `canmat_sdo_ul_u8` and its five sisters
  unfoldable pub sdo_ul_member : Member → State → ℕ → ℕ → ℕ → ℕ → Option ℕ → Run (Uploaded State)
  sdo_ul_member m s node idx subix val err = do
    out ← sdo_ul bus fuel s (request m node idx subix) (stack_msg s)
    returned (take_upload m val err out)

  unfoldable pub take_download : Option ℕ → Status × SdoMsg × State → Downloaded State
  take_download err (r, resp, s) = record {
    status = r;
    err = if is_abort r then set_err err (u32 resp.scalar) else err;
    after = s;
  }

  -- `canmat_sdo_dl_u8` and its five sisters
  unfoldable pub sdo_dl_member : Member → State → ℕ → ℕ → ℕ → ℕ → Option ℕ → Run (Downloaded State)
  sdo_dl_member m s node idx subix val err = do
    let req = request m node idx subix
    out ← sdo_dl bus fuel s (record req { scalar = write m req.scalar val }) (stack_msg s)
    returned (take_download err out)
