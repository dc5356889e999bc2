-- ===== src/Dict/Typed.antt =====
-- The typed transfers of a dictionary object (`CANMAT_OBJ_TYPE_FUN` in
-- include/socanmatic/dict_fun.h), and the interface of the profiles over them.
use socanmatic.Base.{
  ℕ, ◌≡◌, Bool, true, false, Option, none, some, if◌then◌else◌, ◌==◌, arith, [], Bool-cases, inl,
  inr,
}
use socanmatic.Can.{err_param}
use socanmatic.DataType.{
  DataType, integer8, integer16, integer32, unsigned8, unsigned16, unsigned32,
}
use socanmatic.Bus.{Bus, is_ok}
use socanmatic.Run.{Run, returned, ◌>>=◌, >>=-eq-returned}
use socanmatic.Scalar.{Scalar, zero_scalar}
use socanmatic.Scalar.Member.{Member, u8, u16, u32, i8, i16, i32, read, write, type_of}
use socanmatic.Sdo.Query.{sdo_dl}
use socanmatic.Sdo.Typed.{Uploaded, Downloaded}
use socanmatic.Dict.{Obj}
use socanmatic.Dict.Transfer.{Fetched, obj_request, obj_ul, obj_dl, take_stored, object_type_var}
use socanmatic.Client.{Client}

-- `CANMAT_DATA_TYPE_… == obj->data_type`
abbrev pub has_type : Member → DataType → Bool
has_type u8 unsigned8 = true
has_type u16 unsigned16 = true
has_type u32 unsigned32 = true
has_type i8 integer8 = true
has_type i16 integer16 = true
has_type i32 integer32 = true
has_type _ _ = false

module _ (bus : Bus) (fuel : ℕ) where
  open bus use {State, stack_scalar}

  -- `if( CANMAT_OK == r ) *val = sval.…`
  take_member : Member → ℕ → Fetched State → Uploaded State
  take_member m val f = record {
    status = f.status;
    val = if is_ok f.status then read m f.val else val;
    err = f.err;
    after = f.after;
  }

  -- `canmat_obj_ul_u8` and its five sisters
  unfoldable pub obj_ul_member : Member → State → ℕ → Obj → ℕ → Option ℕ → Run (Uploaded State)
  unfolding take_member
  obj_ul_member m s node obj val err =
      if has_type m obj.data_type
      then obj_ul bus fuel s node (some obj) (stack_scalar s) err
        >>= (λ f. returned (take_member m val f))
      else returned (record { status = err_param; val = val; err = err; after = s })

  -- `canmat_obj_dl_u8` and its five sisters
  unfoldable pub obj_dl_member : Member → State → ℕ → Obj → ℕ → Option ℕ → Run (Downloaded State)
  obj_dl_member m s node obj val err =
      if has_type m obj.data_type
      then obj_dl bus fuel s node (some obj) (write m zero_scalar val) err
      else returned (record { status = err_param; err = err; after = s })

-- A `VAR` of a member's type, as canmatc writes it for `canmat_402_ul_…` and `canmat_402_dl_…`.
abbrev pub var_obj : Member → ℕ → ℕ → Obj
var_obj m idx subix = record {
  index = idx;
  subindex = subix;
  parameter_name = [];
  sub_number = 0;
  access_type = 0;
  object_type = object_type_var;
  data_type = type_of m;
  pdo_mapping = 0;
}

module _ (bus : Bus) (fuel : ℕ) where
  open bus use {State, stack_scalar, stack_msg}

  -- A typed upload of an object that does not return OK leaves the caller's value as it was.
  pub obj_ul_member-val_kept :
      (m : Member) (s : State) (node : ℕ) (obj : Obj) (val : ℕ) (err : Option ℕ)
      (u : Uploaded State)
      → obj_ul_member bus fuel m s node obj val err ≡ returned u
      → is_ok u.status ≡ false
      → u.val ≡ val
  unfolding obj_ul_member take_member
  obj_ul_member-val_kept m s node obj val err u h bad =
      elim (Bool-cases (has_type m obj.data_type)) [
        | inl t ↦
            let (f, e, d) =
              >>=-eq-returned (obj_ul bus fuel s node (some obj) (stack_scalar s) err)
                (λ f. returned (take_member bus fuel m val f)) (rw (t, obj_ul_member) at h) in
            ground (arith, d, bad)
        | inr t ↦ ground (arith, rw (t, obj_ul_member) at h)
      ]

  obj_dl-null_kept :
      (s : State) (node : ℕ) (obj : Obj) (val : Scalar) (d : Downloaded State)
      → obj_dl bus fuel s node (some obj) val none ≡ returned d
      → d.err ≡ none
  unfolding obj_dl take_stored
  obj_dl-null_kept s node obj val d h = elim (Bool-cases (obj.object_type == object_type_var)) [
    | inl t ↦
        let (out, e, r) =
          >>=-eq-returned
            (sdo_dl bus fuel s (record (obj_request node obj) { scalar = val }) (stack_msg s))
            (λ out. returned (take_stored bus fuel none out)) (rw (t) at h) in
        ground (arith, r)
    | inr t ↦ ground (arith, rw (t) at h)
  ]

  pub obj_dl_member-null_kept :
      (m : Member) (s : State) (node : ℕ) (obj : Obj) (val : ℕ) (d : Downloaded State)
      → obj_dl_member bus fuel m s node obj val none ≡ returned d
      → d.err ≡ none
  unfolding obj_dl_member
  obj_dl_member-null_kept m s node obj val d h = elim (Bool-cases (has_type m obj.data_type)) [
    | inl t ↦ obj_dl-null_kept s node obj (write m zero_scalar val) d (rw (t, obj_dl_member) at h)
    | inr t ↦ ground (arith, rw (t, obj_dl_member) at h)
  ]

  -- The dictionary's variables meet the interface.
  abbrev pub objects_of : Client
  objects_of = record {
    State = State;
    upload =
        λ m s node idx subix val err. obj_ul_member bus fuel m s node (var_obj m idx subix) val err;
    download =
        λ m s node idx subix val err. obj_dl_member bus fuel m s node (var_obj m idx subix) val err;
    send = bus.send;
    val_kept = λ m s node idx subix val err u h bad.
        obj_ul_member-val_kept m s node (var_obj m idx subix) val err u h bad;
    null_kept = λ m s node idx subix val d h.
        obj_dl_member-null_kept m s node (var_obj m idx subix) val d h;
  }
