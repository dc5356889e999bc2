-- ===== src/Ds402/OpMode.antt =====
-- `canmat_402_set_op_mode` (src/ds402.c): the choice of the velocity mode, and the mapping of its
-- target to the user's RPDO.
mod Tests
use socanmatic.Base.{
  ℕ, zero, suc, ◌-◌, ◌%◌, ◌^◌, ◌≡◌, ◌≢◌, refl, sym, ap, ◌∙◌, Bool, true, false, not, ◌||◌, Option,
  some, none, List, [], ◌∷◌, bit_and, bit_or, ◌==◌, ==→eq, if◌then◌else◌, arith, Bool-cases, inl,
  inr,
}
use socanmatic.Base.Int.{ℤ, pos, negsuc, exceeds, is_nonneg, to_unsigned}
use socanmatic.Can.{Status, ok, err_param, err_motion}
use socanmatic.DataType.{integer16}
use socanmatic.Bus.{Bus, is_ok}
use socanmatic.Run.{Run, returned, ◌>>=◌, >>=-eq-returned}
use socanmatic.Scalar.{zero_scalar}
use socanmatic.Scalar.Member.{i8, u16}
use socanmatic.Dict.{Obj}
use socanmatic.Dict.Transfer.{object_type_var, obj_dl}
use socanmatic.Dict.Typed.{objects_of}
use socanmatic.Client.OfBus.{client_of}
use socanmatic.Sdo.Typed.{Downloaded}
use socanmatic.Pdo.{dl, remap}
use socanmatic.Ds402.Words.{Masks, masked}
use socanmatic.Ds402.Start.{
  controlword_index, Drive, Outcome, then_do, code_of, store_ctrl, dl_ctrlmask,
}

-- `CANMAT_402_OP_MODE_VELOCITY`
abbrev pub mode_velocity : ℕ
mode_velocity = 2

-- `CANMAT_402_OBJ_VL_TARGET_VELOCITY`, an entry of the table that canmatc generates; what only
-- printing reads is left 0.
abbrev pub vl_target_velocity : Obj
vl_target_velocity = record {
  index = 0x6042;
  subindex = 0;
  parameter_name = [];
  sub_number = 0;
  access_type = 0;
  object_type = object_type_var;
  data_type = integer16;
  pdo_mapping = 1;
}

-- `ctrl_and` and `ctrl_or` of the velocity mode
abbrev pub velocity_masks : Masks
velocity_masks = record { keep = 0xFFFF; put = bit_or (bit_or (2 ^ 4) (2 ^ 5)) (2 ^ 6) }

-- `drive->ctrl_word & CANMAT_402_CTRLMASK_HALT`, as a condition
abbrev pub is_halted : Drive → Bool
is_halted drive = not (bit_and drive.ctrl_word (2 ^ 8) == 0)

module _ (bus : Bus) (fuel : ℕ) where
  open bus use {State}

  -- A download through `&drive->abort_code`, as a step of the drive's functions.
  unfoldable pub told : Drive → Run (Downloaded State) → Run (Outcome State)
  told drive m = m >>= λ d. returned (record {
    status = d.status;
    drive = record drive { abort_code = code_of (objects_of bus fuel) drive.abort_code d.err };
    after = d.after;
  })

  -- `drive->op_mode = op_mode`, unless the download failed.
  unfoldable pub store_mode : ℕ → Outcome State → Outcome State
  store_mode op_mode o = record o {
    drive = if is_ok o.status then record (o.drive) { op_mode = op_mode } else o.drive;
  }

  -- `canmat_402_dl_modes_of_operation`
  unfoldable pub dl_mode : ℕ → Drive → State → Run (Outcome State)
  dl_mode op_mode drive s = told drive (
      (objects_of bus fuel).download i8 s drive.node_id 0x6060 0 (op_mode % 2 ^ 8)
        (some drive.abort_code))

  unfoldable pub dl_op_mode : ℕ → Drive → State → Run (Outcome State)
  dl_op_mode op_mode drive s = dl_mode op_mode drive s >>= λ o. returned (store_mode op_mode o)

  -- `canmat_obj_dl( …, ref_obj, &ref_val, … )`
  unfoldable pub dl_reference : Drive → State → Run (Outcome State)
  dl_reference drive s = told drive (
      obj_dl bus fuel s drive.node_id (some vl_target_velocity) zero_scalar (some drive.abort_code))

  unfoldable pub map_object : ℕ → Drive → State → Run (Outcome State)
  map_object comm drive s = told drive (
      remap (client_of bus fuel) drive.node_id (to_unsigned 8 drive.rpdo_user) dl (pos 255)
        (negsuc 0) (negsuc 0) 1 (vl_target_velocity ∷ []) comm s (some drive.abort_code))

  -- The control word, and then the status of the mapping.
  unfoldable pub finish : Outcome State → Run (Outcome State)
  finish o =
      then_do (objects_of bus fuel)
        (dl_ctrlmask (objects_of bus fuel) velocity_masks o.drive o.after)
        λ d t. returned (record { status = o.status; drive = d; after = t })

  unfoldable pub map_target : ℕ → Drive → State → Run (Outcome State)
  map_target comm drive s = map_object comm drive s >>= finish

  -- The mode and the reference of no motion, unless the mode is set already.
  unfoldable pub set_mode :
      ℕ → Drive → State → (Drive → State → Run (Outcome State)) → Run (Outcome State)
  set_mode op_mode drive s k =
      if op_mode == drive.op_mode
      then k drive s
      else if is_halted drive
      then (then_do (objects_of bus fuel) (dl_op_mode op_mode drive s)
          λ d1 s1. then_do (objects_of bus fuel) (dl_reference d1 s1) k)
      else returned (record { status = err_motion; drive = drive; after = s })

  -- `comm` is the content of the uninitialised local variable of `canmat_pdo_remap`.
  unfoldable pub set_op_mode : ℕ → ℕ → Drive → State → Run (Outcome State)
  set_op_mode op_mode comm drive s =
      let refused : Run (Outcome State) =
        returned (record { status = err_param; drive = drive; after = s }) in
      if not (is_nonneg drive.rpdo_user) || exceeds drive.rpdo_user 0xFF
      then refused
      else if op_mode == mode_velocity
      then set_mode op_mode drive s (map_target comm)
      else refused

module _ (bus : Bus) (fuel : ℕ) where
  open bus use {State}

  -- A chain returns OK only after its first step did.
  then_do-eq-returned :
      (m : Run (Outcome State)) (k : Drive → State → Run (Outcome State)) (o : Outcome State)
      → then_do (objects_of bus fuel) m k ≡ returned o
      → is_ok o.status ≡ true
      → (o1 : Outcome State) × (m ≡ returned o1)
        × (is_ok o1.status ≡ true)
        × (k o1.drive o1.after ≡ returned o)
  then_do-eq-returned m k o h good =
      let (o1, e, r) =
        >>=-eq-returned m (λ o. if is_ok o.status then k o.drive o.after else returned o) h in
      elim (Bool-cases (is_ok o1.status)) [
        | inl t ↦ (o1, e, t, rw (t) at r)
        | inr t ↦ absurd (ground (arith, t, rw (t) at r, good))
      ]

  told-keeps :
      (drive : Drive) (m : Run (Downloaded State)) (o : Outcome State)
      → told bus fuel drive m ≡ returned o
      → o.drive.op_mode ≡ drive.op_mode
  unfolding told
  told-keeps drive (returned d) o h = ground (arith, h)
  told-keeps drive _ o h = absurd (cc)

  dl_ctrlmask-keeps :
      (m : Masks) (drive : Drive) (s : State) (o : Outcome State)
      → dl_ctrlmask (objects_of bus fuel) m drive s ≡ returned o
      → o.drive.op_mode ≡ drive.op_mode
  unfolding dl_ctrlmask store_ctrl
  dl_ctrlmask-keeps m drive s o h =
      let ctrl = masked m drive.ctrl_word % 2 ^ 16 in
      let (d, e, r) =
        >>=-eq-returned
          ((objects_of bus fuel).download u16 s drive.node_id controlword_index 0 ctrl
            (some drive.abort_code))
          (λ d. returned (store_ctrl (objects_of bus fuel) ctrl drive d)) h in
      ground (arith, r)

  map_target-keeps :
      (comm : ℕ) (drive : Drive) (s : State) (o : Outcome State)
      → map_target bus fuel comm drive s ≡ returned o
      → is_ok o.status ≡ true
      → o.drive.op_mode ≡ drive.op_mode
  unfolding map_target map_object finish
  map_target-keeps comm drive s o h good =
      let (o1, e1, r1) = >>=-eq-returned (map_object bus fuel comm drive s) (finish bus fuel) h in
      let (o2, e2, g2, r2) =
        then_do-eq-returned (dl_ctrlmask (objects_of bus fuel) velocity_masks o1.drive o1.after)
          (λ d t. returned (record { status = o1.status; drive = d; after = t })) o r1 good in
      let last : o.drive.op_mode ≡ o2.drive.op_mode = ground (arith, r2) in
      last ∙ (dl_ctrlmask-keeps velocity_masks o1.drive o1.after o2 e2 ∙ told-keeps drive _ o1 e1)

  dl_op_mode-sets :
      (op_mode : ℕ) (drive : Drive) (s : State) (o : Outcome State)
      → dl_op_mode bus fuel op_mode drive s ≡ returned o
      → is_ok o.status ≡ true
      → o.drive.op_mode ≡ op_mode
  unfolding dl_op_mode store_mode
  dl_op_mode-sets op_mode drive s o h good =
      let (o1, e1, r1) =
        >>=-eq-returned (dl_mode bus fuel op_mode drive s)
          (λ o. returned (store_mode bus fuel op_mode o)) h in
      ground (arith, r1, good)

  -- `canmat_402_set_op_mode` returns OK only with the requested mode in `drive->op_mode`, and only
  -- for the velocity mode.
  pub set_op_mode-sets :
      (op_mode comm : ℕ) (drive : Drive) (s : State) (o : Outcome State)
      → set_op_mode bus fuel op_mode comm drive s ≡ returned o
      → is_ok o.status ≡ true
      → (o.drive.op_mode ≡ op_mode) × (op_mode ≡ mode_velocity)
  unfolding set_op_mode set_mode dl_reference
  set_op_mode-sets op_mode comm drive s o h good =
      elim (Bool-cases (not (is_nonneg drive.rpdo_user) || exceeds drive.rpdo_user 0xFF)) [
        | inl t ↦ absurd (ground (arith, rw (t) at h, good))
        | inr t ↦ elim (Bool-cases (op_mode == mode_velocity)) [
          | inr n ↦ absurd (ground (arith, rw (t, n) at h, good))
          | inl v ↦ elim (Bool-cases (op_mode == drive.op_mode)) [
            | inl q ↦ (
              map_target-keeps comm drive s o (rw (t, v, q) at h) good
                  ∙ sym (==→eq op_mode drive.op_mode q),
              ==→eq op_mode mode_velocity v,
            )
            | inr q ↦ elim (Bool-cases (is_halted drive)) [
              | inr l ↦ absurd (ground (arith, rw (t, v, q, l) at h, good))
              | inl l ↦
                  let (o1, e1, g1, r1) =
                    then_do-eq-returned (dl_op_mode bus fuel op_mode drive s) _ o
                      (rw (t, v, q, l) at h) good in
                  let (o2, e2, g2, r2) =
                    then_do-eq-returned (dl_reference bus fuel o1.drive o1.after)
                      (map_target bus fuel comm) o r1 good in
                  (
                    map_target-keeps comm o2.drive o2.after o r2 good
                        ∙ (told-keeps o1.drive _ o2 e2 ∙ dl_op_mode-sets op_mode drive s o1 e1 g1),
                    ==→eq op_mode mode_velocity v,
                  )
            ]
          ]
        ]
      ]
