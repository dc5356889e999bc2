-- ===== src/Ds402/Start.antt =====
-- The control word and the start of a drive (src/ds402.c), over the typed transfers of the drive's
-- objects and the sending of a frame.
pub mod Enabled
pub mod Compliant
pub mod Reaches
pub mod OnBus
use socanmatic.Base.{
  ℕ, zero, suc, Bool, true, false, List, [], ◌∷◌, Option, none, some, ◌%◌, ◌^◌, if◌then◌else◌,
}
use socanmatic.Base.Int.{ℤ}
use socanmatic.Can.{CanFrame, Status, ok, err_proto, err_dev}
use socanmatic.Bus.{is_ok}
use socanmatic.Run.{Run, returned, ◌>>=◌}
use socanmatic.Scalar.Member.{u16}
use socanmatic.Sdo.Typed.{Uploaded, Downloaded}
use socanmatic.Client.{Client}
use socanmatic.Nmt.{start_remote, send_nmt}
use socanmatic.Ds402.Words.{
  Masks, shutdown_cmd, switch_on_cmd, disable_voltage_cmd, enable_op_cmd, reset_fault_cmd, masked,
}
use socanmatic.Ds402.State.{
  StateVal, off_nrdy, off_sw_on_disable, off_rdy, on_op_dis, on_op_en, on_quick_stop,
  fault_reaction_active, fault, unknown, state,
}

-- The objects 0x6040 and 0x6041 of eds/dsp402.eds
abbrev pub controlword_index : ℕ
controlword_index = 0x6040

abbrev pub statusword_index : ℕ
statusword_index = 0x6041

-- The fields of `struct canmat_402_drive` that the start of a drive and the choice of its mode read
-- or write.
pub record Drive : Type 0 where
  pub node_id : ℕ
  pub ctrl_word : ℕ
  pub stat_word : ℕ
  pub abort_code : ℕ
  pub op_mode : ℕ
  pub rpdo_user : ℤ

-- What a function returns, with `*drive` and the network after it.
pub record Outcome (State : Type 0) : Type 0 where
  pub status : Status
  pub drive : Drive
  pub after : State

module _ (c : Client) where
  open c use {State, upload, download, send}

  -- `CHECK_STATUS` before the rest of the function.
  abbrev pub then_do :
      Run (Outcome State) → (Drive → State → Run (Outcome State)) → Run (Outcome State)
  then_do m k = m >>= λ o. if is_ok o.status then k o.drive o.after else returned o

  -- `&drive->abort_code` is not NULL; a code that is not stored is the old one.
  abbrev pub code_of : ℕ → Option ℕ → ℕ
  code_of old none = old
  code_of old (some code) = code

  -- After the download: `if( CANMAT_OK == r ) drive->ctrl_word = ctrl`.
  unfoldable pub store_ctrl : ℕ → Drive → Downloaded State → Outcome State
  store_ctrl ctrl drive d =
      let told = record drive { abort_code = code_of drive.abort_code d.err } in
      record {
        status = d.status;
        drive = if is_ok d.status then record told { ctrl_word = ctrl } else told;
        after = d.after;
      }

  unfoldable pub dl_ctrlmask : Masks → Drive → State → Run (Outcome State)
  dl_ctrlmask m drive s =
      let ctrl = masked m drive.ctrl_word % 2 ^ 16 in
      download u16 s drive.node_id controlword_index 0 ctrl (some drive.abort_code) >>= λ d.
      returned (store_ctrl ctrl drive d)

  -- `canmat_402_ul_statusword( …, &drive->stat_word, &drive->abort_code )`
  unfoldable pub ul_statusword : Drive → State → Run (Outcome State)
  ul_statusword drive s =
      upload u16 s drive.node_id statusword_index 0 drive.stat_word (some drive.abort_code) >>= λ u.
      returned (record {
        status = u.status;
        drive = record drive { stat_word = u.val; abort_code = code_of drive.abort_code u.err };
        after = u.after;
      })

  unfoldable pub start_nmt : Drive → State → Run (Outcome State)
  start_nmt drive s =
      let (r, s') = send_nmt send s drive.node_id start_remote in
      returned (record { status = r; drive = drive; after = s' })

  -- The commands after a fault: shutdown, the start message, and the reset of the fault.
  recover : Drive → State → Run (Outcome State)
  recover drive s =
      then_do (dl_ctrlmask shutdown_cmd drive s)
        λ d1 s1. then_do (start_nmt d1 s1) λ d2 s2. dl_ctrlmask reset_fault_cmd d2 s2

  -- One round of the switch over the state, before the next rounds.
  unfoldable pub act :
      StateVal → Drive → State → (Drive → State → Run (Outcome State)) → Run (Outcome State)
  unfolding recover
  act off_nrdy drive s next = then_do (start_nmt drive s) next
  act off_sw_on_disable drive s next = then_do (dl_ctrlmask shutdown_cmd drive s) next
  act off_rdy drive s next = then_do (dl_ctrlmask switch_on_cmd drive s) next
  act on_op_dis drive s next = then_do (dl_ctrlmask enable_op_cmd drive s) next
  act on_op_en drive s next = returned (record { status = ok; drive = drive; after = s })
  act on_quick_stop drive s next = then_do (dl_ctrlmask disable_voltage_cmd drive s) next
  act fault_reaction_active drive s next = then_do (recover drive s) next
  act fault drive s next = then_do (recover drive s) next
  act unknown drive s next = returned (record { status = err_proto; drive = drive; after = s })

  -- `while( c++ < 100 )`, with the number of rounds that are left.
  unfoldable pub start_loop : ℕ → Drive → State → Run (Outcome State)
  start_loop zero drive s = returned (record { status = err_dev; drive = drive; after = s })
  start_loop (suc rounds) drive s =
      then_do (ul_statusword drive s) λ d1 s1. act (state d1.stat_word) d1 s1 (start_loop rounds)

  unfoldable pub start : Drive → State → Run (Outcome State)
  start drive s = start_loop 100 drive s

  unfoldable pub stop : Drive → State → Run (Outcome State)
  stop drive s = dl_ctrlmask shutdown_cmd drive s
