-- ===== src/Display.antt =====
-- Printing a frame for people (src/display.c): the dispatch on the function code, NMT and error
-- control. SDO and emergency messages have their own modules.
pub mod Sdo
pub mod Emcy
mod Returns
mod Shown
mod Classes
mod Tests
use Prim.Native.String.{String}
use socanmatic.Base.{
  ℕ, Bool, true, false, ◌||◌, List, [], ◌∷◌, Option, ltb, leb, ◌==◌, if◌then◌else◌,
}
use socanmatic.Can.{CanFrame, frame_func, frame_node}
use socanmatic.Can.FuncCode
use socanmatic.Dict.{Obj}
use socanmatic.Nmt.{NmtMsg, nmt_code, start_remote, stop_remote, pre_op, reset_node, reset_com}
use socanmatic.Nmt.{NmtErr, nmt_err_code, err_boot, err_stopped, err_op, err_pre_op}
use socanmatic.Out.{Output, num, text, dump_frame, display_raw, display_malformed}
use socanmatic.Run.{Run, assert_failed, returned, ◌>>=◌}
use socanmatic.Sdo.Msg.{SdoMsg}
use Sdo.{display_sdo}
use Emcy.{display_emcy}

-- The switch over `data[0]` in `display_nmt`
unfoldable pub nmt_action : ℕ → String
nmt_action code =
    if code == nmt_code start_remote
    then "start"
    else if code == nmt_code stop_remote
    then "stop"
    else if code == nmt_code pre_op
    then "pre-op"
    else if code == nmt_code reset_node
    then "reset-node"
    else if code == nmt_code reset_com
    then "reset-com"
    else "unknown"

unfoldable pub display_nmt : CanFrame → Run Output
unfolding nmt_action
display_nmt can =
    if FuncCode.nmt == can.can_id
    then (if leb 2 can.can_dlc
        then returned (
            record {
              format = "nmt, node 0x%x '%s' (0x%x)\n";
              args = num can.d1 ∷ text (nmt_action can.d0) ∷ num can.d0 ∷ [];
            }
            ∷ [])
        else display_malformed can)
    else assert_failed

-- The switch over `data[0]` in `display_nmt_err`
unfoldable pub nmt_err_status : ℕ → String
nmt_err_status code =
    if code == nmt_err_code err_boot
    then "boot"
    else if code == nmt_err_code err_stopped
    then "stopped"
    else if code == nmt_err_code err_op
    then "operational"
    else if code == nmt_err_code err_pre_op
    then "pre-operational"
    else "unknown"

unfoldable pub display_nmt_err : CanFrame → Run Output
unfolding nmt_err_status
display_nmt_err can =
    if FuncCode.nmt_err == frame_func can
    then (if ltb can.can_dlc 1
        then display_malformed can
        else returned (
            record {
              format = "nmt-err (0x%03x), node 0x%02x '%s' (0x%02x)\n";
              args =
                  num (frame_func can)
                  ∷ num (frame_node can)
                  ∷ text (nmt_err_status can.d0)
                  ∷ num can.d0
                  ∷ [];
            }
            ∷ []))
    else assert_failed

-- `canmat_display`. `search` is `canmat_dict_search_index` on the dictionary, and `stack` what the
-- local message of `display_sdo` holds at first.
unfoldable pub display : (ℕ → ℕ → Option Obj) → SdoMsg → CanFrame → Run Output
display search stack can =
    let func = frame_func can in
    if FuncCode.nmt == func
    then display_nmt can
    else if (FuncCode.sdo_tx == func) || (FuncCode.sdo_rx == func)
    then display_sdo search stack can
    else if FuncCode.nmt_err == func
    then display_nmt_err can
    else if FuncCode.sync_emcy == func
    then display_emcy can
    else display_raw can
