-- ===== src/Tool/Main.antt =====
-- The choice and the start of a command (src/canmat.c): `posarg_cmd`, `posarg`, and `main` after its
-- options are read.
use Prim.Native.String.{String}
use socanmatic.Base.{ℕ, Bool, true, false, List, [], ◌∷◌, length, ltb, if◌then◌else◌}
use socanmatic.Base.Int.{ℤ, is_nonneg}
use socanmatic.Dict.Search.{BinarySearch}
use socanmatic.Run.{Run, assert_failed, returned, ◌>>=◌}
use socanmatic.Tool.{Host, Settings, World, hard_assert}
use socanmatic.Tool.Objects.{cmd_dict_dl, cmd_dict_ul, cmd_probe, cmd_map_rpdo}
use socanmatic.Tool.Poll.{cmd_dump, cmd_display}
use socanmatic.Tool.Send.{
  cmd_send, cmd_dl, cmd_dl_resp, cmd_ul, cmd_ul_resp, cmd_info, cmd_set, cmd_nmt,
}

-- The functions of type `cmd_fun_t`
pub data Command : Type 0 where
  dump display_frames send_raw dl_cmd dl_resp ul_cmd ul_resp dict_dl dict_ul : Command
  info set_var nmt_cmd probe map_rpdo : Command

-- The table `cmds`
abbrev pub cmds : List (String × Command)
cmds =
    ("dump", dump)
    ∷ ("display", display_frames)
    ∷ ("send", send_raw)
    ∷ ("dl", dl_cmd)
    ∷ ("dl-resp", dl_resp)
    ∷ ("ul", ul_cmd)
    ∷ ("ul-resp", ul_resp)
    ∷ ("dict-dl", dict_dl)
    ∷ ("dict-ul", dict_ul)
    ∷ ("info", info)
    ∷ ("set", set_var)
    ∷ ("nmt", nmt_cmd)
    ∷ ("probe", probe)
    ∷ ("map-rpdo", map_rpdo)
    ∷ []

-- The loop of `posarg_cmd`; `invalid_arg` does not return.
unfoldable pub posarg_cmd :
    (String → List ℕ → Bool) → List (String × Command) → List ℕ → Run Command
posarg_cmd same_word [] arg = assert_failed
posarg_cmd same_word ((n, c) ∷ table) arg =
    let rest = posarg_cmd same_word table arg in if same_word n arg then returned c else rest

module _ (h : Host) (bs : BinarySearch) (fuel : ℕ) where
  open h use {State, same_word}

  -- `opt_command(&canset, opt_npos, opt_pos)`; `fuel` bounds the receive loops and the polling.
  unfoldable pub opt_command : Settings → Command → List (List ℕ) → World State → Run (World State)
  opt_command cfg dump args w = cmd_dump h cfg fuel args w
  opt_command cfg display_frames args w = cmd_display h cfg bs fuel args w
  opt_command cfg send_raw args w = cmd_send h cfg args w
  opt_command cfg dl_cmd args w = cmd_dl h cfg args w
  opt_command cfg dl_resp args w = cmd_dl_resp h cfg args w
  opt_command cfg ul_cmd args w = cmd_ul h cfg args w
  opt_command cfg ul_resp args w = cmd_ul_resp h cfg args w
  opt_command cfg dict_dl args w = cmd_dict_dl h cfg bs fuel args w
  opt_command cfg dict_ul args w = cmd_dict_ul h cfg bs fuel args w
  opt_command cfg info args w = cmd_info h cfg args w
  opt_command cfg set_var args w = cmd_set h cfg args w
  opt_command cfg nmt_cmd args w = cmd_nmt h cfg args w
  opt_command cfg probe args w = cmd_probe h cfg bs fuel args w
  opt_command cfg map_rpdo args w = cmd_map_rpdo h cfg bs fuel args w

  -- The check of the descriptors of several interfaces
  unfoldable pub all_nonneg : List ℤ → Bool
  all_nonneg [] = true
  all_nonneg (fd ∷ fds) = let rest = all_nonneg fds in if is_nonneg fd then rest else false

  -- `main`, from the positional arguments on: the first is the command. `fds` are the descriptors of
  -- the interfaces that the options opened.
  unfoldable pub main : Settings → List ℤ → List (List ℕ) → World State → Run (World State)
  unfolding all_nonneg opt_command
  main cfg fds [] w = assert_failed
  main cfg fds (arg ∷ args) w = posarg_cmd same_word cmds arg >>= (λ cmd.
      hard_assert (if ltb 1 (length cfg.names) then all_nonneg fds else true)
        (hard_assert (ltb 0 (length cfg.names)) (opt_command cfg cmd args w)))
