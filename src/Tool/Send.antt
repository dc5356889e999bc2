-- ===== src/Tool/Send.antt =====
-- The commands of the tool (src/canmat.c) that send frames made of their arguments: send, dl, dl-resp,
-- ul, ul-resp, nmt, set and info.
use socanmatic.Base.{
  ℕ, suc, ◌%◌, ◌^◌, Bool, true, false, ◌||◌, List, [], ◌∷◌, length, Option, none, some, leb, ◌==◌,
  if◌then◌else◌,
}
use socanmatic.Bus.{is_ok}
use socanmatic.Can.{CanFrame}
use socanmatic.Nmt.{NmtMsg, start_remote, stop_remote, pre_op, reset_node, reset_com, send_nmt}
use socanmatic.Out.{name}
use socanmatic.Run.{Run, assert_failed, exited, returned, ◌>>=◌}
use socanmatic.Scalar.{Scalar}
use socanmatic.Sdo.Command.{scs_ex_ul, scs_ex_dl}
use socanmatic.Sdo.Encode.{sdo2can}
use socanmatic.Sdo.Msg.{SdoMsg}
use socanmatic.Tool.{
  Host, Settings, World, put, put_all, hard_assert, parse_u, parse_uhex, send_frame,
}

-- `CANMAT_NODE_MASK`
abbrev pub max_node : ℕ
max_node = 0x7F

-- `can.data[i] = v`, for `i` below 8
abbrev pub put_data_byte : CanFrame → ℕ → ℕ → CanFrame
put_data_byte can i v = record can {
  d0 = if i == 0 then v else can.d0;
  d1 = if i == 1 then v else can.d1;
  d2 = if i == 2 then v else can.d2;
  d3 = if i == 3 then v else can.d3;
  d4 = if i == 4 then v else can.d4;
  d5 = if i == 5 then v else can.d5;
  d6 = if i == 6 then v else can.d6;
  d7 = if i == 7 then v else can.d7;
}

-- `sdo->data.byte[ i ] = v`, for `i` below 4
abbrev pub put_byte : Scalar → ℕ → ℕ → Scalar
put_byte t i v = record t {
  byte0 = if i == 0 then v else t.byte0;
  byte1 = if i == 1 then v else t.byte1;
  byte2 = if i == 2 then v else t.byte2;
  byte3 = if i == 3 then v else t.byte3;
}

module _ (h : Host) (cfg : Settings) where
  open h use {State, same_word, strtoul, stack_frame, stack_msg}

  -- `can.data[i-1] = (uint8_t)parse_uhex(arg[i], 0xFF)`, from byte `i` on
  unfoldable pub parse_data : List (List ℕ) → ℕ → CanFrame → Run CanFrame
  parse_data [] i can = returned can
  parse_data (arg ∷ args) i can =
      parse_uhex strtoul arg 0xFF
      >>= (λ u. parse_data args (suc i) (put_data_byte can i (u % 2 ^ 8)))

  -- The frame of `cmd_send`
  unfoldable pub parse_frame : List (List ℕ) → CanFrame → Run CanFrame
  unfolding parse_data
  parse_frame [] can = assert_failed
  parse_frame (id ∷ bytes) can = hard_assert (leb (length bytes) 8) (
      parse_uhex strtoul id 0x7FF >>= (λ u.
        parse_data bytes 0 (record can { can_id = u % 2 ^ 16; can_dlc = length bytes % 2 ^ 8 })))

  unfoldable pub cmd_send : List (List ℕ) → World State → Run (World State)
  unfolding parse_frame
  cmd_send args w = parse_frame args (stack_frame w.after) >>= (λ can. send_frame h cfg can w)

  -- The loop of `parse_arg_sdo`, from byte `i` on; `with_data` is the test of the command.
  unfoldable pub parse_sdo_data : Bool → List (List ℕ) → ℕ → SdoMsg → Run SdoMsg
  parse_sdo_data with_data [] i sdo = returned sdo
  parse_sdo_data with_data (arg ∷ args) i sdo = hard_assert with_data (
      parse_uhex strtoul arg 0xFF >>= (λ u.
        parse_sdo_data with_data args (suc i)
          (record sdo { scalar = put_byte sdo.scalar i (u % 2 ^ 8) })))

  -- `parse_arg_sdo`, into an uninitialised message
  unfoldable pub parse_arg_sdo : Bool → List (List ℕ) → SdoMsg → Run SdoMsg
  unfolding parse_sdo_data
  parse_arg_sdo with_data (node ∷ index ∷ subindex ∷ bytes) sdo =
      hard_assert (leb (length bytes) 4) (
        parse_uhex strtoul node max_node >>= (λ n. parse_uhex strtoul index 0xFFFF >>= (λ i.
          parse_uhex strtoul subindex 0xFF >>= (λ j. parse_sdo_data with_data bytes 0 (record sdo {
            node = n % 2 ^ 8;
            index = i % 2 ^ 16;
            subindex = j % 2 ^ 8;
            length = length bytes % 2 ^ 8;
          })))))
  parse_arg_sdo with_data _ sdo = assert_failed

  -- What `cmd_ul_resp` and `cmd_dl_resp` do with the parsed message.
  unfoldable pub send_sdo : SdoMsg → World State → Run (World State)
  send_sdo sdo w = elim (sdo2can (stack_frame w.after) sdo true) [
    | none ↦ assert_failed
    | some (r, can) ↦ hard_assert (is_ok r) (send_frame h cfg can w)
  ]

  unfoldable pub cmd_ul_resp : List (List ℕ) → World State → Run (World State)
  unfolding parse_arg_sdo send_sdo
  cmd_ul_resp args w =
      parse_arg_sdo true args (stack_msg w.after)
      >>= (λ sdo. send_sdo (record sdo { cmd_spec = scs_ex_ul }) w)

  unfoldable pub cmd_dl_resp : List (List ℕ) → World State → Run (World State)
  unfolding parse_arg_sdo send_sdo
  cmd_dl_resp args w =
      parse_arg_sdo false args (stack_msg w.after)
      >>= (λ sdo. send_sdo (record sdo { cmd_spec = scs_ex_dl }) w)

  -- `cmd_ul` and `cmd_dl` are `assert(0)`.
  unfoldable pub cmd_ul : List (List ℕ) → World State → Run (World State)
  cmd_ul args w = assert_failed

  unfoldable pub cmd_dl : List (List ℕ) → World State → Run (World State)
  cmd_dl args w = assert_failed

  -- The chain of `strcasecmp` in `cmd_nmt`
  unfoldable pub nmt_word : List ℕ → Option NmtMsg
  nmt_word msg =
      if same_word "start" msg
      then some start_remote
      else if same_word "stop" msg
      then some stop_remote
      else if same_word "preop" msg
      then some pre_op
      else if same_word "reset-node" msg
      then some reset_node
      else if same_word "reset-com" msg
      then some reset_com
      else none

  -- `canmat_send_nmt` on the only interface, and the check of its status
  unfoldable pub send_nmt_checked : ℕ → NmtMsg → World State → Run (World State)
  send_nmt_checked node nmt w =
      let (r, s) = send_nmt (h.send 0) w.after node nmt in
      hard_assert (is_ok r) (returned (record w { after = s }))

  unfoldable pub cmd_nmt : List (List ℕ) → World State → Run (World State)
  unfolding nmt_word send_nmt_checked
  cmd_nmt (node_arg ∷ msg ∷ []) w = hard_assert (1 == length cfg.names) (
      parse_uhex strtoul node_arg max_node >>= (λ u. elim (nmt_word msg) [
        | none ↦ exited
        | some nmt ↦ send_nmt_checked (u % 2 ^ 8) nmt w
      ]))
  cmd_nmt _ w = assert_failed

  -- The loop of `cmd_set`, from interface `i`
  unfoldable pub set_each : List (List ℕ) → ℕ → ℕ → World State → Run (World State)
  set_each [] i kbps w = returned w
  set_each (n ∷ names) i kbps w =
      let (r, s) = h.set_kbps i w.after kbps in
      hard_assert (is_ok r) (set_each names (suc i) kbps (record w { after = s }))

  unfoldable pub cmd_set : List (List ℕ) → World State → Run (World State)
  unfolding set_each
  cmd_set (var ∷ val ∷ []) w =
      if same_word "bitrate" var || same_word "baud" var || same_word "kbps" var
      then parse_u strtoul val 10 1000 >>= (λ u. set_each cfg.names 0 (u % 2 ^ 32) w)
      else exited
  cmd_set _ w = assert_failed

  -- The loop of `cmd_info`, from interface `i`
  unfoldable pub info_each : List (List ℕ) → ℕ → World State → Run (World State)
  info_each [] i w = returned w
  info_each (n ∷ names) i w =
      let (r, out, s) = h.print_info i w.after in
      hard_assert (is_ok r) (
        info_each names (suc i) (put_all out (put "> %s\n" (name n ∷ []) (record w { after = s }))))

  unfoldable pub cmd_info : List (List ℕ) → World State → Run (World State)
  unfolding info_each
  cmd_info [] w = info_each cfg.names 0 w
  cmd_info (arg ∷ args) w = assert_failed
