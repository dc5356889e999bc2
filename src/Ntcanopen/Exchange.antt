-- ===== src/Ntcanopen/Exchange.antt =====
-- The exchange of messages by the legacy SDO client, and its typed transfers (src/ntcanopen.c).
use socanmatic.Base.{
  ℕ, zero, suc, ◌-◌, ◌+◌, ◌^◌, ◌%◌, false, ◌&&◌, not, ltb, Option, none, some, ◌==◌, if◌then◌else◌,
}
use socanmatic.Run.{Run, assert_failed, waiting, fault, returned, ◌>>=◌}
use socanmatic.Ntcan.{Cmsg, Ntcan, NtResult, is_success}
use socanmatic.Ntcanopen.{
  NtSdo, NtNmtMsg, max_sdo_data_length, nt_resp_id, translate_sdo, translate_can, translate_nmt,
  can_open_command, put_uint8, put_uint16, put_uint32, put_int32, get_uint8, get_uint16, get_uint32,
  get_int32,
}

-- `CANOPEN_EX_DL` and `CANOPEN_EX_UL`
abbrev pub canopen_ex_dl : ℕ
canopen_ex_dl = 1

abbrev pub canopen_ex_ul : ℕ
canopen_ex_ul = 2

-- What a transfer returns, with `*rcmd`, `*value` and the library after it.
pub record Transferred (State : Type 0) : Type 0 where
  pub result : NtResult
  pub rcmd : Option ℕ
  pub value : Option ℕ
  pub after : State

-- `if( p ) *p = v`
abbrev pub stored_cmd : Option ℕ → ℕ → Option ℕ
stored_cmd none v = none
stored_cmd (some old) v = some v

-- `put_sdo_dl_args`; `nodata_len` is a `uint8_t`.
unfoldable pub put_sdo_dl_args : NtSdo → ℕ → ℕ → ℕ → Run NtSdo
put_sdo_dl_args sdo node index subindex =
    if not (sdo.is_amc == 1) && ltb max_sdo_data_length sdo.length
    then assert_failed
    else let nodata_len : ℕ =
        if sdo.is_amc == 1 then 0 else (max_sdo_data_length + 2 ^ 8 - sdo.length) % 2 ^ 8 in
      let is_len_in_command : ℕ = if sdo.is_amc == 1 then 0 else 1 in
      can_open_command canopen_ex_dl nodata_len 1 is_len_in_command >>= λ c.
      returned (record sdo { command = c; node = node; index = index; subindex = subindex })

-- `put_sdo_ul_args`
unfoldable pub put_sdo_ul_args : NtSdo → ℕ → ℕ → ℕ → Run NtSdo
put_sdo_ul_args sdo node index subindex = can_open_command canopen_ex_ul 0 1 0 >>= λ c.
    returned
      (record sdo { command = c; node = node; index = index; subindex = subindex; length = 0 })

module _ (nt : Ntcan) where
  open nt use {State, can_write, can_read, can_id_add, can_id_delete, stack_cmsg}

  unfoldable pub id_add_sdo_response : State → ℕ → NtResult × State
  id_add_sdo_response s node = can_id_add s (nt_resp_id node)

  unfoldable pub id_delete_sdo_response : State → ℕ → NtResult × State
  id_delete_sdo_response s node = can_id_delete s (nt_resp_id node)

  -- `canOpenWriteSDO`
  unfoldable pub write_sdo : State → NtSdo → Run (NtResult × State)
  write_sdo s sdomsg = translate_sdo sdomsg false >>= λ msg.
      returned (can_write s (if sdomsg.is_amc == 1 then record msg { len = 8 } else msg))

  -- The loop of `canOpenWaitSDO`, for `fuel` rounds at most: the message with the identifier `id`,
  -- or the result of a failed read with no message.
  unfoldable pub wait_loop : ℕ → ℕ → State → Cmsg → Run (NtResult × Option Cmsg × State)
  wait_loop zero id s msg = waiting
  wait_loop (suc fuel) id s msg =
      let out = can_read s msg in
      let rest = wait_loop fuel id out.2 out.1 in
      if not (is_success out.0)
      then returned (out.0, none, out.2)
      else if out.1.id == id
      then returned (out.0, some out.1, out.2)
      else rest

  -- `canOpenWaitSDO` at a pointer that is not NULL; `*sdomsg` is left alone by a failed read.
  unfoldable pub wait_sdo : ℕ → State → NtSdo → Run (NtResult × NtSdo × State)
  wait_sdo fuel s sdomsg = wait_loop fuel (nt_resp_id sdomsg.node) s (stack_cmsg s) >>= λ out.
      elim out.1 [
        | none ↦ returned (out.0, sdomsg, out.2)
        | some msg ↦ translate_can sdomsg msg false >>= λ m. returned (out.0, m, out.2)
      ]

  -- `canOpenWaitSDO` at NULL, which `sdomsg->node` reads once a message came.
  unfoldable pub wait_sdo_null : State → Run (NtResult × State)
  wait_sdo_null s =
      let (ntr, got, s') = can_read s (stack_cmsg s) in
      if is_success ntr then fault else returned (ntr, s')

  -- `canOpenSDOWriteWait` at a response that is not NULL
  unfoldable pub sdo_write_wait : ℕ → State → NtSdo → NtSdo → Run (NtResult × NtSdo × State)
  sdo_write_wait fuel s req resp = write_sdo s req >>= λ w.
      if is_success w.0
      then wait_sdo fuel w.1 (record resp { node = req.node })
      else returned (w.0, resp, w.1)

  -- `canOpenSDOWriteWait` at NULL, with a local message in place of the response
  unfoldable pub sdo_write_wait_null : ℕ → State → NtSdo → NtSdo → Run (NtResult × State)
  sdo_write_wait_null fuel s req m = write_sdo s req >>= λ w.
      if is_success w.0
      then (wait_sdo fuel w.1 (record m { node = req.node }) >>= λ out. returned (out.0, out.2))
      else returned w

  -- `canOpenWriteNMT`
  unfoldable pub write_nmt : State → ℕ → NtNmtMsg → NtResult × State
  write_nmt s node nmt_msg = can_write s (translate_nmt (stack_cmsg s) node nmt_msg)

-- `stack_req` and `stack_resp` are what the local `msg` and `rmsg` of a transfer hold before
-- anything is stored in them.
module _ (nt : Ntcan) (stack_req stack_resp : NtSdo) where
  open nt use {State}

  -- The end of a download: `if( rcmd ) *rcmd = rmsg.command`.
  unfoldable pub end_dl : ℕ → State → Option ℕ → NtSdo → Run (Transferred State)
  end_dl fuel s rcmd msg = sdo_write_wait nt fuel s msg stack_resp >>= λ out. returned (record {
    result = out.0;
    rcmd = stored_cmd rcmd (out.1.command);
    value = none;
    after = out.2;
  })

  unfoldable pub dl_u8_amc : ℕ → State → Option ℕ → ℕ → ℕ → ℕ → ℕ → ℕ → Run (Transferred State)
  dl_u8_amc fuel s rcmd node index subindex value is_amc =
      put_sdo_dl_args (put_uint8 (record stack_req { is_amc = is_amc }) value) node index subindex
      >>= λ msg. end_dl fuel s rcmd msg

  unfoldable pub dl_u8 : ℕ → State → Option ℕ → ℕ → ℕ → ℕ → ℕ → Run (Transferred State)
  dl_u8 fuel s rcmd node index subindex value = dl_u8_amc fuel s rcmd node index subindex value 0

  -- The arguments are put before the value, so that the command is computed from the length that
  -- was on the stack.
  unfoldable pub dl_u16_amc : ℕ → State → Option ℕ → ℕ → ℕ → ℕ → ℕ → ℕ → Run (Transferred State)
  dl_u16_amc fuel s rcmd node index subindex value is_amc =
      put_sdo_dl_args (record stack_req { is_amc = is_amc }) node index subindex >>= λ msg.
      end_dl fuel s rcmd (put_uint16 msg value)

  unfoldable pub dl_u16 : ℕ → State → Option ℕ → ℕ → ℕ → ℕ → ℕ → Run (Transferred State)
  dl_u16 fuel s rcmd node index subindex value = dl_u16_amc fuel s rcmd node index subindex value 0

  unfoldable pub dl_u32_amc : ℕ → State → Option ℕ → ℕ → ℕ → ℕ → ℕ → ℕ → Run (Transferred State)
  dl_u32_amc fuel s rcmd node index subindex value is_amc =
      put_sdo_dl_args (record stack_req { is_amc = is_amc }) node index subindex >>= λ msg.
      end_dl fuel s rcmd (put_uint32 msg value)

  unfoldable pub dl_u32 : ℕ → State → Option ℕ → ℕ → ℕ → ℕ → ℕ → Run (Transferred State)
  dl_u32 fuel s rcmd node index subindex value = dl_u32_amc fuel s rcmd node index subindex value 0

  unfoldable pub dl_i32_amc : ℕ → State → Option ℕ → ℕ → ℕ → ℕ → ℕ → ℕ → Run (Transferred State)
  dl_i32_amc fuel s rcmd node index subindex value is_amc =
      put_sdo_dl_args (record stack_req { is_amc = is_amc }) node index subindex >>= λ msg.
      end_dl fuel s rcmd (put_int32 msg value)

  unfoldable pub dl_i32 : ℕ → State → Option ℕ → ℕ → ℕ → ℕ → ℕ → Run (Transferred State)
  dl_i32 fuel s rcmd node index subindex value = dl_i32_amc fuel s rcmd node index subindex value 0

  -- `if( value ) *value = get( &rmsg )`
  unfoldable pub fetched : Option ℕ → Run ℕ → Run (Option ℕ)
  fetched none m = returned none
  fetched (some old) m = m >>= λ v. returned (some v)

  -- The end of an upload, whatever the exchange returned.
  unfoldable pub end_ul :
      ℕ → State → Option ℕ → Option ℕ → (NtSdo → Run ℕ) → NtSdo → Run (Transferred State)
  end_ul fuel s rcmd value get msg = sdo_write_wait nt fuel s msg stack_resp >>= λ out.
      fetched value (get out.1) >>= λ v.
      returned (record {
        result = out.0;
        rcmd = stored_cmd rcmd (out.1.command);
        value = v;
        after = out.2;
      })

  unfoldable pub ul_u8 : ℕ → State → Option ℕ → Option ℕ → ℕ → ℕ → ℕ → Run (Transferred State)
  ul_u8 fuel s rcmd value node index subindex =
      put_sdo_ul_args stack_req node index subindex >>= λ msg.
      end_ul fuel s rcmd value get_uint8 msg

  unfoldable pub ul_u16_amc :
      ℕ → State → Option ℕ → Option ℕ → ℕ → ℕ → ℕ → ℕ → Run (Transferred State)
  ul_u16_amc fuel s rcmd value node index subindex is_amc =
      put_sdo_ul_args (record stack_req { is_amc = is_amc }) node index subindex >>= λ msg.
      end_ul fuel s rcmd value get_uint16 msg

  unfoldable pub ul_u16 : ℕ → State → Option ℕ → Option ℕ → ℕ → ℕ → ℕ → Run (Transferred State)
  ul_u16 fuel s rcmd value node index subindex = ul_u16_amc fuel s rcmd value node index subindex 0

  unfoldable pub ul_u32_amc :
      ℕ → State → Option ℕ → Option ℕ → ℕ → ℕ → ℕ → ℕ → Run (Transferred State)
  ul_u32_amc fuel s rcmd value node index subindex is_amc =
      put_sdo_ul_args (record stack_req { is_amc = is_amc }) node index subindex >>= λ msg.
      end_ul fuel s rcmd value get_uint32 msg

  unfoldable pub ul_u32 : ℕ → State → Option ℕ → Option ℕ → ℕ → ℕ → ℕ → Run (Transferred State)
  ul_u32 fuel s rcmd value node index subindex = ul_u32_amc fuel s rcmd value node index subindex 0

  unfoldable pub ul_i32_amc :
      ℕ → State → Option ℕ → Option ℕ → ℕ → ℕ → ℕ → ℕ → Run (Transferred State)
  ul_i32_amc fuel s rcmd value node index subindex is_amc =
      put_sdo_ul_args (record stack_req { is_amc = is_amc }) node index subindex >>= λ msg.
      end_ul fuel s rcmd value get_int32 msg

  unfoldable pub ul_i32 : ℕ → State → Option ℕ → Option ℕ → ℕ → ℕ → ℕ → Run (Transferred State)
  ul_i32 fuel s rcmd value node index subindex = ul_i32_amc fuel s rcmd value node index subindex 0
