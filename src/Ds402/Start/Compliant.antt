-- ===== src/Ds402/Start/Compliant.antt =====
-- A drive that follows the state machine of CiA 402, as far as src/ds402.c relies on it: what its
-- status word says, how it reacts to a control word, and how to a start message.
pub mod Commands
use socanmatic.Base.{
  ℕ, ◌/◌, ◌%◌, ◌^◌, ◌<◌, ◌≡◌, Bool, true, false, ◌&&◌, not, some, ◌==◌, if◌then◌else◌,
}
use socanmatic.Can.{ok}
use socanmatic.Run.{returned}
use socanmatic.Scalar.Member.{u16}
use socanmatic.Sdo.Typed.{Uploaded, Downloaded}
use socanmatic.Client.{Client}
use socanmatic.Nmt.{start_remote, nmt_frame}
use socanmatic.Ds402.State.{
  StateVal, off_nrdy, off_sw_on_disable, off_rdy, on_op_dis, on_op_en, on_quick_stop,
  fault_reaction_active, fault, unknown, state,
}
use socanmatic.Ds402.Start.{controlword_index, statusword_index}

abbrev pub is_set : ℕ → ℕ → Bool
is_set k v = v / 2 ^ k % 2 == 1

-- Where the commands quick stop, shutdown, switch on and enable operation lead.
abbrev pub stopped : StateVal → StateVal
stopped on_op_en = on_quick_stop
stopped off_rdy = off_sw_on_disable
stopped on_op_dis = off_sw_on_disable
stopped v = v

abbrev pub shut : StateVal → StateVal
shut off_sw_on_disable = off_rdy
shut on_op_dis = off_rdy
shut on_op_en = off_rdy
shut v = v

abbrev pub switched : StateVal → StateVal
switched off_rdy = on_op_dis
switched on_op_en = on_op_dis
switched v = v

abbrev pub enabled : StateVal → StateVal
enabled off_rdy = on_op_dis
enabled on_op_dis = on_op_en
enabled v = v

-- The command of a control word, by its low four bits.
abbrev pub obey : StateVal → ℕ → StateVal
obey v word =
    if not (is_set 1 word)
    then off_sw_on_disable
    else if not (is_set 2 word)
    then stopped v
    else if not (is_set 0 word)
    then shut v
    else if not (is_set 3 word)
    then switched v
    else enabled v

-- The reaction to a control word after the control word `old`: a fault is left by a rising edge of
-- bit 7, and a fault reaction is over when the next control word comes.
abbrev pub react : StateVal → ℕ → ℕ → StateVal
react off_nrdy old word = off_nrdy
react unknown old word = unknown
react fault old word = if is_set 7 word && not (is_set 7 old) then off_sw_on_disable else fault
react fault_reaction_active old word = fault
react v old word = obey v word

-- The reaction to the start message.
abbrev pub wake : StateVal → StateVal
wake off_nrdy = off_sw_on_disable
wake v = v

-- At `node` there is a drive whose state and last control word are `mode` and `last` of the
-- network, and no transfer to it fails. A control word has 16 bits.
pub record Compliant (c : Client) (node : ℕ) (mode : c.State → StateVal) (last : c.State → ℕ)
    : Type 0 where
  pub reads :
      (s : c.State) (val code : ℕ)
      → (u : Uploaded c.State) × (c.upload u16 s node statusword_index 0 val (some code)
          ≡ returned u)
        × (u.status ≡ ok)
        × (state u.val ≡ mode s)
        × (mode u.after ≡ mode s)
        × (last u.after ≡ last s)
  pub writes :
      (s : c.State) (word code : ℕ)
      → word < 2 ^ 16
      → (d : Downloaded c.State) × (c.download u16 s node controlword_index 0 word (some code)
          ≡ returned d)
        × (d.status ≡ ok)
        × (mode d.after ≡ react (mode s) (last s) word)
        × (last d.after ≡ word)
  pub starts :
      (s : c.State)
      → (t : c.State) × (c.send s (nmt_frame node start_remote) ≡ (ok, t))
        × (mode t ≡ wake (mode s))
        × (last t ≡ last s)
