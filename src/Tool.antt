-- ===== src/Tool.antt =====
-- The command line tool (src/canmat.c) and its helpers (src/util.c): what the tool runs on, the
-- parsing of numbers, and the sending of frames. A `hard_assert` that fails prints a message and calls
-- `abort`, as `assert` does; `exit` ends the process otherwise. Messages go to the standard output or
-- the standard error, here to one list in their order.
pub mod Send
pub mod Objects
pub mod Poll
pub mod Main
pub mod Options
pub mod Valid
pub mod Everywhere
mod Reads
mod Polls
mod Tests
use Prim.Native.String.{String}
use socanmatic.Base.{
  ℕ, zero, suc, ◌+◌, ◌%◌, ◌^◌, Bool, true, false, ◌&&◌, not, List, [], ◌∷◌, ◌++◌, length, Option,
  ltb, leb, ◌==◌, if◌then◌else◌,
}
use socanmatic.Base.Int.{ℤ}
use socanmatic.Bus.{Bus, is_ok}
use socanmatic.Can.{CanFrame, Status}
use socanmatic.Dict.{Obj}
use socanmatic.Dict.Print.{Descriptors}
use socanmatic.Dict.Search.{Dictionary, BinarySearch}
use socanmatic.Out.{Output, Print, Arg, num, text, name, puts, dump_frame}
use socanmatic.Run.{Run, assert_failed, returned, ◌>>=◌}
use socanmatic.Scalar.{Scalar}
use socanmatic.Sdo.Msg.{SdoMsg}
use socanmatic.Texts.{iface_strerror}

-- `pfd[i].revents`
pub record Revents : Type 0 where
  pub pollin : Bool
  pub pollerr : Bool
  pub pollhup : Bool
  pub pollnval : Bool

-- The drivers of the open interfaces, by the interface's position, the contents of uninitialised
-- variables, and the C library. `same_word literal arg` is `0 == strcasecmp( literal, arg )`;
-- `strtoul arg base` and `strtol arg` are the number and whether `errno` is set.
pub record Host : Type 1 where
  pub State : Type 0
  pub send : ℕ → State → CanFrame → Status × State
  pub recv : ℕ → State → CanFrame → Status × CanFrame × State
  pub set_kbps : ℕ → State → ℕ → Status × State
  pub print_info : ℕ → State → Status × Output × State
  pub driver_text : ℕ → State → String
  pub stack_frame : State → CanFrame
  pub stack_msg : State → SdoMsg
  pub stack_scalar : State → Scalar
  pub stack_word : State → ℕ
  pub same_word : String → List ℕ → Bool
  pub strcasecmp : List ℕ → List ℕ → ℤ
  pub strtoul : List ℕ → ℕ → ℕ × Bool
  pub strtol : List ℕ → ℤ × Bool
  pub errno_text : State → String
  pub poll : State → ℤ × (ℕ → Revents) × State
  pub clock : State → ℕ × ℕ × State

-- The interface at a position, as the library's functions take it
abbrev pub bus_at : Host → ℕ → Bus
bus_at h i = record {
  State = h.State;
  send = h.send i;
  recv = h.recv i;
  stack_frame = h.stack_frame;
  stack_msg = h.stack_msg;
  stack_scalar = h.stack_scalar;
}

-- `opt_verbosity`, `opt_timestamp`, the names of the open interfaces, and the dictionary
-- `canmat_dict402`, which is generated, with what its objects have for printing.
pub record Settings : Type 0 where
  pub verbosity : ℕ
  pub timestamp : Bool
  pub names : List (List ℕ)
  pub dict402 : Dictionary
  pub descriptors : Obj → Descriptors

pub record World (State : Type 0) : Type 0 where
  pub after : State
  pub printed : Output

abbrev pub put : {State : Type 0} → String → List Arg → World State → World State
put format args w = record w {
  printed = w.printed ++ (record { format = format; args = args } ∷ []);
}

abbrev pub put_all : {State : Type 0} → Output → World State → World State
put_all out w = record w { printed = w.printed ++ out }

-- `hard_assert( test, ... )`, before what follows it
abbrev pub hard_assert : {A : Type 0} → Bool → Run A → Run A
hard_assert test k = if test then k else assert_failed

-- `parse_u`, and `parse_uhex`, where the base is 16
unfoldable pub parse_u : (List ℕ → ℕ → ℕ × Bool) → List ℕ → ℕ → ℕ → Run ℕ
parse_u strtoul arg base max =
    let (u, errno) = strtoul arg base in
    hard_assert (not errno) (hard_assert (leb u max) (returned u))

unfoldable pub parse_uhex : (List ℕ → ℕ → ℕ × Bool) → List ℕ → ℕ → Run ℕ
unfolding parse_u
parse_uhex strtoul arg max = parse_u strtoul arg 16 max

-- `verbf`: the mark and the message, if the level is within the verbosity
unfoldable pub verbf : {State : Type 0} → ℕ → ℕ → String → List Arg → World State → World State
verbf verbosity level format args w =
    if leb level verbosity then put format args (put "# " [] w) else w

module _ (h : Host) (cfg : Settings) where
  open h use {State, send, driver_text, errno_text}

  -- `canmat_iface_strerror( canset->cif[i], r )`
  abbrev pub error_text : ℕ → Status → World State → Arg
  error_text i r w = text (iface_strerror (driver_text i w.after) r)

  -- The loop over the interfaces in `send_frame`, from position `i`
  unfoldable pub send_each : List (List ℕ) → ℕ → CanFrame → World State → World State
  send_each [] i can w = w
  send_each (n ∷ names) i can w =
      let (r, s) = send i w.after can in
      let sent : World State = record w { after = s } in
      send_each names (suc i) can (
        if is_ok r
        then sent
        else put "Couldn't send frame on %s: %s\n" (name n ∷ text (errno_text s) ∷ []) sent)

  -- `send_frame`, which returns 0
  unfoldable pub send_frame : CanFrame → World State → Run (World State)
  unfolding send_each verbf
  send_frame can w =
      if not (cfg.verbosity == 0)
      then dump_frame can >>= (λ out.
        returned (send_each cfg.names 0 can (put_all out (verbf cfg.verbosity 1 "Sending " [] w))))
      else returned (send_each cfg.names 0 can w)
