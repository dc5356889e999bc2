-- ===== src/Can402/Options.antt =====
-- The options of the daemon (src/can402.c): `parse`. What `getopt` reads is given as a list.
pub mod Checked
mod Tests
use socanmatic.Base.{
  ℕ, suc, ◌+◌, ◌%◌, ◌^◌, Bool, true, false, not, List, [], ◌∷◌, ◌++◌, length, Option, none, some,
  ltb, ◌==◌, if◌then◌else◌,
}
use socanmatic.Base.Int.{ℤ, pos, negsuc}
use socanmatic.Can.{Status}
use socanmatic.Can402.{Double}
use socanmatic.Run.{Run, exited, returned, ◌>>=◌}
use socanmatic.Tool.{parse_u}
use socanmatic.Tool.Options.{open_iface, default_api}
use socanmatic.Tool.Send.{max_node}

-- The cases of the switch. The options of the Sns library are its own.
pub data DaemonOpt : Type 0 where
  show_version show_help sns_option : DaemonOpt
  set_api set_cif set_chan_ref set_chan_state set_chan_event : List ℕ → DaemonOpt
  add_node set_offset set_rpdo_ctrl set_rpdo_user invalid : List ℕ → DaemonOpt

-- The fields of a drive that the options set
pub record NodeOpts (W : Type 0) : Type 0 where
  pub node_id : ℕ
  pub ctrl_pdo : ℕ
  pub user_pdo : ℕ
  pub tpdo_user : ℕ
  pub tpdo_stat : ℤ
  pub pos_factor : W
  pub vel_factor : W
  pub pos_offset : W

-- The options so far; `nodes` is `drive_set.drive` up to `drive_set.n`.
pub record DaemonOpts (W Cif : Type 0) : Type 0 where
  pub api_type : List ℕ
  pub cif : Option Cif
  pub chan_ref : Option (List ℕ)
  pub chan_state : Option (List ℕ)
  pub chan_event : Option (List ℕ)
  pub opt_rpdo_ctrl : ℕ
  pub opt_rpdo_user : ℕ
  pub nodes : List (NodeOpts W)

-- `SNS_REQUIRE( test, ... )`, before what follows it
abbrev pub sns_require : {A : Type 0} → Bool → Run A → Run A
sns_require test k = if test then k else exited

-- `drive[ n - 1 ]`, if there is one
abbrev pub on_last : {A : Type 0} → (A → A) → List A → List A
on_last f [] = []
on_last f (x ∷ []) = f x ∷ []
on_last f (x ∷ y ∷ xs) = x ∷ on_last f (y ∷ xs)

-- Where `opt_chan_ref` and `opt_chan_state` are `none`, they are the defaults of the code.
abbrev pub daemon_defaults : {W Cif : Type 0} → DaemonOpts W Cif
daemon_defaults = record {
  api_type = default_api;
  cif = none;
  chan_ref = none;
  chan_state = none;
  chan_event = none;
  opt_rpdo_ctrl = 0;
  opt_rpdo_user = 1;
  nodes = [];
}

-- The last loop: distinct PDOs for each drive
unfoldable pub distinct_pdos : {W : Type 0} → List (NodeOpts W) → Bool
distinct_pdos [] = true
distinct_pdos (d ∷ ds) =
    let rest = distinct_pdos ds in if d.user_pdo == d.ctrl_pdo then false else rest

abbrev pub is_given : {A : Type 0} → Option A → Bool
is_given none = false
is_given (some c) = true

-- `pi` is `M_PI`, and `atof` and `strtoul` are the C library's.
module _ {W Cif : Type 0} (f : Double W) (pi : W) (atof : List ℕ → W)
    (strtoul : List ℕ → ℕ → ℕ × Bool) (new : List ℕ → Option Cif)
    (open_cif : Cif → List ℕ → Status × Cif) where
  open f use {of_int, mul, div}

  -- `opt_vel_factor` and `opt_pos_factor`
  abbrev pub default_factor : W
  default_factor = mul (div (of_int (pos 180)) pi) (of_int (pos 1000))

  -- `atof(optarg) * M_PI / 180.0`
  abbrev pub offset_of : List ℕ → W
  offset_of arg = div (mul (atof arg) pi) (of_int (pos 180))

  abbrev pub new_node : ℕ → DaemonOpts W Cif → NodeOpts W
  new_node id o = record {
    node_id = id % 2 ^ 8;
    ctrl_pdo = o.opt_rpdo_ctrl;
    user_pdo = o.opt_rpdo_user;
    tpdo_user = 0;
    tpdo_stat = negsuc 0;
    pos_factor = default_factor;
    vel_factor = default_factor;
    pos_offset = of_int (pos 0);
  }

  unfoldable pub parse_option : DaemonOpt → DaemonOpts W Cif → Run (DaemonOpts W Cif)
  parse_option show_version o = exited
  parse_option show_help o = exited
  parse_option sns_option o = returned o
  parse_option (set_api arg) o = returned (record o { api_type = arg })
  parse_option (set_cif arg) o =
      open_iface new open_cif o.api_type arg >>= (λ c. returned (record o { cif = some c }))
  parse_option (set_chan_ref arg) o = returned (record o { chan_ref = some arg })
  parse_option (set_chan_state arg) o = returned (record o { chan_state = some arg })
  parse_option (set_chan_event arg) o = returned (record o { chan_event = some arg })
  parse_option (add_node arg) o = sns_require (ltb (length o.nodes) 126) (
      parse_u strtoul arg 16 max_node
      >>= (λ u. returned (record o { nodes = o.nodes ++ (new_node u o ∷ []) })))
  parse_option (set_offset arg) o = sns_require (ltb 0 (length o.nodes)) (
      returned (record o {
        nodes = on_last (λ (d : NodeOpts W). record d { pos_offset = offset_of arg }) o.nodes;
      }))
  parse_option (set_rpdo_ctrl arg) o = parse_u strtoul arg 0 255 >>= (λ u. returned (record o {
    opt_rpdo_ctrl = u % 2 ^ 8;
    nodes = on_last (λ (d : NodeOpts W). record d { ctrl_pdo = u % 2 ^ 8 }) o.nodes;
  }))
  parse_option (set_rpdo_user arg) o = parse_u strtoul arg 0 255 >>= (λ u. returned (record o {
    opt_rpdo_user = u % 2 ^ 8;
    nodes = on_last (λ (d : NodeOpts W). record d { user_pdo = u % 2 ^ 8 }) o.nodes;
  }))
  parse_option (invalid arg) o = exited

  unfoldable pub parse_options : List DaemonOpt → DaemonOpts W Cif → Run (DaemonOpts W Cif)
  parse_options [] o = returned o
  parse_options (p ∷ ps) o = parse_option p o >>= parse_options ps

  -- `parse`; `extra` are the arguments after the options.
  unfoldable pub parse : List DaemonOpt → List (List ℕ) → Run (DaemonOpts W Cif)
  parse opts extra = parse_options opts daemon_defaults >>= (λ o. sns_require (length extra == 0) (
      sns_require (is_given o.cif)
        (sns_require (ltb 0 (length o.nodes)) (sns_require (distinct_pdos o.nodes) (returned o)))))
