-- ===== src/Can402/Options/Tests.antt =====
-- The options of a daemon with two drives.
use socanmatic.Base.{ℕ, ◌≤◌, ◌<◌, ◌≡◌, refl, Bool, true, false, List, [], ◌∷◌, length, Option, some}
use socanmatic.Base.Int.{pos}
use socanmatic.Can.{Status, ok}
use socanmatic.Can402.Fixture.{Whole, fin, whole}
use socanmatic.Can402.Options.{
  DaemonOpt, add_node, set_cif, set_rpdo_user, DaemonOpts, daemon_defaults, parse, parse_options,
  parse_option, distinct_pdos, is_given,
}
use socanmatic.Can402.Options.Checked.{AllInRange, AllDistinct, parse-checked}
use socanmatic.Run.{Run, returned}
use socanmatic.Tool.{parse_u}
use socanmatic.Tool.Options.{open_iface}

-- A number is the count of its digits, and each name opens an interface.
abbrev strtoul : List ℕ → ℕ → ℕ × Bool
strtoul arg base = (length arg, false)

abbrev new : List ℕ → Option ℕ
new type = some 0

abbrev open_cif : ℕ → List ℕ → Status × ℕ
open_cif cif iface_name = (ok, length iface_name)

abbrev atof : List ℕ → Whole
atof arg = fin (pos (length arg))

abbrev opts : List DaemonOpt
opts =
    set_cif (99 ∷ [])
    ∷ add_node (1 ∷ 1 ∷ 1 ∷ [])
    ∷ set_rpdo_user (1 ∷ 1 ∷ [])
    ∷ add_node (1 ∷ 1 ∷ 1 ∷ 1 ∷ [])
    ∷ []

abbrev of_run : Run (DaemonOpts Whole ℕ) → DaemonOpts Whole ℕ
of_run (returned o) = o
of_run _ = daemon_defaults

abbrev parsed : DaemonOpts Whole ℕ
parsed = of_run (parse whole (fin (pos 3)) atof strtoul new open_cif opts [])

parse_returns : parse whole (fin (pos 3)) atof strtoul new open_cif opts [] ≡ returned parsed
unfolding parse parse_options parse_option distinct_pdos parse_u open_iface
parse_returns = refl

parse-checked_example :
    (is_given parsed.cif ≡ true)
    × (0 < length parsed.nodes)
    × (length parsed.nodes ≤ 126)
    × AllInRange parsed.nodes
    × AllDistinct parsed.nodes
parse-checked_example =
    parse-checked whole (fin (pos 3)) atof strtoul new open_cif opts [] parsed parse_returns
