-- ===== src/Tool/Objects.antt =====
-- The commands of the tool (src/canmat.c) that work on the object dictionary of a node: dict-dl,
-- dict-ul, probe and map-rpdo.
use socanmatic.Base.{ℕ, ◌%◌, ◌^◌, List, [], ◌∷◌, length, none, some, ◌==◌, if◌then◌else◌}
use socanmatic.Base.Int.{negsuc}
use socanmatic.Bus.{is_ok}
use socanmatic.Client.OfBus.{client_of}
use socanmatic.Dict.{Obj}
use socanmatic.Dict.Parse.{obj_dl_str}
use socanmatic.Dict.Print.{obj_print}
use socanmatic.Dict.Search.{BinarySearch, search_index, search_name}
use socanmatic.Dict.Transfer.{Fetched, obj_ul}
use socanmatic.Out.{num, name}
use socanmatic.Pdo.{dl, remap}
use socanmatic.Probe.{probe_pdo}
use socanmatic.Run.{Run, assert_failed, exited, returned, ◌>>=◌}
use socanmatic.Sdo.Typed.{Downloaded, is_abort}
use socanmatic.Tool.{
  Host, Settings, World, put, put_all, hard_assert, parse_u, parse_uhex, verbf, error_text, bus_at,
}
use socanmatic.Tool.Send.{max_node}

module _ (h : Host) (cfg : Settings) (bs : BinarySearch) (fuel : ℕ) where
  open h use {State, same_word, strtoul, strtol, strcasecmp, stack_scalar, stack_word}

  -- `canmat_dict_search_name( &canmat_dict402, param )`, and the check that follows
  unfoldable pub find_object : List ℕ → Run Obj
  find_object param =
      search_name bs cfg.dict402 strcasecmp param
      >>= (λ found. elim found [ none ↦ assert_failed | some obj ↦ returned obj ])

  -- `if( CANMAT_ERR_ABORT == r ) fail( ... ); hard_assert( CANMAT_OK == r, ... ); return 0;`
  unfoldable pub end_transfer : World State → Downloaded State → Run (World State)
  end_transfer w d =
      if is_abort d.status
      then exited
      else hard_assert (is_ok d.status) (returned (record w { after = d.after }))

  unfoldable pub cmd_dict_dl : List (List ℕ) → World State → Run (World State)
  unfolding find_object end_transfer
  cmd_dict_dl (node_arg ∷ param ∷ val ∷ []) w = parse_uhex strtoul node_arg max_node >>= (λ node.
      find_object param >>= (λ obj. hard_assert (1 == length cfg.names) (
        obj_dl_str strtol (λ str. strtoul str 0) (bus_at h 0) fuel w.after (node % 2 ^ 8) (some obj)
          val (some (stack_word w.after))
        >>= (λ d.
            end_transfer
              (verbf cfg.verbosity 1 "dl status: %s\n"
                (error_text h cfg 0 d.status (record w { after = d.after }) ∷ []) w)
              d))))
  cmd_dict_dl _ w = assert_failed

  -- What follows `canmat_obj_ul`: the value, or `exit`.
  unfoldable pub show_value : Obj → World State → Fetched State → Run (World State)
  show_value obj w o =
      let u : World State =
        verbf cfg.verbosity 1 "dl status: %s\n"
          (error_text h cfg 0 o.status (record w { after = o.after }) ∷ [])
          (record w { after = o.after }) in
      if is_ok o.status
      then obj_print obj.data_type (cfg.descriptors obj) o.val
        >>= (λ (r, out). returned (put_all out (put "%s: " (name obj.parameter_name ∷ []) u)))
      else exited

  unfoldable pub cmd_dict_ul : List (List ℕ) → World State → Run (World State)
  unfolding find_object show_value
  cmd_dict_ul (node_arg ∷ param ∷ []) w = parse_uhex strtoul node_arg max_node >>= (λ node.
      find_object param >>= (λ obj. hard_assert (1 == length cfg.names) (
        obj_ul (bus_at h 0) fuel w.after (node % 2 ^ 8) (some obj) (stack_scalar w.after) none
        >>= show_value obj w)))
  cmd_dict_ul _ w = assert_failed

  -- `probe_pdo`, once its arguments are counted
  unfoldable pub probe_node : List ℕ → World State → Run (World State)
  probe_node node_arg w = parse_uhex strtoul node_arg max_node >>= (λ node.
      hard_assert (1 == length cfg.names) (
        probe_pdo (bus_at h 0) fuel (search_index bs cfg.dict402) (node % 2 ^ 8) w.after
        >>= (λ (r, p). hard_assert (is_ok r) (
            returned (
              put_all p.printed (
                verbf cfg.verbosity 1 "Probing PDOs on node 0x%x\n" (num (node % 2 ^ 8) ∷ [])
                  (record w { after = p.after })))))))

  -- The checks of `probe_pdo` on the number of its arguments
  unfoldable pub probe_args : List (List ℕ) → World State → Run (World State)
  probe_args (node_arg ∷ []) w = probe_node node_arg w
  probe_args _ w = assert_failed

  unfoldable pub cmd_probe : List (List ℕ) → World State → Run (World State)
  cmd_probe [] w = assert_failed
  cmd_probe (what ∷ args) w = if same_word "pdo" what then probe_args args w else exited

  unfoldable pub cmd_map_rpdo : List (List ℕ) → World State → Run (World State)
  unfolding find_object end_transfer
  cmd_map_rpdo (node_arg ∷ pdo_arg ∷ param ∷ []) w = hard_assert (1 == length cfg.names) (
      parse_uhex strtoul node_arg max_node >>= (λ node.
        parse_u strtoul pdo_arg 0 0xFF >>= (λ pdo_num. find_object param >>= (λ obj.
          remap (client_of (bus_at h 0) fuel) (node % 2 ^ 8) (pdo_num % 2 ^ 8) dl (negsuc 0)
            (negsuc 0) (negsuc 0) 1 (obj ∷ []) (stack_word w.after) w.after
            (some (stack_word w.after))
          >>= end_transfer w))))
  cmd_map_rpdo _ w = assert_failed
