-- ===== src/Controller/Main.antt =====
-- controller/hv2pve.py: the dispatch of the subcommands, and `main`, which turns an exception into
-- an exit code.
use hv2pve.Prelude.{ℕ, String, Bool, true, false, List, [], ◌∷◌, if◌then◌else◌}
use hv2pve.Exec.{
  Error, value_error, safety_error, runtime_error, command_error, key_error, index_error,
  type_error, attribute_error, file_not_found, timeout_expired, os_error, system_exit, Result, ok,
  err, Exec, Done, gets, ◌>>=◌,
}
use hv2pve.World.{World}
use hv2pve.Controller.Command.{
  Command, init, ingest_baseline, ingest_sync, status, validate_state, cutover_plan, rollback_plan,
  seed_plan, seed, mark_seeded, test_start, activate_production, test_stop, mark_tested,
  apply_delta, apply_proxmox_delta, register_sync, authorize_cutover, mark_source_stopped,
  mark_rolled_back, close, mark_final_sync, mark_cutover_complete, begin_rollback,
}
use hv2pve.Controller.Ingest.{
  cmd_init, cmd_ingest_baseline, cmd_ingest_sync, cmd_status, cmd_validate, cmd_seed_plan,
  cmd_cutover_plan, cmd_rollback_plan,
}
use hv2pve.Controller.Seeding.{cmd_seed}
use hv2pve.Controller.Bundles.{cmd_apply_delta}
use hv2pve.Controller.Stages.{cmd_mark_seeded, cmd_mark_tested, cmd_register_sync}
use hv2pve.Controller.Cutover.{
  cmd_authorize_cutover, cmd_mark_source_stopped, cmd_mark_rolled_back, cmd_close,
  cmd_mark_final_sync, cmd_mark_cutover_complete,
}
use hv2pve.Controller.Remote.{
  cmd_test_start, cmd_test_stop, cmd_apply_proxmox_delta, cmd_activate_production,
  cmd_begin_rollback,
}

-- `args.func(args)`
unfoldable pub execute : String → Command → Exec World Done
execute path (init id host vm) = cmd_init id host vm path
execute path (ingest_baseline input) = cmd_ingest_baseline input path
execute path (ingest_sync input) = cmd_ingest_sync input path
execute path status = cmd_status path
execute path validate_state = cmd_validate path
execute path cutover_plan = cmd_cutover_plan path
execute path rollback_plan = cmd_rollback_plan path
execute path (seed_plan storage test_vnet) = cmd_seed_plan path storage test_vnet
execute path (seed pve q) = cmd_seed pve q path
execute path (mark_seeded node vmid test_vnet production_vnet verified) =
    cmd_mark_seeded path node vmid test_vnet production_vnet verified
execute path (test_start pve) = cmd_test_start pve path
execute path (activate_production pve) = cmd_activate_production pve path
execute path (test_stop pve timeout) = cmd_test_stop pve timeout path
execute path (mark_tested guest application) = cmd_mark_tested path guest application
execute path (apply_delta metadata payload target) = cmd_apply_delta metadata payload target
execute path (apply_proxmox_delta pve index metadata payload) = do
  script ← gets (λ w. w.script_path)
  cmd_apply_proxmox_delta pve index metadata payload script path
execute path (register_sync sequence reference_point bundle verified ready) =
    cmd_register_sync path sequence reference_point bundle verified ready
execute path (authorize_cutover confirm) = cmd_authorize_cutover path confirm
execute path (mark_source_stopped confirm) = cmd_mark_source_stopped path confirm
execute path (mark_rolled_back confirm) = cmd_mark_rolled_back path confirm
execute path (close confirm) = cmd_close path confirm
execute path (mark_final_sync verified) = cmd_mark_final_sync path verified
execute path (mark_cutover_complete network guest application) =
    cmd_mark_cutover_complete path network guest application
execute path (begin_rollback pve confirm timeout) = cmd_begin_rollback pve confirm timeout path

-- The exceptions that `main` catches: the classes it names and their subclasses.
unfoldable pub is_caught : Error → Bool
is_caught (value_error m) = true
is_caught (safety_error m) = true
is_caught (runtime_error m) = true
is_caught (command_error m) = true
is_caught (file_not_found m) = true
is_caught (key_error m) = false
is_caught (index_error m) = false
is_caught (type_error m) = false
is_caught (attribute_error m) = false
is_caught (timeout_expired m) = false
is_caught (os_error m) = false
is_caught (system_exit m) = false

-- How a run ends: with an exit code, or with a traceback.
pub data Ending : Type 0 where
  exited : ℕ → Ending
  uncaught : Error → Ending

unfoldable pub ending : Result Done → Ending
unfolding is_caught
ending (ok u) = exited 0
ending (err e) = if is_caught e then exited 2 else uncaught e

unfoldable pub main : String → Command → World → Ending × World
unfolding execute ending
main path c w = let (r, w') = execute path c w in (ending r, w')

-- A history of runs on one state file, each from what the one before left.
unfoldable pub history : String → List Command → World → World
unfolding main
history path [] w = w
history path (c ∷ cs) w = history path cs (main path c w).1
