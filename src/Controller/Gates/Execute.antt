-- ===== src/Controller/Gates/Execute.antt =====
use hv2pve.Controller.Stages.{cmd_mark_seeded, cmd_mark_tested, cmd_register_sync}
use hv2pve.Controller.Cutover.{
  cmd_authorize_cutover, cmd_close, cmd_mark_cutover_complete, cmd_mark_final_sync,
  cmd_mark_rolled_back, cmd_mark_source_stopped,
}
use hv2pve.Controller.Remote.{cmd_apply_proxmox_delta}
use hv2pve.Controller.Seeding.{cmd_seed}
use hv2pve.Prelude.{String, ◌≡◌, refl, ◌≢◌}
use hv2pve.Exec.{ok, ◌>>=◌}
use hv2pve.World.{World}
use hv2pve.State.Record.{MigrationState}
use hv2pve.State.Storage.{load}
use hv2pve.Controller.Gates.Guards.{MaySeed, MayTest, MayApply, MayActivate, MayRollBack}
use hv2pve.Controller.Bundles.Laws.{apply_delta-Runs}
use hv2pve.Controller.Command.{
  Command, init, ingest_baseline, ingest_sync, status, validate_state, cutover_plan, rollback_plan,
  seed_plan, seed, mark_seeded, test_start, activate_production, test_stop, mark_tested,
  apply_delta, apply_proxmox_delta, register_sync, authorize_cutover, mark_source_stopped,
  mark_rolled_back, close, mark_final_sync, mark_cutover_complete, begin_rollback,
}
use hv2pve.Controller.Gates.Quiet.{
  saving-Runs, init-Runs, ingest_baseline-Runs, ingest_sync-Runs, status-Runs, validate-Runs,
  seed_plan-Runs, cutover_plan-Runs, rollback_plan-Runs, mark_seeded-Runs, mark_tested-Runs,
  register_sync-Runs, authorize_cutover-Runs, mark_source_stopped-Runs, mark_final_sync-Runs,
  mark_cutover_complete-Runs, mark_rolled_back-Runs, close-Runs,
}
use hv2pve.Controller.Gates.Touch.{
  seed-Stored, test_start-Stored, test_stop-Stored, apply_proxmox_delta-Stored,
  activate_production-Stored, begin_rollback-Stored,
}
use hv2pve.Controller.Main.{execute}
use hv2pve.Controller.Seeding.{cmd_seed}
use hv2pve.Controller.Stages.{cmd_mark_seeded, cmd_mark_tested, cmd_register_sync}
use hv2pve.Controller.Remote.{cmd_apply_proxmox_delta}
use hv2pve.Controller.Cutover.{
  cmd_authorize_cutover, cmd_mark_source_stopped, cmd_mark_final_sync, cmd_mark_cutover_complete,
  cmd_mark_rolled_back, cmd_close,
}

-- Whatever the command, the host is touched only past the command's tests on the stored state.

-- What a command that acts on the host tests first; the others never touch it.
abbrev pub MayAct : Command → MigrationState → Type 0
MayAct (seed pve q) st = MaySeed st
MayAct (test_start pve) st = MayTest st
MayAct (test_stop pve timeout) st = Unit
MayAct (apply_proxmox_delta pve index metadata payload) st = MayApply st
MayAct (activate_production pve) st = MayActivate st
MayAct (begin_rollback pve confirm timeout) st = MayRollBack confirm st
MayAct c st = ⊥

-- If a command has run anything on the host, then the state file was read, and the stored state
-- passed the command's tests: `seed` needs BASELINE_READY; `test-start` needs a phase from SEEDED
-- to CUTOVER_READY and a test network that is not the production network; a delta needs a
-- destination that is not recorded as powered on; `activate-production` needs CUTOVER_IN_PROGRESS,
-- a recorded source stop and a recorded final sync; `begin-rollback` needs a phase in or after the
-- cutover and the name of the source. `test-stop` tests nothing, and the other commands run
-- nothing.
pub execute-MayAct :
    (path : String) (c : Command) (w : World)
    → (execute path c w).1.ran ≢ w.ran
    → (st : MigrationState) × ((load path w).0 ≡ ok st) × MayAct c st
unfolding execute cmd_seed cmd_mark_seeded cmd_mark_tested cmd_apply_proxmox_delta cmd_register_sync
    cmd_authorize_cutover cmd_mark_source_stopped cmd_mark_rolled_back cmd_close cmd_mark_final_sync
    cmd_mark_cutover_complete ◌>>=◌
execute-MayAct path (init id host vm) w ne = absurd (ne ((init-Runs w path id host vm).at w refl))
execute-MayAct path (ingest_baseline input) w ne =
    absurd (ne ((ingest_baseline-Runs w input path).at w refl))
execute-MayAct path (ingest_sync input) w ne =
    absurd (ne ((ingest_sync-Runs w input path).at w refl))
execute-MayAct path status w ne = absurd (ne ((status-Runs w path).at w refl))
execute-MayAct path validate_state w ne = absurd (ne ((validate-Runs w path).at w refl))
execute-MayAct path cutover_plan w ne = absurd (ne ((cutover_plan-Runs w path).at w refl))
execute-MayAct path rollback_plan w ne = absurd (ne ((rollback_plan-Runs w path).at w refl))
execute-MayAct path (seed_plan storage test_vnet) w ne =
    absurd (ne ((seed_plan-Runs w path storage test_vnet).at w refl))
execute-MayAct path (mark_seeded node vmid test_vnet production_vnet verified) w ne = absurd (
    ne (
      (saving-Runs w path _ (mark_seeded-Runs w node vmid test_vnet production_vnet verified)).at w
        refl))
execute-MayAct path (mark_tested guest application) w ne =
    absurd (ne ((saving-Runs w path _ (mark_tested-Runs w guest application)).at w refl))
execute-MayAct path (register_sync sequence reference bundle verified ready) w ne = absurd (
    ne (
      (saving-Runs w path _ (register_sync-Runs w sequence reference bundle verified ready)).at w
        refl))
execute-MayAct path (authorize_cutover confirm) w ne =
    absurd (ne ((saving-Runs w path _ (authorize_cutover-Runs w confirm)).at w refl))
execute-MayAct path (mark_source_stopped confirm) w ne =
    absurd (ne ((saving-Runs w path _ (mark_source_stopped-Runs w confirm)).at w refl))
execute-MayAct path (mark_rolled_back confirm) w ne =
    absurd (ne ((saving-Runs w path _ (mark_rolled_back-Runs w confirm)).at w refl))
execute-MayAct path (close confirm) w ne =
    absurd (ne ((saving-Runs w path _ (close-Runs w confirm)).at w refl))
execute-MayAct path (mark_final_sync verified) w ne =
    absurd (ne ((saving-Runs w path _ (mark_final_sync-Runs w verified)).at w refl))
execute-MayAct path (mark_cutover_complete network guest application) w ne =
    absurd (
      ne
        ((saving-Runs w path _ (mark_cutover_complete-Runs w network guest application)).at w refl))
execute-MayAct path (apply_delta metadata payload target) w ne =
    absurd (ne ((apply_delta-Runs w metadata payload target).at w refl))
execute-MayAct path (seed pve q) w ne = seed-Stored path w pve q ne
execute-MayAct path (test_start pve) w ne = test_start-Stored path w pve ne
execute-MayAct path (test_stop pve timeout) w ne = test_stop-Stored path w pve timeout ne
execute-MayAct path (apply_proxmox_delta pve index metadata payload) w ne =
    apply_proxmox_delta-Stored path w pve index metadata payload w.script_path ne
execute-MayAct path (activate_production pve) w ne = activate_production-Stored path w pve ne
execute-MayAct path (begin_rollback pve confirm timeout) w ne =
    begin_rollback-Stored path w pve confirm timeout ne
