-- ===== src/Controller/Phases/Reach.antt =====
-- controller/hv2pve.py: histories of commands, and the phase in the state file.
use hv2pve.Controller.Phases.{FollowsFrom}
use hv2pve.Controller.Phases.Commands.{
  ingest_sync-Follows, mark_seeded-Follows, mark_tested-Follows, register_sync-Follows,
  mark_rolled_back-Follows, close-Follows, mark_cutover_complete-Follows, test_start-Follows,
  test_stop-Follows, apply_proxmox_delta-Follows, begin_rollback-Follows, authorize_cutover-Follows,
  mark_source_stopped-Follows, mark_final_sync-Follows, activate_production-Follows, seed-Follows,
}
use hv2pve.Controller.Work.Stored.{IsTicking, Recorded}
use hv2pve.Prelude.{String, List}
use hv2pve.World.{World}
use hv2pve.State.Phase.{Phase}
use hv2pve.Controller.Command.{
  Command, init, ingest_baseline, ingest_sync, status, validate_state, cutover_plan, rollback_plan,
  seed_plan, seed, mark_seeded, apply_delta, test_start, activate_production, test_stop,
  mark_tested, apply_proxmox_delta, register_sync, authorize_cutover, mark_source_stopped,
  mark_rolled_back, close, mark_final_sync, mark_cutover_complete, begin_rollback,
}
use hv2pve.Controller.Main.{history}
use hv2pve.Controller.Work.Execute.{IsStep, AllStep, WorkKeeps, history-Works}

module _ (start : Phase) where
  work-Follows :
      (c : Command)
      → IsStep c
      → (w : World) → IsTicking w
      → WorkKeeps (FollowsFrom start) (λ st m. m) (λ now st m. m) c w
  work-Follows (init id host vm) o w t = elim o [ ]
  work-Follows (ingest_baseline input) o w t = elim o [ ]
  work-Follows (ingest_sync input) o w t = λ p. ingest_sync-Follows start w input p
  work-Follows status o w t = tt
  work-Follows validate_state o w t = tt
  work-Follows cutover_plan o w t = tt
  work-Follows rollback_plan o w t = tt
  work-Follows (seed_plan storage test_vnet) o w t = tt
  work-Follows (apply_delta metadata payload target) o w t = tt
  work-Follows (apply_proxmox_delta pve index metadata payload) o w t =
      λ script. apply_proxmox_delta-Follows start w pve index metadata payload script
  work-Follows (seed pve q) o w t = seed-Follows start w pve q
  work-Follows (mark_seeded node vmid test_vnet production_vnet verified) o w t =
      mark_seeded-Follows start w node vmid test_vnet production_vnet verified
  work-Follows (test_start pve) o w t = test_start-Follows start w pve
  work-Follows (activate_production pve) o w t = activate_production-Follows start w pve
  work-Follows (test_stop pve timeout) o w t = test_stop-Follows start w pve timeout
  work-Follows (mark_tested guest application) o w t = mark_tested-Follows start w guest application
  work-Follows (register_sync sequence reference bundle verified ready) o w t =
      register_sync-Follows start w sequence reference bundle verified ready
  work-Follows (authorize_cutover confirm) o w t = authorize_cutover-Follows start w confirm
  work-Follows (mark_source_stopped confirm) o w t = mark_source_stopped-Follows start w confirm
  work-Follows (mark_rolled_back confirm) o w t = mark_rolled_back-Follows start w confirm
  work-Follows (close confirm) o w t = close-Follows start w confirm
  work-Follows (mark_final_sync verified) o w t = mark_final_sync-Follows start w verified
  work-Follows (mark_cutover_complete network guest application) o w t =
      mark_cutover_complete-Follows start w network guest application
  work-Follows (begin_rollback pve confirm timeout) o w t =
      begin_rollback-Follows start w pve confirm timeout

-- From a state file whose phase is reached from `start` along the table of transitions, and which
-- is well formed, every history of commands leads to such a file, whatever their order, their
-- arguments, the answers of the host and the errors: the file is there afterwards. `init`, which
-- writes a new state, and `ingest-baseline`, which takes a whole state from outside, are not among
-- the commands; the clock reads texts that are not empty, and the temporary file is not the state
-- file.
pub history-Follows :
    (start : Phase) (path : String) (cs : List Command) (w : World)
    → AllStep cs
    → Recorded (FollowsFrom start) path w
    → Recorded (FollowsFrom start) path (history path cs w)
history-Follows start path =
    history-Works (FollowsFrom start) (λ st m. m) (λ now st m. m) ⊥ path (work-Follows start)
