-- ===== src/Controller/Sequence/Reach.antt =====
-- controller/hv2pve.py: histories of commands, and the number of the last synchronization.
use hv2pve.Prelude.{String, List}
use hv2pve.Prelude.Int.{ℤ}
use hv2pve.Json.{int}
use hv2pve.World.{World}
use hv2pve.State.Record.{default_sync, MigrationState}
use hv2pve.Controller.Command.{
  Command, init, ingest_baseline, ingest_sync, status, validate_state, cutover_plan, rollback_plan,
  seed_plan, seed, mark_seeded, apply_delta, test_start, activate_production, test_stop,
  mark_tested, apply_proxmox_delta, register_sync, authorize_cutover, mark_source_stopped,
  mark_rolled_back, close, mark_final_sync, mark_cutover_complete, begin_rollback,
}
use hv2pve.Controller.Main.{history}
use hv2pve.Controller.Work.Stored.{IsTicking, Recorded}
use hv2pve.Controller.Work.Execute.{IsStep, AllStep, WorkKeeps, history-Works}
use hv2pve.State.Payload.Laws.{filled}
use hv2pve.State.Payload.Defaults.{find-set_defaults}
use hv2pve.State.Storage.Laws.{stamped}
use hv2pve.Controller.Sequence.{AtLeast, register_sync-Counts}
use hv2pve.Controller.Sequence.Commands.{
  ingest_sync-Counts, mark_seeded-Counts, mark_tested-Counts, mark_rolled_back-Counts, close-Counts,
  mark_cutover_complete-Counts, test_start-Counts, test_stop-Counts, apply_proxmox_delta-Counts,
  begin_rollback-Counts, authorize_cutover-Counts, mark_source_stopped-Counts,
  mark_final_sync-Counts, activate_production-Counts, seed-Counts,
}

AtLeast-filled : (n : ℤ) (st : MigrationState) → AtLeast n st → AtLeast n (filled st)
AtLeast-filled n st h = record {
  current = h.current;
  recorded = find-set_defaults "sequence" (int h.current) default_sync st.sync h.recorded;
  reached = h.reached;
}

AtLeast-stamped :
    (n : ℤ) (now : String) (st : MigrationState) → AtLeast n st → AtLeast n (stamped now st)
AtLeast-stamped n now st h = record {
  current = h.current;
  recorded = h.recorded;
  reached = h.reached;
}

module _ (n : ℤ) where
  work-Counts :
      (c : Command)
      → IsStep c
      → (w : World) → IsTicking w
      → WorkKeeps (AtLeast n) (AtLeast-filled n) (AtLeast-stamped n) c w
  work-Counts (init id host vm) o w t = elim o [ ]
  work-Counts (ingest_baseline input) o w t = elim o [ ]
  work-Counts (ingest_sync input) o w t = λ p. ingest_sync-Counts n w input p
  work-Counts status o w t = tt
  work-Counts validate_state o w t = tt
  work-Counts cutover_plan o w t = tt
  work-Counts rollback_plan o w t = tt
  work-Counts (seed_plan storage test_vnet) o w t = tt
  work-Counts (apply_delta metadata payload target) o w t = tt
  work-Counts (apply_proxmox_delta pve index metadata payload) o w t =
      λ script. apply_proxmox_delta-Counts n w pve index metadata payload script
  work-Counts (seed pve q) o w t = seed-Counts n w pve q
  work-Counts (mark_seeded node vmid test_vnet production_vnet verified) o w t =
      mark_seeded-Counts n w node vmid test_vnet production_vnet verified
  work-Counts (test_start pve) o w t = test_start-Counts n w pve
  work-Counts (activate_production pve) o w t = activate_production-Counts n w pve
  work-Counts (test_stop pve timeout) o w t = test_stop-Counts n w pve timeout
  work-Counts (mark_tested guest application) o w t = mark_tested-Counts n w guest application
  work-Counts (register_sync sequence reference bundle verified ready) o w t =
      register_sync-Counts n w sequence reference bundle verified ready
  work-Counts (authorize_cutover confirm) o w t = authorize_cutover-Counts n w confirm
  work-Counts (mark_source_stopped confirm) o w t = mark_source_stopped-Counts n w confirm
  work-Counts (mark_rolled_back confirm) o w t = mark_rolled_back-Counts n w confirm
  work-Counts (close confirm) o w t = close-Counts n w confirm
  work-Counts (mark_final_sync verified) o w t = mark_final_sync-Counts n w verified
  work-Counts (mark_cutover_complete network guest application) o w t =
      mark_cutover_complete-Counts n w network guest application
  work-Counts (begin_rollback pve confirm timeout) o w t =
      begin_rollback-Counts n w pve confirm timeout

-- Where the state file holds a well-formed state whose last synchronization has at least the number
-- `n`, it is there and holds such a state after every history of commands but `init` and
-- `ingest-baseline`, whatever their order, their arguments, the answers of the host and the errors.
-- The clock reads texts that are not empty, and the temporary file is not the state file.
pub history-AtLeast :
    (n : ℤ) (path : String) (cs : List Command) (w : World)
    → AllStep cs
    → Recorded (AtLeast n) path w
    → Recorded (AtLeast n) path (history path cs w)
history-AtLeast n path =
    history-Works (AtLeast n) (AtLeast-filled n) (AtLeast-stamped n) ⊥ path (work-Counts n)
