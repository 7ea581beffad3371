-- ===== src/Controller/Cutover.antt =====
-- controller/hv2pve.py: the commands of the cutover and the rollback that only touch the state.
use hv2pve.Prelude.{String, Bool, true, false, ◌&&◌, [], ◌∷◌}
use hv2pve.Json.{bool, str, end, field, get, truthy}
use hv2pve.Exec.{safety_error, Exec, Done, lift, require, ◌>>=◌, ◌>>◌}
use hv2pve.World.{World}
use hv2pve.State.Phase.{
  cutover_in_progress, cutover_complete, rollback_in_progress, rolled_back, closed, failed,
  phase_eq, phase_in,
}
use hv2pve.State.Record.{Session, record_event}
use hv2pve.State.Transition.{set_phase}
use hv2pve.Safety.{require_cutover_ready}
use hv2pve.Controller.{
  on_state, the_state, set_source, set_validation, set_cutover, now, confirmed, saving,
}

unfoldable pub authorize_cutover : String → Exec Session Done
unfolding record_event
authorize_cutover confirm = do
  st ← the_state
  lift (require_cutover_ready st)
  require (confirmed confirm st) (safety_error "--confirm must exactly match the source VM name")
  set_cutover "authorized" (bool true)
  at ← now
  set_cutover "authorized_at_utc" at
  record_event "cutover_authorized" (field "source_vm" (get "vm_name" st.source) end)
  set_phase cutover_in_progress (str "operator authorized cutover") false

unfoldable pub cmd_authorize_cutover : String → String → Exec World Done
unfolding on_state authorize_cutover
cmd_authorize_cutover path confirm = saving path (authorize_cutover confirm)

-- The writes of `mark-source-stopped`.
unfoldable pub record_source_stop : Exec Session Done
unfolding record_event
record_source_stop = do
  at ← now
  set_cutover "source_stopped_at_utc" at
  set_source "state" (str "Off")
  record_event "source_stopped_for_cutover" end

unfoldable pub mark_source_stopped : String → Exec Session Done
unfolding record_source_stop
mark_source_stopped confirm = do
  st ← the_state
  require (phase_eq st.phase cutover_in_progress && truthy (get "authorized" st.cutover))
      (safety_error "source stop can only be recorded during an authorized cutover")
  require (confirmed confirm st) (safety_error "--confirm must exactly match source VM name")
  record_source_stop

unfoldable pub cmd_mark_source_stopped : String → String → Exec World Done
unfolding on_state mark_source_stopped
cmd_mark_source_stopped path confirm = saving path (mark_source_stopped confirm)

-- The writes of `mark-final-sync`.
unfoldable pub record_final_sync : Exec Session Done
unfolding record_event
record_final_sync = do
  at ← now
  set_cutover "final_sync_completed_at_utc" at
  set_validation "last_sync_verified" (bool true)
  record_event "final_sync_verified" end

unfoldable pub mark_final_sync : Bool → Exec Session Done
unfolding record_final_sync
mark_final_sync verified = do
  st ← the_state
  require (truthy (get "source_stopped_at_utc" st.cutover))
      (safety_error "final sync cannot be committed until the source is recorded stopped")
  require verified (safety_error "--verified is required for final sync")
  record_final_sync

unfoldable pub cmd_mark_final_sync : String → Bool → Exec World Done
unfolding on_state mark_final_sync
cmd_mark_final_sync path verified = saving path (mark_final_sync verified)

unfoldable pub mark_cutover_complete : Bool → Bool → Bool → Exec Session Done
unfolding record_event
mark_cutover_complete network_verified guest_verified application_verified = do
  st ← the_state
  require (truthy (get "authorized" st.cutover)) (safety_error "cutover was not authorized")
  require (truthy (get "powered_on" st.destination))
      (safety_error "destination is not recorded running")
  require (network_verified && guest_verified && application_verified)
      (safety_error "all three validation flags are required to complete cutover")
  set_validation "network_identity_verified" (bool true)
  set_validation "guest_boot_verified" (bool true)
  set_validation "application_verified" (bool true)
  set_phase cutover_complete (str "production destination validation passed") false
  record_event "cutover_complete" end

unfoldable pub cmd_mark_cutover_complete : String → Bool → Bool → Bool → Exec World Done
unfolding on_state mark_cutover_complete
cmd_mark_cutover_complete path network guest application =
    saving path (mark_cutover_complete network guest application)

unfoldable pub mark_rolled_back : String → Exec Session Done
unfolding record_event
mark_rolled_back confirm = do
  st ← the_state
  require (phase_eq st.phase rollback_in_progress) (safety_error "rollback is not in progress")
  require (confirmed confirm st) (safety_error "--confirm must exactly match source VM name")
  set_source "state" (str "Running")
  set_phase rolled_back (str "operator confirmed Hyper-V source restored") false
  record_event "rollback_complete" end

unfoldable pub cmd_mark_rolled_back : String → String → Exec World Done
unfolding on_state mark_rolled_back
cmd_mark_rolled_back path confirm = saving path (mark_rolled_back confirm)

unfoldable pub close : String → Exec Session Done
unfolding record_event
close confirm = do
  st ← the_state
  require (phase_in st.phase (cutover_complete ∷ rolled_back ∷ failed ∷ []))
      (safety_error "cannot close migration from this phase")
  require (confirmed confirm st) (safety_error "--confirm must exactly match source VM name")
  set_phase closed (str "operator closed migration") false
  record_event "migration_closed" end

unfoldable pub cmd_close : String → String → Exec World Done
unfolding on_state close
cmd_close path confirm = saving path (close confirm)
