-- ===== src/Controller/Ingest.antt =====
-- controller/hv2pve.py: `init`, `ingest-baseline`, `ingest-sync` and the commands that only read.
use hv2pve.Prelude.{String, false, ◌&&◌, not, Option, none, some, [], ◌∷◌, if◌then◌else◌}
use hv2pve.Prelude.Int.{ℤ, pos, leb_ℤ}
use hv2pve.Json.{
  Value, bool, int, str, obj, Fields, end, field, find, or_else, get, truthy, or_value, value_eq,
}
use hv2pve.Json.Number.{to_int}
use hv2pve.Exec.{
  value_error, safety_error, Result, ok, and_then, Exec, Done, lift, gets, raise_if, require, ◌>>=◌,
  ◌>>◌,
}
use hv2pve.World.{World, print}
use hv2pve.State.Phase.{cutover_in_progress, cutover_complete, phase_value, phase_in}
use hv2pve.State.Record.{
  MigrationState, Session, in_world, with_state, set_state, new_state, record_event,
}
use hv2pve.State.Validate.{validate}
use hv2pve.State.Payload.{as_fields, from_dict, enter_baseline}
use hv2pve.State.Storage.{save, read_json, as_dict_argument, load}
use hv2pve.Plan.{seed_plan, cutover_plan, rollback_plan}
use hv2pve.Safety.{require_cutover_ready}
use hv2pve.Controller.{on_state, the_state, set_sync, set_validation}

-- `args.migration_id or str(uuid.uuid4())`
abbrev pub chosen_id : Option String → String → String
chosen_id none fresh = fresh
chosen_id (some id) fresh = if truthy (str id) then id else fresh

unfoldable pub cmd_init : Option String → String → String → String → Exec World Done
unfolding new_state record_event
cmd_init migration_id hyperv_host vm_name state_path = do
  fresh ← gets (λ w. w.uuid4)
  st ← new_state (str (chosen_id migration_id fresh))
  with_state st (do
    set_state (λ st. record st {
      source = field "computer_name" (str hyperv_host) (field "vm_name" (str vm_name) end);
    })
    record_event "migration_created"
        (field "hyperv_host" (str hyperv_host) (field "vm_name" (str vm_name) end))
    save state_path)
  print (str state_path)

unfoldable pub cmd_ingest_baseline : String → String → Exec World Done
unfolding read_json as_dict_argument record_event
cmd_ingest_baseline input state_path = do
  payload ← read_json input
  d ← lift (as_dict_argument payload)
  st ← from_dict d
  with_state st (do
    enter_baseline
    record_event "baseline_ingested" (field "input" (str input) end)
    save state_path)
  print (str state_path)

-- The `or` chain over the names that a reference point goes by; the nested dict is looked at last.
unfoldable pub new_reference : Fields → Result Value
unfolding as_fields
new_reference p =
    let nested =
      or_value (get "new_reference_point" p) (or_value (get "NewReferencePoint" p) (obj end)) in
    let named =
      or_value (get "new_reference_point_instance_id" p)
        (or_value (get "NewReferencePointInstanceID" p) (get "reference_to" p)) in
    if truthy named
    then ok named
    else and_then (as_fields nested) (λ d. ok (or_value (get "InstanceID" d) (get "instance_id" d)))

-- `int(state.sync.get("sequence") or 0)`
unfoldable pub current_sequence : MigrationState → Result ℤ
current_sequence st = to_int (or_value (get "sequence" st.sync) (int (pos 0)))

-- The part of `ingest-sync` behind the two reads.
unfoldable pub ingest_sync : String → Fields → Exec Session Done
ingest_sync input p = do
  st ← the_state
  let id = or_value (get "migration_id" p) (get "MigrationId" p)
  raise_if (truthy id && not (value_eq id st.migration_id))
      (value_error "sync metadata migration_id does not match state")
  sequence ← lift (to_int (or_value (get "sequence" p) (or_value (get "Sequence" p) (int (pos 0)))))
  current ← lift (current_sequence st)
  raise_if (leb_ℤ sequence current)
      (value_error "pending sync sequence must be newer than authoritative sequence")
  new_ref ← lift (new_reference p)
  raise_if (not (truthy new_ref))
      (value_error "sync metadata does not contain a new reference point")
  set_sync "pending_reference_point" new_ref
  set_sync "pending_sequence" (int sequence)
  set_sync "pending_bundle" (str input)
  set_validation "last_sync_verified" (bool false)
  record_event "sync_pending" (
      field "sequence" (int sequence)
        (field "reference_point" new_ref (field "input" (str input) end)))

unfoldable pub cmd_ingest_sync : String → String → Exec World Done
unfolding on_state read_json as_fields ingest_sync
cmd_ingest_sync input state_path = on_state state_path (do
  payload ← in_world (read_json input)
  p ← lift (as_fields payload)
  ingest_sync input p
  save state_path)

abbrev status_of : MigrationState → Fields
status_of st = field "migration_id" st.migration_id (
    field "phase" (phase_value st.phase) (
      field "source_host" (get "computer_name" st.source) (
        field "source_vm" (get "vm_name" st.source) (
          field "source_state" (get "state" st.source) (
            field "reference_point" (get "authoritative_reference_point" st.sync) (
              field "pending_reference_point" (get "pending_reference_point" st.sync)
                (field "sync_sequence" (get "sequence" st.sync) (status_of_destination st))))))))
  where
    status_of_cutover : MigrationState → Fields
    status_of_cutover st = field "cutover_authorized" (get "authorized" st.cutover) (
        field "source_stopped_at_utc" (get "source_stopped_at_utc" st.cutover)
          (field "final_sync_completed_at_utc" (get "final_sync_completed_at_utc" st.cutover) end))

    status_of_destination : MigrationState → Fields
    status_of_destination st =
        field "last_successful_sync_utc" (get "last_successful_sync_utc" st.sync) (
          field "proxmox_node" (get "proxmox_node" st.destination) (
            field "proxmox_vmid" (get "proxmox_vmid" st.destination) (
              field "tested" (or_else (find "tested" st.destination) (bool false)) (
                field "powered_on" (or_else (find "powered_on" st.destination) (bool false)) (
                  field "production_vnet" (get "production_vnet" st.destination)
                    (field "test_vnet" (get "test_vnet" st.destination) (status_of_cutover st)))))))

unfoldable pub cmd_status : String → Exec World Done
unfolding on_state
cmd_status state_path = do st ← load state_path; print (obj (status_of st))

unfoldable pub cmd_validate : String → Exec World Done
unfolding phase_value
cmd_validate state_path = do st ← load state_path; lift (validate st); print (phase_value st.phase)

unfoldable pub cmd_seed_plan : String → String → String → Exec World Done
cmd_seed_plan state_path storage test_vnet = do
  st ← load state_path
  plan ← lift (seed_plan st storage test_vnet)
  print (obj plan)

unfoldable pub cmd_cutover_plan : String → Exec World Done
cmd_cutover_plan state_path = do
  st ← load state_path
  lift (require_cutover_ready st)
  print (obj (cutover_plan st))

unfoldable pub cmd_rollback_plan : String → Exec World Done
cmd_rollback_plan state_path = do
  st ← load state_path
  require (phase_in st.phase (cutover_in_progress ∷ cutover_complete ∷ []))
      (safety_error "rollback is only meaningful during/after cutover")
  print (obj (rollback_plan st))
