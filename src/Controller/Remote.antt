-- ===== src/Controller/Remote.antt =====
-- controller/hv2pve.py: the commands that act on the Proxmox host.
pub mod Laws
use hv2pve.Prelude.{String, true, false, ◌||◌, not, none, some, [], ◌∷◌, if◌then◌else◌}
use hv2pve.Prelude.Int.{ℤ}
use hv2pve.Json.{Value, obj, str, int, bool, end, field, get, truthy, or_value, value_eq}
use hv2pve.Json.Number.{to_int}
use hv2pve.Exec.{
  value_error, safety_error, Result, ok, err, and_then, Exec, Done, pure, lift, raise_if, require,
  unless, ◌>>=◌, ◌>>◌,
}
use hv2pve.World.{missing, World}
use hv2pve.Text.{is_empty, show}
use hv2pve.State.Phase.{
  seeded, tested, syncing, cutover_ready, cutover_in_progress, cutover_complete,
  rollback_in_progress, phase_eq, phase_in,
}
use hv2pve.State.Record.{MigrationState, Session, in_world, record_event}
use hv2pve.State.Transition.{set_phase}
use hv2pve.State.Payload.{as_fields, item}
use hv2pve.Proxmox.{
  ProxmoxSsh, Config, config_get, config, require_stopped, stop, start, set_network, with_bridge,
}
use hv2pve.Proxmox.Volume.{apply_delta_to_volume}
use hv2pve.Controller.{on_state, the_state, set_destination, set_cutover, now, confirmed, saving}
use hv2pve.Json.Render.{to_text}

-- `int(state.destination["proxmox_vmid"])`
unfoldable pub recorded_vmid : MigrationState → Result ℤ
recorded_vmid st = and_then (item "proxmox_vmid" st.destination) to_int

-- `cfg.get("net0")`, where a missing or empty value is an error.
abbrev pub net0_of : Config → Result String
net0_of cfg = elim (config_get "net0" cfg) [
  | none ↦ err (safety_error "destination net0 is missing")
  | some net0 ↦ if is_empty net0 then err (safety_error "destination net0 is missing") else ok net0
]

-- The network of the destination goes to a bridge, and the destination is started.
unfoldable pub start_on_bridge : ProxmoxSsh → ℤ → String → Exec World Done
start_on_bridge pve vmid bridge = do
  cfg ← config pve vmid
  net0 ← lift (net0_of cfg)
  set_network pve vmid "net0" (with_bridge net0 bridge)
  start pve vmid

unfoldable pub test_start : ProxmoxSsh → Exec Session Done
unfolding record_event
test_start pve = do
  st ← the_state
  require (phase_in st.phase (seeded ∷ tested ∷ syncing ∷ cutover_ready ∷ []))
      (safety_error "isolated test boot is not allowed from this phase")
  let prod = get "production_vnet" st.destination
  let test = get "test_vnet" st.destination
  raise_if (not (truthy test) || value_eq test prod)
      (safety_error "test VNet is missing or equals production VNet")
  vmid ← lift (recorded_vmid st)
  in_world (start_on_bridge pve vmid (to_text test))
  set_destination "powered_on" (bool true)
  record_event "isolated_test_started" (field "vmid" (int vmid) (field "test_vnet" test end))

unfoldable pub cmd_test_start : ProxmoxSsh → String → Exec World Done
unfolding on_state test_start
cmd_test_start pve path = saving path (test_start pve)

unfoldable pub test_stop : ProxmoxSsh → ℤ → Exec Session Done
unfolding record_event
test_stop pve timeout = do
  st ← the_state
  vmid ← lift (recorded_vmid st)
  in_world (stop pve vmid timeout)
  set_destination "powered_on" (bool false)
  record_event "isolated_test_stopped" (field "vmid" (int vmid) end)

unfoldable pub cmd_test_stop : ProxmoxSsh → ℤ → String → Exec World Done
unfolding on_state test_stop
cmd_test_stop pve timeout path = saving path (test_stop pve timeout)

-- The entry of `disk_map` for a disk, and its volume.
unfoldable pub volume_at : String → MigrationState → Result String
unfolding as_fields
volume_at k st =
    and_then (as_fields (or_value (get "disk_map" st.destination) (obj end))) λ disk_map.
      let entry = get k disk_map in
      if not (truthy entry)
      then err (value_error "destination disk index is not recorded")
      else and_then (as_fields entry) λ d.
        if truthy (get "volume" d)
        then ok (to_text (get "volume" d))
        else err (value_error "destination disk volume is missing")

unfoldable pub recorded_volume : ℤ → MigrationState → Result String
unfolding show volume_at
recorded_volume disk_index st = volume_at (show disk_index) st

unfoldable pub apply_proxmox_delta : ProxmoxSsh → ℤ → String → String → String → Exec Session Done
unfolding record_event
apply_proxmox_delta pve disk_index metadata payload script = do
  st ← the_state
  raise_if (truthy (get "powered_on" st.destination))
      (safety_error "destination must be stopped before applying a delta")
  volume ← lift (recorded_volume disk_index st)
  vmid ← lift (recorded_vmid st)
  in_world (apply_delta_to_volume pve vmid volume metadata payload script)
  record_event "delta_applied" (
      field "disk_index" (int disk_index) (
        field "volume" (str volume)
          (field "metadata" (str metadata) (field "payload" (str payload) end))))

unfoldable pub cmd_apply_proxmox_delta :
    ProxmoxSsh → ℤ → String → String → String → String → Exec World Done
unfolding on_state apply_proxmox_delta
cmd_apply_proxmox_delta pve disk_index metadata payload script path =
    saving path (apply_proxmox_delta pve disk_index metadata payload script)

-- The tests of `activate-production` before it looks at the host.
unfoldable pub check_activation : MigrationState → Result Done
check_activation st =
    if not (phase_eq st.phase cutover_in_progress)
    then err (safety_error "production activation requires CUTOVER_IN_PROGRESS")
    else if not (truthy (get "source_stopped_at_utc" st.cutover))
    then err (safety_error "source has not been recorded stopped")
    else if not (truthy (get "final_sync_completed_at_utc" st.cutover))
    then err (safety_error "final synchronization has not been verified")
    else ok tt

-- The part of `activate-production` behind those tests.
unfoldable pub hand_over : ProxmoxSsh → MigrationState → Exec Session Done
unfolding record_event
hand_over pve st = do
  vmid ← lift (recorded_vmid st)
  in_world (require_stopped pve vmid)
  let prod = get "production_vnet" st.destination
  let test = get "test_vnet" st.destination
  raise_if (not (truthy prod) || value_eq prod test)
      (safety_error "production VNet is missing or not distinct from test VNet")
  in_world (start_on_bridge pve vmid (to_text prod))
  set_destination "powered_on" (bool true)
  at ← now
  set_cutover "destination_started_at_utc" at
  set_cutover "destination_writes_possible" (bool true)
  record_event "production_destination_started"
      (field "vmid" (int vmid) (field "production_vnet" prod end))

unfoldable pub activate_production : ProxmoxSsh → Exec Session Done
unfolding hand_over
activate_production pve = do st ← the_state; lift (check_activation st); hand_over pve st

unfoldable pub cmd_activate_production : ProxmoxSsh → String → Exec World Done
unfolding on_state activate_production
cmd_activate_production pve path = saving path (activate_production pve)

-- `if net0 and test: …`
unfoldable pub isolate : ProxmoxSsh → ℤ → Config → Value → Exec World Done
isolate pve vmid cfg test = elim (config_get "net0" cfg) [
  | none ↦ pure tt
  | some net0 ↦
      unless (is_empty net0 || not (truthy test))
        (set_network pve vmid "net0" (with_bridge net0 (to_text test)))
]

unfoldable pub begin_rollback : ProxmoxSsh → String → ℤ → Exec Session Done
unfolding record_event
begin_rollback pve confirm timeout = do
  st ← the_state
  require (phase_in st.phase (cutover_in_progress ∷ cutover_complete ∷ []))
      (safety_error "rollback can only begin during/after cutover")
  require (confirmed confirm st) (safety_error "--confirm must exactly match source VM name")
  vmid ← lift (recorded_vmid st)
  in_world (stop pve vmid timeout)
  cfg ← in_world (config pve vmid)
  in_world (isolate pve vmid cfg (get "test_vnet" st.destination))
  set_destination "powered_on" (bool false)
  set_phase rollback_in_progress (str "destination stopped and isolated") false
  record_event "rollback_started"
      (field "destination_writes_possible" (get "destination_writes_possible" st.cutover) end)

unfoldable pub cmd_begin_rollback : ProxmoxSsh → String → ℤ → String → Exec World Done
unfolding on_state begin_rollback
cmd_begin_rollback pve confirm timeout path = saving path (begin_rollback pve confirm timeout)
