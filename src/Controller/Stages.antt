-- ===== src/Controller/Stages.antt =====
-- controller/hv2pve.py: `mark-seeded`, `mark-tested` and `register-sync`.
pub mod Laws
use hv2pve.Prelude.{String, Bool, true, false, ◌&&◌, not, Option, none, some}
use hv2pve.Prelude.Int.{ℤ, leb_ℤ}
use hv2pve.Json.{Value, null, bool, int, str, end, field, get, update, truthy, value_eq}
use hv2pve.Exec.{
  value_error, safety_error, Exec, Done, lift, raise_if, require, unless, ◌>>=◌, ◌>>◌,
}
use hv2pve.World.{World}
use hv2pve.State.Phase.{seeded, tested, syncing, cutover_ready}
use hv2pve.State.Record.{Session, set_state, record_event}
use hv2pve.State.Transition.{set_phase}
use hv2pve.Controller.{
  on_state, the_state, set_destination, set_sync, pop_sync, set_validation, now, saving,
}
use hv2pve.Controller.Ingest.{current_sequence}

unfoldable pub mark_seeded : String → ℤ → String → String → Bool → Exec Session Done
mark_seeded node vmid test_vnet production_vnet baseline_verified = do
  set_state (λ st. record st {
    destination = update st.destination (
        field "proxmox_node" (str node) (
          field "proxmox_vmid" (int vmid) (
            field "test_vnet" (str test_vnet) (
              field "production_vnet" (str production_vnet)
                (field "powered_on" (bool false) end)))));
  })
  set_validation "baseline_verified" (bool baseline_verified)
  set_phase seeded (str "Proxmox destination seeded") false

unfoldable pub cmd_mark_seeded : String → String → ℤ → String → String → Bool → Exec World Done
unfolding on_state mark_seeded
cmd_mark_seeded path node vmid test_vnet production_vnet baseline_verified =
    saving path (mark_seeded node vmid test_vnet production_vnet baseline_verified)

unfoldable pub mark_tested : Bool → Bool → Exec Session Done
mark_tested guest_boot_verified application_verified = do
  st ← the_state
  raise_if (truthy (get "powered_on" st.destination))
      (safety_error "stop the isolated destination before marking the test complete")
  require guest_boot_verified (safety_error "--guest-boot-verified is required")
  set_destination "tested" (bool true)
  set_validation "isolated_boot_verified" (bool true)
  set_validation "guest_boot_verified" (bool true)
  set_validation "application_verified" (bool application_verified)
  set_phase tested (str "isolated test boot verified") false

unfoldable pub cmd_mark_tested : String → Bool → Bool → Exec World Done
unfolding on_state mark_tested
cmd_mark_tested path guest_boot_verified application_verified =
    saving path (mark_tested guest_boot_verified application_verified)

abbrev pub optional : Option String → Value
optional none = null
optional (some s) = str s

-- The writes of `register-sync` from the third on.
unfoldable pub finish_sync : ℤ → String → Option String → Bool → Exec Session Done
unfolding record_event
finish_sync sequence reference_point bundle ready = do
  set_sync "pending_reference_point" null
  pop_sync "pending_sequence"
  pop_sync "pending_bundle"
  at ← now
  set_sync "last_successful_sync_utc" at
  set_sync "last_bundle" (optional bundle)
  set_validation "last_sync_verified" (bool true)
  set_phase syncing (str "sync sequence registered") false
  record_event "sync_committed"
      (field "sequence" (int sequence) (field "reference_point" (str reference_point) end))
  unless (not ready)
      (set_phase cutover_ready (str "latest sync verified and selected for cutover") false)

-- The writes of `register-sync`, behind its three tests.
unfoldable pub commit_sync : ℤ → String → Option String → Bool → Exec Session Done
unfolding finish_sync
commit_sync sequence reference_point bundle ready = do
  set_sync "sequence" (int sequence)
  set_sync "authoritative_reference_point" (str reference_point)
  finish_sync sequence reference_point bundle ready

unfoldable pub register_sync : ℤ → String → Option String → Bool → Bool → Exec Session Done
register_sync sequence reference_point bundle verified ready = do
  st ← the_state
  current ← lift (current_sequence st)
  raise_if (leb_ℤ sequence current) (value_error "sync sequence must increase")
  let pending = get "pending_reference_point" st.sync
  raise_if (truthy pending && not (value_eq pending (str reference_point)))
      (value_error "reference point does not match pending synchronization")
  require verified (safety_error "a synchronization cannot become authoritative without --verified")
  commit_sync sequence reference_point bundle ready

unfoldable pub cmd_register_sync :
    String → ℤ → String → Option String → Bool → Bool → Exec World Done
unfolding on_state register_sync
cmd_register_sync path sequence reference_point bundle verified ready =
    saving path (register_sync sequence reference_point bundle verified ready)
