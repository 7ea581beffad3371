-- ===== src/Controller/Seeding.antt =====
-- controller/hv2pve.py: `seed`.
pub mod Made
pub mod Laws
use hv2pve.Prelude.{String, true, false}
use hv2pve.Json.{str, bool, Fields, update}
use hv2pve.Exec.{safety_error, Exec, Done, require, ◌>>=◌, ◌>>◌}
use hv2pve.World.{World}
use hv2pve.State.Phase.{baseline_ready, seeded, phase_eq}
use hv2pve.State.Record.{Session, in_world, set_state, record_event}
use hv2pve.State.Transition.{set_phase}
use hv2pve.Seed.Destination.{SeedRequest, seed_destination}
use hv2pve.Proxmox.{ProxmoxSsh}
use hv2pve.Controller.{on_state, the_state, set_destination, set_validation, saving}

-- What `seed` writes to the object once the destination is made.
unfoldable pub record_seed : Fields → Exec Session Done
unfolding record_event
record_seed result = do
  set_state (λ st. record st { destination = update st.destination result })
  set_destination "powered_on" (bool false)
  set_validation "baseline_verified" (bool true)
  set_phase seeded (str "baseline imported into Proxmox") false
  record_event "destination_seeded" result

unfoldable pub seed : ProxmoxSsh → SeedRequest → Exec Session Done
unfolding record_seed
seed pve q = do
  st ← the_state
  require (phase_eq st.phase baseline_ready) (safety_error "seed requires BASELINE_READY")
  result ← in_world (seed_destination st pve q)
  record_seed result

unfoldable pub cmd_seed : ProxmoxSsh → SeedRequest → String → Exec World Done
unfolding on_state seed
cmd_seed pve q path = saving path (seed pve q)
