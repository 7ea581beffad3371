-- ===== src/Examples/HandOver.antt =====
-- An activation that succeeds: the host reports the destination stopped, and has a network for it.
use hv2pve.Prelude.{String, ◌≡◌, refl, true, false, List, [], ◌∷◌}
use hv2pve.Prelude.Int.{ℤ, pos}
use hv2pve.Json.{str, find, truthy, value_eq}
use hv2pve.Exec.{ok, ◌>>=◌}
use hv2pve.World.{Answer, finished}
use hv2pve.State.Record.{Session}
use hv2pve.Proxmox.{command, config_get, config, status, require_stopped, start, set_network}
use hv2pve.Controller.Remote.{recorded_vmid, start_on_bridge, check_activation, activate_production}
use hv2pve.Controller.Remote.Laws.{activate_production-seen}
use hv2pve.Controller.Gates.Guards.{MayActivate}
use hv2pve.Examples.Fixtures.{started_state, world_with, no_files, a_host}
use hv2pve.State.Phase.{phase_eq}
use hv2pve.Json.Number.{to_int}

abbrev output : String → Answer
output text = finished (record { stdout = text; stderr = ""; returncode = pos 0 })

-- The answers, by how many commands were run before.
abbrev patient_host : List (List String) → List String → Answer
patient_host [] argv = output "status: stopped"
patient_host (a ∷ []) argv = output "net0: e1000,bridge=vmbr9"
patient_host (a ∷ b ∷ ran) argv = output "status: stopped"

abbrev before_start : Session
before_start = record {
  world = record (world_with no_files) { remote = patient_host };
  state = started_state;
}

activation_succeeds : (activate_production a_host before_start).0 ≡ ok tt
unfolding activate_production ◌>>=◌ check_activation phase_eq truthy find recorded_vmid to_int
    require_stopped status command value_eq start_on_bridge config config_get set_network start
activation_succeeds = refl

activate_production-seen_example :
    MayActivate started_state
    × ((vmid : ℤ) × (recorded_vmid started_state ≡ ok vmid)
        × ((status a_host vmid before_start.world).0 ≡ ok "stopped"))
    × (truthy (str "vmbr1") ≡ true)
    × (value_eq (str "vmbr1") (str "vmbr9") ≡ false)
unfolding find
activate_production-seen_example = activate_production-seen a_host before_start activation_succeeds
