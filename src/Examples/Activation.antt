-- ===== src/Examples/Activation.antt =====
-- An activation behind the load of its state file: it looks at the host, and then refuses.
use hv2pve.Prelude.{◌+◌, String, ◌≡◌, refl, List}
use hv2pve.Prelude.Lists.{length}
use hv2pve.Examples.Fixtures.{state_path, started_state, stored_world, a_host}
use hv2pve.Exec.{Result, ok, continue, ◌>>=◌, ◌>>◌}
use hv2pve.Controller.Remote.{recorded_vmid, start_on_bridge, check_activation, activate_production}
use hv2pve.State.Storage.{save}
use hv2pve.World.{World}
use hv2pve.State.Record.{MigrationState, with_state}
use hv2pve.State.Payload.Laws.{filled}
use hv2pve.State.Phase.{phase_eq}
use hv2pve.Json.{find, put, truthy, value_eq}
use hv2pve.State.Payload.{set_defaults}
use hv2pve.Json.Number.{to_int}
use hv2pve.Proxmox.{command, config_get, config, status, require_stopped}

abbrev pub behind_load : Result MigrationState × World → List (List String)
behind_load p =
    (continue p.0 (λ st. with_state st (do activate_production a_host; save state_path)) p.1).1.ran

pub filled_acts :
    length (
      behind_load
        (ok (filled started_state), record (stored_world started_state) { ticks = 0 + 1 + 1 }))
    ≡ 2
unfolding activate_production ◌>>=◌ check_activation phase_eq truthy find set_defaults put
    recorded_vmid to_int require_stopped status command value_eq start_on_bridge config config_get
filled_acts = refl
