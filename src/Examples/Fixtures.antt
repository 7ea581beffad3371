-- ===== src/Examples/Fixtures.antt =====
-- A migration that is ready for its cutover, its state file, and a host that answers.
use hv2pve.Prelude.{String, true, false, none, List, []}
use hv2pve.Prelude.Int.{pos}
use hv2pve.Json.{bool, int, str, obj, nil, end, field}
use hv2pve.World.{json, FileSystem, Answer, finished, World, write}
use hv2pve.State.Phase.{cutover_ready, cutover_in_progress}
use hv2pve.State.Record.{MigrationState}
use hv2pve.State.Payload.{as_dict}
use hv2pve.Proxmox.{ProxmoxSsh}

abbrev pub state_path : String
state_path = "state.json"

abbrev pub ready_state : MigrationState
ready_state = record {
  migration_id = str "m1";
  phase = cutover_ready;
  source = field "vm_name" (str "vm") end;
  baseline = end;
  destination = field "proxmox_vmid" (int (pos 101)) (
      field "tested" (bool true)
        (field "production_vnet" (str "vmbr1") (field "test_vnet" (str "vmbr9") end)));
  sync = field "sequence" (int (pos 3)) (field "authoritative_reference_point" (str "rp3") end);
  validation =
      field "isolated_boot_verified" (bool true) (field "last_sync_verified" (bool true) end);
  cutover = field "authorized" (bool false) end;
  history = nil;
  created_at_utc = str "2026-01-01";
  updated_at_utc = str "2026-01-01";
  schema_version = pos 2;
}

abbrev pub started_state : MigrationState
started_state = record ready_state {
  phase = cutover_in_progress;
  cutover = field "authorized" (bool true) (
      field "source_stopped_at_utc" (str "2026-01-02")
        (field "final_sync_completed_at_utc" (str "2026-01-03") end));
}

abbrev pub host_answer : List (List String) → List String → Answer
host_answer ran argv =
    finished (record { stdout = "status: stopped"; stderr = ""; returncode = pos 0 })

abbrev pub world_with : FileSystem → World
world_with files = record {
  clock = λ n. "2026-02-01";
  ticks = 0;
  files = files;
  disks = λ p. none;
  sha256 = λ b. "digest";
  temp_name = λ p. ".state.tmp";
  remote = host_answer;
  uuid4 = "fresh";
  has_rsync = true;
  json_loads = λ s. none;
  tree = λ s. none;
  script_path = "remote_apply_delta.py";
  ran = [];
  printed = [];
}

abbrev pub no_files : FileSystem
no_files p = none

abbrev pub stored_world : MigrationState → World
stored_world st = world_with (write state_path (json (obj (as_dict st))) no_files)

abbrev pub a_host : ProxmoxSsh
a_host = record {
  host = "pve1";
  user = "root";
  identity_file = none;
  strict_host_key_checking = "accept-new";
}
