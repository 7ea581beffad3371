-- ===== src/Controller/Command.antt =====
-- controller/hv2pve.py: the subcommands that `build_parser` declares.
use hv2pve.Prelude.{String, Bool, Option}
use hv2pve.Prelude.Int.{ℤ}
use hv2pve.Proxmox.{ProxmoxSsh}
use hv2pve.Seed.Destination.{SeedRequest}

-- A subcommand with its arguments, as `build_parser` makes them; the state file is apart.
-- `apply-delta` works on no state file.
pub data Command : Type 0 where
  init : (migration_id : Option String) (hyperv_host vm_name : String) → Command
  ingest_baseline ingest_sync : (input : String) → Command
  status validate_state cutover_plan rollback_plan : Command
  seed_plan : (storage test_vnet : String) → Command
  seed : ProxmoxSsh → SeedRequest → Command
  mark_seeded :
      (node : String) (vmid : ℤ) (test_vnet production_vnet : String) (baseline_verified : Bool)
      → Command
  apply_delta : (metadata payload target : String) → Command
  test_start activate_production : ProxmoxSsh → Command
  test_stop : ProxmoxSsh → (timeout : ℤ) → Command
  mark_tested : (guest application : Bool) → Command
  apply_proxmox_delta : ProxmoxSsh → (disk_index : ℤ) (metadata payload : String) → Command
  register_sync :
      (sequence : ℤ) (reference_point : String) (bundle : Option String) (verified ready : Bool)
      → Command
  authorize_cutover mark_source_stopped mark_rolled_back close : (confirm : String) → Command
  mark_final_sync : (verified : Bool) → Command
  mark_cutover_complete : (network guest application : Bool) → Command
  begin_rollback : ProxmoxSsh → (confirm : String) (timeout : ℤ) → Command
