-- ===== src/Controller/Sequence/Commands.antt =====
-- controller/hv2pve.py: the work of the commands and the number of the last synchronization.
use hv2pve.Prelude.{String, refl, Bool}
use hv2pve.Prelude.Int.{ℤ}
use hv2pve.Json.{Fields}
use hv2pve.Exec.Keeps.{Keeps, Keeps-bind}
use hv2pve.World.{World}
use hv2pve.World.Outside.{
  config-SameFiles, require_stopped-SameFiles, stop-SameFiles, apply_delta_to_volume-SameFiles,
  start_on_bridge-SameFiles, isolate-SameFiles,
}
use hv2pve.Seed.Destination.{SeedRequest}
use hv2pve.Seed.Outside.{seed_destination-SameFiles}
use hv2pve.Proxmox.{ProxmoxSsh}
use hv2pve.Controller.Ingest.{ingest_sync}
use hv2pve.Controller.Stages.{mark_seeded, mark_tested}
use hv2pve.Controller.Cutover.{
  authorize_cutover, record_source_stop, mark_source_stopped, record_final_sync, mark_final_sync,
  mark_cutover_complete, mark_rolled_back, close,
}
use hv2pve.Controller.Remote.{
  test_start, test_stop, apply_proxmox_delta, hand_over, activate_production, begin_rollback,
}
use hv2pve.Controller.Seeding.{record_seed, seed}
use hv2pve.Controller.Sequence.{Counts, set_state-Counts, counts_rules}

module _ (n : ℤ) (w₀ : World) where
  pub ingest_sync-Counts : (input : String) (p : Fields) → Keeps (Counts n w₀) (ingest_sync input p)
  unfolding ingest_sync
  ingest_sync-Counts input p = search counts_rules depth 40

  pub mark_seeded-Counts :
      (node : String) (vmid : ℤ) (test production : String) (verified : Bool)
      → Keeps (Counts n w₀) (mark_seeded node vmid test production verified)
  unfolding mark_seeded
  mark_seeded-Counts node vmid test production verified =
      Keeps-bind _ _ (set_state-Counts n w₀ _ (λ st. refl)) (λ u. search counts_rules depth 20)

  pub mark_tested-Counts :
      (guest application : Bool) → Keeps (Counts n w₀) (mark_tested guest application)
  unfolding mark_tested
  mark_tested-Counts guest application = search counts_rules depth 40

  pub mark_rolled_back-Counts : (confirm : String) → Keeps (Counts n w₀) (mark_rolled_back confirm)
  unfolding mark_rolled_back
  mark_rolled_back-Counts confirm = search counts_rules depth 40

  pub close-Counts : (confirm : String) → Keeps (Counts n w₀) (close confirm)
  unfolding close
  close-Counts confirm = search counts_rules depth 40

  pub mark_cutover_complete-Counts :
      (network guest application : Bool)
      → Keeps (Counts n w₀) (mark_cutover_complete network guest application)
  unfolding mark_cutover_complete
  mark_cutover_complete-Counts network guest application = search counts_rules depth 40

  pub test_start-Counts : (pve : ProxmoxSsh) → Keeps (Counts n w₀) (test_start pve)
  unfolding test_start
  test_start-Counts pve = search (counts_rules, start_on_bridge-SameFiles) depth 40

  pub test_stop-Counts :
      (pve : ProxmoxSsh) (timeout : ℤ) → Keeps (Counts n w₀) (test_stop pve timeout)
  unfolding test_stop
  test_stop-Counts pve timeout = search (counts_rules, stop-SameFiles) depth 40

  pub apply_proxmox_delta-Counts :
      (pve : ProxmoxSsh) (index : ℤ) (metadata payload script : String)
      → Keeps (Counts n w₀) (apply_proxmox_delta pve index metadata payload script)
  unfolding apply_proxmox_delta
  apply_proxmox_delta-Counts pve index metadata payload script =
      search (counts_rules, apply_delta_to_volume-SameFiles) depth 40

  pub begin_rollback-Counts :
      (pve : ProxmoxSsh) (confirm : String) (timeout : ℤ)
      → Keeps (Counts n w₀) (begin_rollback pve confirm timeout)
  unfolding begin_rollback
  begin_rollback-Counts pve confirm timeout =
      search (counts_rules, stop-SameFiles, config-SameFiles, isolate-SameFiles) depth 40

  pub authorize_cutover-Counts :
      (confirm : String) → Keeps (Counts n w₀) (authorize_cutover confirm)
  unfolding authorize_cutover
  authorize_cutover-Counts confirm = search counts_rules depth 40

  pub mark_source_stopped-Counts :
      (confirm : String) → Keeps (Counts n w₀) (mark_source_stopped confirm)
  unfolding mark_source_stopped record_source_stop
  mark_source_stopped-Counts confirm = search counts_rules depth 40

  pub mark_final_sync-Counts : (verified : Bool) → Keeps (Counts n w₀) (mark_final_sync verified)
  unfolding mark_final_sync record_final_sync
  mark_final_sync-Counts verified = search counts_rules depth 40

  pub activate_production-Counts :
      (pve : ProxmoxSsh) → Keeps (Counts n w₀) (activate_production pve)
  unfolding activate_production hand_over
  activate_production-Counts pve =
      search (counts_rules, require_stopped-SameFiles, start_on_bridge-SameFiles) depth 40

  record_seed-Counts : (result : Fields) → Keeps (Counts n w₀) (record_seed result)
  unfolding record_seed
  record_seed-Counts result =
      Keeps-bind _ _ (set_state-Counts n w₀ _ (λ st. refl)) (λ u. search counts_rules depth 20)

  pub seed-Counts : (pve : ProxmoxSsh) (q : SeedRequest) → Keeps (Counts n w₀) (seed pve q)
  unfolding seed
  seed-Counts pve q = search (counts_rules, record_seed-Counts, seed_destination-SameFiles) depth 20
