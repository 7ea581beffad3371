-- ===== src/Controller/Phases/Commands.antt =====
-- What the commands do to the phase.
use hv2pve.Prelude.{String, refl, Bool, Option}
use hv2pve.Prelude.Int.{ℤ}
use hv2pve.Json.{Fields}
use hv2pve.Exec.Keeps.{Keeps, Keeps-bind}
use hv2pve.State.Phase.{Phase}
use hv2pve.World.{World}
use hv2pve.World.Outside.{
  config-SameFiles, require_stopped-SameFiles, stop-SameFiles, apply_delta_to_volume-SameFiles,
  start_on_bridge-SameFiles, isolate-SameFiles,
}
use hv2pve.Seed.Destination.{SeedRequest}
use hv2pve.Seed.Outside.{seed_destination-SameFiles}
use hv2pve.Proxmox.{ProxmoxSsh}
use hv2pve.Controller.Ingest.{ingest_sync}
use hv2pve.Controller.Stages.{mark_seeded, mark_tested, finish_sync, commit_sync, register_sync}
use hv2pve.Controller.Cutover.{
  authorize_cutover, record_source_stop, mark_source_stopped, record_final_sync, mark_final_sync,
  mark_cutover_complete, mark_rolled_back, close,
}
use hv2pve.Controller.Remote.{
  test_start, test_stop, apply_proxmox_delta, hand_over, activate_production, begin_rollback,
}
use hv2pve.Controller.Seeding.{record_seed, seed}
use hv2pve.Controller.Phases.{Follows, set_state-Follows, follows_rules}

module _ (start : Phase) (w₀ : World) where
  pub ingest_sync-Follows :
      (input : String) (p : Fields) → Keeps (Follows start w₀) (ingest_sync input p)
  unfolding ingest_sync
  ingest_sync-Follows input p = search follows_rules depth 40

  pub mark_seeded-Follows :
      (node : String) (vmid : ℤ) (test production : String) (verified : Bool)
      → Keeps (Follows start w₀) (mark_seeded node vmid test production verified)
  unfolding mark_seeded
  mark_seeded-Follows node vmid test production verified =
      Keeps-bind _ _ (set_state-Follows start w₀ _ (λ st. refl))
        (λ u. search follows_rules depth 20)

  pub mark_tested-Follows :
      (guest application : Bool) → Keeps (Follows start w₀) (mark_tested guest application)
  unfolding mark_tested
  mark_tested-Follows guest application = search follows_rules depth 40

  pub register_sync-Follows :
      (sequence : ℤ) (reference : String) (bundle : Option String) (verified ready : Bool)
      → Keeps (Follows start w₀) (register_sync sequence reference bundle verified ready)
  unfolding register_sync commit_sync finish_sync
  register_sync-Follows sequence reference bundle verified ready = search follows_rules depth 40

  pub mark_rolled_back-Follows :
      (confirm : String) → Keeps (Follows start w₀) (mark_rolled_back confirm)
  unfolding mark_rolled_back
  mark_rolled_back-Follows confirm = search follows_rules depth 40

  pub close-Follows : (confirm : String) → Keeps (Follows start w₀) (close confirm)
  unfolding close
  close-Follows confirm = search follows_rules depth 40

  pub mark_cutover_complete-Follows :
      (network guest application : Bool)
      → Keeps (Follows start w₀) (mark_cutover_complete network guest application)
  unfolding mark_cutover_complete
  mark_cutover_complete-Follows network guest application = search follows_rules depth 40

  pub test_start-Follows : (pve : ProxmoxSsh) → Keeps (Follows start w₀) (test_start pve)
  unfolding test_start
  test_start-Follows pve = search (follows_rules, start_on_bridge-SameFiles) depth 40

  pub test_stop-Follows :
      (pve : ProxmoxSsh) (timeout : ℤ) → Keeps (Follows start w₀) (test_stop pve timeout)
  unfolding test_stop
  test_stop-Follows pve timeout = search (follows_rules, stop-SameFiles) depth 40

  pub apply_proxmox_delta-Follows :
      (pve : ProxmoxSsh) (index : ℤ) (metadata payload script : String)
      → Keeps (Follows start w₀) (apply_proxmox_delta pve index metadata payload script)
  unfolding apply_proxmox_delta
  apply_proxmox_delta-Follows pve index metadata payload script =
      search (follows_rules, apply_delta_to_volume-SameFiles) depth 40

  pub begin_rollback-Follows :
      (pve : ProxmoxSsh) (confirm : String) (timeout : ℤ)
      → Keeps (Follows start w₀) (begin_rollback pve confirm timeout)
  unfolding begin_rollback
  begin_rollback-Follows pve confirm timeout =
      search (follows_rules, stop-SameFiles, config-SameFiles, isolate-SameFiles) depth 40

  pub authorize_cutover-Follows :
      (confirm : String) → Keeps (Follows start w₀) (authorize_cutover confirm)
  unfolding authorize_cutover
  authorize_cutover-Follows confirm = search follows_rules depth 40

  pub mark_source_stopped-Follows :
      (confirm : String) → Keeps (Follows start w₀) (mark_source_stopped confirm)
  unfolding mark_source_stopped record_source_stop
  mark_source_stopped-Follows confirm = search follows_rules depth 40

  pub mark_final_sync-Follows :
      (verified : Bool) → Keeps (Follows start w₀) (mark_final_sync verified)
  unfolding mark_final_sync record_final_sync
  mark_final_sync-Follows verified = search follows_rules depth 40

  pub activate_production-Follows :
      (pve : ProxmoxSsh) → Keeps (Follows start w₀) (activate_production pve)
  unfolding activate_production hand_over
  activate_production-Follows pve =
      search (follows_rules, require_stopped-SameFiles, start_on_bridge-SameFiles) depth 40

  record_seed-Follows : (result : Fields) → Keeps (Follows start w₀) (record_seed result)
  unfolding record_seed
  record_seed-Follows result =
      Keeps-bind _ _ (set_state-Follows start w₀ _ (λ st. refl))
        (λ u. search follows_rules depth 20)

  pub seed-Follows : (pve : ProxmoxSsh) (q : SeedRequest) → Keeps (Follows start w₀) (seed pve q)
  unfolding seed
  seed-Follows pve q =
      search (follows_rules, record_seed-Follows, seed_destination-SameFiles) depth 20
