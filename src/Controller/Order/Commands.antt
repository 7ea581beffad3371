-- ===== src/Controller/Order/Commands.antt =====
-- controller/hv2pve.py: the work of each command and the order of a cutover.
use hv2pve.Prelude.{String, ◌≡◌, refl, inl, inr, Bool, true, Option, [], ◌∷◌, arith, Bool-cases}
use hv2pve.Prelude.Int.{ℤ}
use hv2pve.Exec.Keeps.{Keeps, Keeps-bind}
use hv2pve.World.{World}
use hv2pve.Json.{Value, str, bool, Fields, truthy}
use hv2pve.State.Payload.{enter_baseline}
use hv2pve.Controller.Ingest.{ingest_sync}
use hv2pve.Controller.Stages.{mark_seeded, mark_tested, finish_sync, commit_sync, register_sync}
use hv2pve.Controller.Order.{
  Holds, set_state-Holds, set_phase-Holds, holds_rules, IsApart, put_apart, put_authorized,
  put_stopped, put_final,
}
use hv2pve.Controller.{set_cutover}
use hv2pve.Controller.Cutover.{
  authorize_cutover, mark_source_stopped, mark_final_sync, mark_cutover_complete, mark_rolled_back,
  close,
}
use hv2pve.Controller.Remote.{test_start, test_stop, apply_proxmox_delta, begin_rollback}
use hv2pve.State.Phase.{baseline_ready, seeded, tested, syncing, cutover_ready, phase_in}
use hv2pve.Proxmox.{ProxmoxSsh}
use hv2pve.World.Outside.{
  config-SameFiles, stop-SameFiles, apply_delta_to_volume-SameFiles, start_on_bridge-SameFiles,
  isolate-SameFiles,
}
use hv2pve.Exec.{◌>>=◌}
use hv2pve.Controller.Seeding.{record_seed, seed}
use hv2pve.Seed.Destination.{SeedRequest}
use hv2pve.Seed.Outside.{seed_destination-SameFiles}
use hv2pve.Controller.Work.Stored.{IsTicking}

module _ (w₀ : World) where
  pub enter_baseline-Holds : Keeps (Holds w₀) enter_baseline
  unfolding enter_baseline
  enter_baseline-Holds = record {
    at = λ s h.
        elim (Bool-cases (
          phase_in s.state.phase
            (baseline_ready ∷ seeded ∷ tested ∷ syncing ∷ cutover_ready ∷ []))) [
              | inl e ↦ rw e h
              | inr e ↦ rw e (
                  (set_phase-Holds w₀ baseline_ready (str "Hyper-V baseline ingested") true).at s h)
            ];
  }

  pub ingest_sync-Holds : (input : String) (p : Fields) → Keeps (Holds w₀) (ingest_sync input p)
  unfolding ingest_sync
  ingest_sync-Holds input p = search holds_rules depth 20

  pub mark_seeded-Holds :
      (node : String) (vmid : ℤ) (test production : String) (verified : Bool)
      → Keeps (Holds w₀) (mark_seeded node vmid test production verified)
  unfolding mark_seeded
  mark_seeded-Holds node vmid test production verified =
      Keeps-bind _ _ (set_state-Holds w₀ _ (λ st. refl)) (λ u. search holds_rules)

  pub mark_tested-Holds :
      (guest application : Bool) → Keeps (Holds w₀) (mark_tested guest application)
  unfolding mark_tested
  mark_tested-Holds guest application = search holds_rules depth 20

  commit_sync-Holds :
      (sequence : ℤ) (reference : String) (bundle : Option String) (ready : Bool)
      → Keeps (Holds w₀) (commit_sync sequence reference bundle ready)
  unfolding commit_sync finish_sync
  commit_sync-Holds sequence reference bundle ready = search holds_rules depth 30

  pub register_sync-Holds :
      (sequence : ℤ) (reference : String) (bundle : Option String) (verified ready : Bool)
      → Keeps (Holds w₀) (register_sync sequence reference bundle verified ready)
  unfolding register_sync
  register_sync-Holds sequence reference bundle verified ready =
      search (holds_rules, commit_sync-Holds) depth 20

  pub mark_rolled_back-Holds : (confirm : String) → Keeps (Holds w₀) (mark_rolled_back confirm)
  unfolding mark_rolled_back
  mark_rolled_back-Holds confirm = search holds_rules depth 20

  pub close-Holds : (confirm : String) → Keeps (Holds w₀) (close confirm)
  unfolding close
  close-Holds confirm = search holds_rules depth 20

  pub mark_cutover_complete-Holds :
      (network guest application : Bool)
      → Keeps (Holds w₀) (mark_cutover_complete network guest application)
  unfolding mark_cutover_complete
  mark_cutover_complete-Holds network guest application = search holds_rules depth 20

  pub test_start-Holds : (pve : ProxmoxSsh) → Keeps (Holds w₀) (test_start pve)
  unfolding test_start
  test_start-Holds pve = search (holds_rules, start_on_bridge-SameFiles) depth 20

  pub test_stop-Holds : (pve : ProxmoxSsh) (timeout : ℤ) → Keeps (Holds w₀) (test_stop pve timeout)
  unfolding test_stop
  test_stop-Holds pve timeout = search (holds_rules, stop-SameFiles) depth 20

  pub apply_proxmox_delta-Holds :
      (pve : ProxmoxSsh) (index : ℤ) (metadata payload script : String)
      → Keeps (Holds w₀) (apply_proxmox_delta pve index metadata payload script)
  unfolding apply_proxmox_delta
  apply_proxmox_delta-Holds pve index metadata payload script =
      search (holds_rules, apply_delta_to_volume-SameFiles) depth 20

  pub begin_rollback-Holds :
      (pve : ProxmoxSsh) (confirm : String) (timeout : ℤ)
      → Keeps (Holds w₀) (begin_rollback pve confirm timeout)
  unfolding begin_rollback
  begin_rollback-Holds pve confirm timeout =
      search (holds_rules, stop-SameFiles, config-SameFiles, isolate-SameFiles) depth 30

  -- The four commands that write to the order itself.
  set_cutover-Holds : (k : String) (v : Value) → IsApart k → Keeps (Holds w₀) (set_cutover k v)
  set_cutover-Holds k v e = record {
    at = λ s h. record { same = h.same; kept = put_apart v s.state.cutover h.kept k e };
  }

  set_authorized : Keeps (Holds w₀) (set_cutover "authorized" (bool true))
  unfolding truthy
  set_authorized = record {
    at = λ s h. record {
      same = h.same;
      kept = put_authorized (bool true) s.state.cutover h.kept refl;
    };
  }

  set_authorized_at : (v : Value) → Keeps (Holds w₀) (set_cutover "authorized_at_utc" v)
  set_authorized_at v = set_cutover-Holds "authorized_at_utc" v (refl, refl, refl, refl)

  pub authorize_cutover-Holds : (confirm : String) → Keeps (Holds w₀) (authorize_cutover confirm)
  unfolding authorize_cutover
  authorize_cutover-Holds confirm = search (holds_rules, set_authorized, set_authorized_at) depth 30

  pub mark_source_stopped-Holds :
      IsTicking w₀ → (confirm : String) → Keeps (Holds w₀) (mark_source_stopped confirm)
  unfolding mark_source_stopped ◌>>=◌
  mark_source_stopped-Holds tick confirm = record {
    at = λ s h.
        let t : truthy (str (s.world.clock s.world.ticks)) ≡ true =
          rw (h.same.clock) (tick s.world.ticks) in
        let stopped = put_stopped (str (s.world.clock s.world.ticks)) s.state.cutover h.kept t in
        ground (arith, stopped);
  }

  pub mark_final_sync-Holds :
      IsTicking w₀ → (verified : Bool) → Keeps (Holds w₀) (mark_final_sync verified)
  unfolding mark_final_sync ◌>>=◌
  mark_final_sync-Holds tick verified = record {
    at = λ s h.
        let t : truthy (str (s.world.clock s.world.ticks)) ≡ true =
          rw (h.same.clock) (tick s.world.ticks) in
        let final = put_final (str (s.world.clock s.world.ticks)) s.state.cutover h.kept t in
        ground (arith, final);
  }

  record_seed-Holds : (result : Fields) → Keeps (Holds w₀) (record_seed result)
  unfolding record_seed
  record_seed-Holds result =
      Keeps-bind _ _ (set_state-Holds w₀ _ (λ st. refl)) (λ u. search holds_rules depth 20)

  pub seed-Holds : (pve : ProxmoxSsh) (q : SeedRequest) → Keeps (Holds w₀) (seed pve q)
  unfolding seed
  seed-Holds pve q = search (holds_rules, record_seed-Holds, seed_destination-SameFiles) depth 20
