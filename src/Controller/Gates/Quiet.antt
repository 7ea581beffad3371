-- ===== src/Controller/Gates/Quiet.antt =====
use hv2pve.Prelude.{String, inl, inr, Bool, true, Option, [], ◌∷◌, Bool-cases}
use hv2pve.Prelude.Int.{ℤ}
use hv2pve.Json.{Value, str}
use hv2pve.Exec.{Exec, Done, ◌>>◌}
use hv2pve.Exec.Keeps.{Keeps, Keeps-bind, keeps_rules}
use hv2pve.World.{World, print}
use hv2pve.State.Phase.{baseline_ready, seeded, tested, syncing, cutover_ready, phase_in}
use hv2pve.State.Record.{MigrationState, Session, with_state, new_state}
use hv2pve.State.Payload.{enter_baseline}
use hv2pve.State.Storage.{save, load}
use hv2pve.Controller.{on_state, saving}
use hv2pve.Controller.Ingest.{
  cmd_init, cmd_ingest_baseline, ingest_sync, cmd_ingest_sync, cmd_status, cmd_validate,
  cmd_seed_plan, cmd_cutover_plan, cmd_rollback_plan,
}
use hv2pve.Controller.Stages.{mark_seeded, mark_tested, finish_sync, commit_sync, register_sync}
use hv2pve.Controller.Cutover.{
  authorize_cutover, record_source_stop, mark_source_stopped, record_final_sync, mark_final_sync,
  mark_cutover_complete, mark_rolled_back, close,
}
use hv2pve.Controller.Gates.{
  SameRuns, Quiet, utc_now-Runs, set_phase-Quiet, save-Quiet, quiet_rules, read_json-Runs,
  from_dict-Runs, load-Runs,
}

-- The commands that run nothing on the Proxmox host.

module _ (w₀ : World) where
  pub print-Runs : (v : Value) → Keeps (SameRuns w₀) (print v)
  print-Runs v = record { at = λ w h. h }

  pub with_state-Runs :
      {A : Type 0} (st : MigrationState) (body : Exec Session A)
      → Keeps (Quiet w₀) body
      → Keeps (SameRuns w₀) (with_state st body)
  with_state-Runs st body k = record { at = λ w h. k.at (record { world = w; state = st }) h }

  pub on_state-Runs :
      {A : Type 0} (path : String) (body : Exec Session A)
      → Keeps (Quiet w₀) body
      → Keeps (SameRuns w₀) (on_state path body)
  unfolding on_state
  on_state-Runs path body k =
      Keeps-bind (load path) (λ st. with_state st body) (load-Runs w₀ path)
        (λ st. with_state-Runs st body k)

  pub saving-Runs :
      (path : String) (body : Exec Session Done)
      → Keeps (Quiet w₀) body
      → Keeps (SameRuns w₀) (saving path body)
  saving-Runs path body k =
      on_state-Runs path (do body; save path)
        (Keeps-bind body (λ x. save path) k (λ x. save-Quiet w₀ path))

  ruleset runs_rules =
      (keeps_rules, load-Runs, read_json-Runs, from_dict-Runs, print-Runs, utc_now-Runs)

  pub init-Runs :
      (path : String) (id : Option String) (host vm : String)
      → Keeps (SameRuns w₀) (cmd_init id host vm path)
  unfolding cmd_init new_state
  init-Runs path id host vm = search (runs_rules, with_state-Runs, quiet_rules) depth 20

  pub enter_baseline-Quiet : Keeps (Quiet w₀) enter_baseline
  unfolding enter_baseline
  enter_baseline-Quiet = record {
    at = λ s h.
        elim (Bool-cases (
          phase_in s.state.phase
            (baseline_ready ∷ seeded ∷ tested ∷ syncing ∷ cutover_ready ∷ []))) [
              | inl e ↦ rw e h
              | inr e ↦ rw e (
                  (set_phase-Quiet w₀ baseline_ready (str "Hyper-V baseline ingested") true).at s h)
            ];
  }

  pub ingest_baseline-Runs :
      (input path : String) → Keeps (SameRuns w₀) (cmd_ingest_baseline input path)
  unfolding cmd_ingest_baseline
  ingest_baseline-Runs input path =
      search (runs_rules, with_state-Runs, quiet_rules, enter_baseline-Quiet) depth 20

  pub ingest_sync-Runs : (input path : String) → Keeps (SameRuns w₀) (cmd_ingest_sync input path)
  unfolding cmd_ingest_sync ingest_sync
  ingest_sync-Runs input path = search (on_state-Runs, quiet_rules, read_json-Runs) depth 30

  pub status-Runs : (path : String) → Keeps (SameRuns w₀) (cmd_status path)
  unfolding cmd_status
  status-Runs path = search runs_rules depth 10

  pub validate-Runs : (path : String) → Keeps (SameRuns w₀) (cmd_validate path)
  unfolding cmd_validate
  validate-Runs path = search runs_rules depth 10

  pub seed_plan-Runs :
      (path storage test_vnet : String) → Keeps (SameRuns w₀) (cmd_seed_plan path storage test_vnet)
  unfolding cmd_seed_plan
  seed_plan-Runs path storage test_vnet = search runs_rules depth 10

  pub cutover_plan-Runs : (path : String) → Keeps (SameRuns w₀) (cmd_cutover_plan path)
  unfolding cmd_cutover_plan
  cutover_plan-Runs path = search runs_rules depth 10

  pub rollback_plan-Runs : (path : String) → Keeps (SameRuns w₀) (cmd_rollback_plan path)
  unfolding cmd_rollback_plan
  rollback_plan-Runs path = search runs_rules depth 10

  pub mark_seeded-Runs :
      (node : String) (vmid : ℤ) (test production : String) (verified : Bool)
      → Keeps (Quiet w₀) (mark_seeded node vmid test production verified)
  unfolding mark_seeded
  mark_seeded-Runs node vmid test production verified = search quiet_rules depth 20

  pub mark_tested-Runs :
      (guest application : Bool) → Keeps (Quiet w₀) (mark_tested guest application)
  unfolding mark_tested
  mark_tested-Runs guest application = search quiet_rules depth 20

  pub register_sync-Runs :
      (sequence : ℤ) (reference : String) (bundle : Option String) (verified ready : Bool)
      → Keeps (Quiet w₀) (register_sync sequence reference bundle verified ready)
  unfolding register_sync commit_sync finish_sync
  register_sync-Runs sequence reference bundle verified ready = search quiet_rules depth 40

  pub authorize_cutover-Runs : (confirm : String) → Keeps (Quiet w₀) (authorize_cutover confirm)
  unfolding authorize_cutover
  authorize_cutover-Runs confirm = search quiet_rules depth 30

  pub mark_source_stopped-Runs : (confirm : String) → Keeps (Quiet w₀) (mark_source_stopped confirm)
  unfolding mark_source_stopped record_source_stop
  mark_source_stopped-Runs confirm = search quiet_rules depth 30

  pub mark_final_sync-Runs : (verified : Bool) → Keeps (Quiet w₀) (mark_final_sync verified)
  unfolding mark_final_sync record_final_sync
  mark_final_sync-Runs verified = search quiet_rules depth 30

  pub mark_cutover_complete-Runs :
      (network guest application : Bool)
      → Keeps (Quiet w₀) (mark_cutover_complete network guest application)
  unfolding mark_cutover_complete
  mark_cutover_complete-Runs network guest application = search quiet_rules depth 30

  pub mark_rolled_back-Runs : (confirm : String) → Keeps (Quiet w₀) (mark_rolled_back confirm)
  unfolding mark_rolled_back
  mark_rolled_back-Runs confirm = search quiet_rules depth 30

  pub close-Runs : (confirm : String) → Keeps (Quiet w₀) (close confirm)
  unfolding close
  close-Runs confirm = search quiet_rules depth 30
