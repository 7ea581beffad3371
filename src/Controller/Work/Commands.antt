-- ===== src/Controller/Work/Commands.antt =====
-- The commands, whatever the invariant.
use hv2pve.Prelude.{◌+◌, String, refl, Option, arith}
use hv2pve.Json.{Value, str, Fields, end, field, nil}
use hv2pve.Exec.Keeps.{Keeps, Keeps-lift, Keeps-bind, keeps_rules}
use hv2pve.World.{World, utc_now, print}
use hv2pve.World.Outside.{SameFiles, SameFiles-refl, utc_now-SameFiles}
use hv2pve.State.Payload.{as_fields, from_dict}
use hv2pve.State.Storage.{save, read_json, load}
use hv2pve.Controller.Ingest.{
  chosen_id, cmd_init, ingest_sync, cmd_ingest_sync, cmd_status, cmd_validate, cmd_seed_plan,
  cmd_cutover_plan, cmd_rollback_plan,
}
use hv2pve.Exec.{Exec, lift, ◌>>=◌, ◌>>◌}
use hv2pve.State.Record.{
  schema_version_supported, default_sync, default_destination, default_validation, default_cutover,
  MigrationState, Session, in_world, with_state, set_state, new_state, record_event,
}
use hv2pve.State.Phase.{new}
use hv2pve.Controller.Work.{Works, in_world-Works}
use hv2pve.Controller.Work.Stored.{IsTicking, Holding, Holding-same}
use hv2pve.Controller.Work.Runs.{Leads, save-Leads, Leads-bind, on_state-Holding}
use hv2pve.State.Payload.Laws.{filled}
use hv2pve.State.Storage.Laws.{stamped}

module _ (w₀ : World) where
  pub read_json-SameFiles : (path : String) → Keeps (SameFiles w₀) (read_json path)
  unfolding read_json
  read_json-SameFiles path = record { at = λ w h. ground arith }

  from_dict-SameFiles : (d : Fields) → Keeps (SameFiles w₀) (from_dict d)
  unfolding from_dict
  from_dict-SameFiles d = search (keeps_rules, utc_now-SameFiles) depth 10

  load-SameFiles : (path : String) → Keeps (SameFiles w₀) (load path)
  unfolding load
  load-SameFiles path = search (keeps_rules, read_json-SameFiles, from_dict-SameFiles) depth 10

  pub print-SameFiles : (v : Value) → Keeps (SameFiles w₀) (print v)
  print-SameFiles v = record {
    at = λ w h. record { files = h.files; clock = h.clock; temp_name = h.temp_name };
  }

  ruleset reads_rules = (keeps_rules, load-SameFiles, print-SameFiles)

  pub cmd_status-SameFiles : (path : String) → Keeps (SameFiles w₀) (cmd_status path)
  unfolding cmd_status
  cmd_status-SameFiles path = search reads_rules depth 10

  pub validate-SameFiles : (path : String) → Keeps (SameFiles w₀) (cmd_validate path)
  unfolding cmd_validate
  validate-SameFiles path = search reads_rules depth 10

  pub seed_plan-SameFiles :
      (path storage test_vnet : String)
      → Keeps (SameFiles w₀) (cmd_seed_plan path storage test_vnet)
  unfolding cmd_seed_plan
  seed_plan-SameFiles path storage test_vnet = search reads_rules depth 10

  pub cutover_plan-SameFiles : (path : String) → Keeps (SameFiles w₀) (cmd_cutover_plan path)
  unfolding cmd_cutover_plan
  cutover_plan-SameFiles path = search reads_rules depth 10

  pub rollback_plan-SameFiles : (path : String) → Keeps (SameFiles w₀) (cmd_rollback_plan path)
  unfolding cmd_rollback_plan
  rollback_plan-SameFiles path = search reads_rules depth 10

-- What `new_state` makes at two times.
abbrev pub born : Value → String → String → MigrationState
born id created updated = record {
  migration_id = id;
  phase = new;
  source = end;
  baseline = end;
  destination = default_destination;
  sync = default_sync;
  validation = default_validation;
  cutover = default_cutover;
  history = nil;
  created_at_utc = str created;
  updated_at_utc = str updated;
  schema_version = schema_version_supported;
}

module _ (Missing : Type 0) (P : MigrationState → Type 0) where
  -- What leaves the files alone leaves the state file within the invariant.
  pub SameFiles-Holding :
      {A : Type 0} (path : String) (m : Exec World A)
      → ((w₀ : World) → Keeps (SameFiles w₀) m)
      → Keeps (Holding Missing P path) m
  SameFiles-Holding path m k = record {
    at = λ w u. Holding-same Missing P path w (m w).1 ((k w).at w (SameFiles-refl w)) u;
  }

module _ (Missing : Type 0) (P : MigrationState → Type 0)
    (filled_keeps : (st : MigrationState) → P st → P (filled st))
    (stamped_keeps : (now : String) (st : MigrationState) → P st → P (stamped now st)) where
  with_state-Holding :
      {A : Type 0} (path : String) (st : MigrationState) (body : Exec Session A)
      → P st
      → Leads Missing P filled_keeps stamped_keeps path body
      → Keeps (Holding Missing P path) (with_state st body)
  with_state-Holding path st body o l = record {
    at = λ w u.
        l.at w u (record { world = w; state = st }) (record { same = SameFiles-refl w; kept = o });
  }

  init-Leads :
      (path : String) (f : MigrationState → MigrationState) (event : String) (details : Fields)
      → ((w₀ : World) → Keeps (Works P w₀) (set_state f))
      → ((w₀ : World) → Keeps (Works P w₀) (record_event event details))
      → Leads Missing P filled_keeps stamped_keeps path
          (do set_state f; record_event event details; save path)
  init-Leads path f event details k l =
      Leads-bind Missing P filled_keeps stamped_keeps path (set_state f)
        (λ x. do record_event event details; save path) (λ w₀ t. k w₀)
        λ x.
          Leads-bind Missing P filled_keeps stamped_keeps path (record_event event details)
            (λ y. save path) (λ w₀ t. l w₀)
            (λ y. save-Leads Missing P filled_keeps stamped_keeps path)

  -- `init` writes a new state.
  pub init-Holding :
      (path : String) (id : Option String) (host vm : String)
      → ((id : Value) (created updated : String) → P (born id created updated))
      → ((w₀ : World) (source : Fields)
          → Keeps (Works P w₀) (set_state (λ st. record st { source = source })))
      → ((w₀ : World) (event : String) (details : Fields)
          → Keeps (Works P w₀) (record_event event details))
      → Keeps (Holding Missing P path) (cmd_init id host vm path)
  unfolding cmd_init ◌>>=◌ new_state utc_now
  init-Holding path id host vm fresh sourced recorded = record {
    at = λ w u.
        (Keeps-bind _ _
            (with_state-Holding path
              (born (str (chosen_id id w.uuid4)) (w.clock w.ticks) (w.clock (w.ticks + 1))) _
              (fresh (str (chosen_id id w.uuid4)) (w.clock w.ticks) (w.clock (w.ticks + 1)))
              (init-Leads path
                (λ st. record st {
                  source = field "computer_name" (str host) (field "vm_name" (str vm) end);
                })
                "migration_created" (field "hyperv_host" (str host) (field "vm_name" (str vm) end))
                (λ w₀. sourced w₀ (field "computer_name" (str host) (field "vm_name" (str vm) end)))
                (λ w₀. recorded w₀ _ _)))
            (λ x. SameFiles-Holding Missing P path _ (λ w₀. print-SameFiles w₀ (str path)))).at
          (record w { ticks = w.ticks + 1 + 1 })
          (Holding-same Missing P path w (record w { ticks = w.ticks + 1 + 1 })
            (record { files = refl; clock = refl; temp_name = refl }) u);
  }

  ingest_sync-Leads :
      (path input : String) (p : Fields)
      → ((w₀ : World) → IsTicking w₀ → Keeps (Works P w₀) (ingest_sync input p))
      → Leads Missing P filled_keeps stamped_keeps path (do ingest_sync input p; save path)
  ingest_sync-Leads path input p k =
      Leads-bind Missing P filled_keeps stamped_keeps path (ingest_sync input p) (λ x. save path) k
        (λ x. save-Leads Missing P filled_keeps stamped_keeps path)

  pub ingest_sync-Holding :
      (path input : String)
      → ((w₀ : World) (p : Fields) → IsTicking w₀ → Keeps (Works P w₀) (ingest_sync input p))
      → Keeps (Holding Missing P path) (cmd_ingest_sync input path)
  unfolding cmd_ingest_sync
  ingest_sync-Holding path input k = on_state-Holding Missing P filled_keeps stamped_keeps path _ (
      Leads-bind Missing P filled_keeps stamped_keeps path (in_world (read_json input)) _
        (λ w₀ t. in_world-Works P w₀ (read_json input) (read_json-SameFiles w₀ input))
        λ payload.
          Leads-bind Missing P filled_keeps stamped_keeps path (lift (as_fields payload)) _
            (λ w₀ t. Keeps-lift _) (λ p. ingest_sync-Leads path input p (λ w₀ t. k w₀ p t)))
