-- ===== src/Examples/Syncs.antt =====
-- A round of synchronization: the metadata stands in a file beside the state.
use hv2pve.Prelude.{refl, true, none, [], ◌∷◌}
use hv2pve.Prelude.Int.{pos}
use hv2pve.Json.{obj, str, int, Fields, end, field, find, truthy, value_eq}
use hv2pve.World.{json, World, write}
use hv2pve.State.Record.{MigrationState}
use hv2pve.State.Phase.{phase_in}
use hv2pve.State.Validate.Laws.{validate-IsValid}
use hv2pve.Controller.Command.{ingest_sync, register_sync}
use hv2pve.Controller.Main.{history}
use hv2pve.Controller.Work.Stored.{Written}
use hv2pve.Controller.SyncRound.{Synchronizes, Announces, Registered}
use hv2pve.Controller.SyncRound.Reach.{history-Registered}
use hv2pve.Examples.Fixtures.{state_path, ready_state, stored_world}
use hv2pve.Examples.Commands.{ready_checked, not_temporary}
use hv2pve.Json.Number.{to_int}
use hv2pve.Controller.Ingest.{new_reference}

abbrev sync_metadata : Fields
sync_metadata =
    field "migration_id" (str "m1")
      (field "sequence" (int (pos 4)) (field "reference_to" (str "rp4") end))

abbrev sync_world : World
sync_world = record (stored_world ready_state) {
  files = write "sync.json" (json (obj sync_metadata)) (stored_world ready_state).files;
}

announced : Announces (pos 3) (pos 4) "rp4" (str "m1") sync_metadata
unfolding new_reference to_int truthy value_eq find
announced = record {
  same_migration = refl;
  number = refl;
  newer = refl;
  reference_point = refl;
  named = refl;
}

ready_syncs : Synchronizes (pos 3) ready_state
unfolding find phase_in
ready_syncs = record { phase_syncs = refl; recorded = refl }

history-Registered_example :
    (last : MigrationState) × Written
      (Registered (pos 4) "rp4")
      state_path
      (history state_path
        (ingest_sync "sync.json" ∷ register_sync (pos 4) "rp4" none true true ∷ [])
        sync_world)
      last
history-Registered_example =
    history-Registered state_path "sync.json" (pos 3) (pos 4) "rp4" none sync_metadata sync_world
      ready_state
      (record {
        found = refl;
        valid = validate-IsValid ready_state ready_checked;
        current = refl;
        kept = ready_syncs;
      })
      not_temporary refl announced
