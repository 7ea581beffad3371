-- ===== src/Controller/SyncRound/Reach.antt =====
-- A round of synchronization on the state file: the two commands, one behind the other.
use hv2pve.Prelude.{String, ◌≡◌, refl, sym, ◌∙◌, ◌≢◌, true, Option, some, [], ◌∷◌}
use hv2pve.Prelude.Int.{ℤ}
use hv2pve.Json.{obj, str, int, Fields}
use hv2pve.Exec.{ok, ◌>>=◌}
use hv2pve.World.{json, World}
use hv2pve.World.Outside.{SameFiles}
use hv2pve.State.Record.{default_sync, MigrationState, Session}
use hv2pve.State.Storage.{read_json}
use hv2pve.State.Storage.Laws.{load_json, stamped, saved, save_valid}
use hv2pve.State.Validate.Laws.{IsValid, IsValid-validate}
use hv2pve.State.Payload.{as_fields, as_dict}
use hv2pve.State.Payload.Defaults.{find-set_defaults}
use hv2pve.State.Payload.Laws.{filled, IsValid-filled, from_dict-as_dict}
use hv2pve.Controller.Command.{ingest_sync, register_sync}
use hv2pve.Controller.Main.{execute, main, history}
use hv2pve.Controller.{on_state}
use hv2pve.Controller.Work.Stored.{Written}
use hv2pve.Controller.Work.Saves.{IsValid-stamped, loaded, Leaves, saved-Leaves, saving-Leaves}
use hv2pve.Controller.Phases.Commands.{register_sync-Follows}
use hv2pve.Controller.SyncRound.{Synchronizes, Announces, Awaits, Registered}
use hv2pve.Controller.SyncRound.Ingested.{ingest_sync_succeeds}
use hv2pve.Controller.SyncRound.Committed.{register_sync_succeeds}
use hv2pve.Controller.Ingest.{cmd_ingest_sync}
use hv2pve.Controller.Stages.{cmd_register_sync}
use mathlib.Core.Path.{subst}
use hv2pve.Controller.Ingest

Synchronizes-filled : (m : ℤ) (st : MigrationState) → Synchronizes m st → Synchronizes m (filled st)
Synchronizes-filled m st h = record {
  phase_syncs = h.phase_syncs;
  recorded = find-set_defaults "sequence" (int m) default_sync st.sync h.recorded;
}

Awaits-filled :
    (m n : ℤ) (reference : String) (st : MigrationState)
    → Awaits m n reference st
    → Awaits m n reference (filled st)
Awaits-filled m n reference st h = record {
  phase_syncs = h.phase_syncs;
  recorded = find-set_defaults "sequence" (int m) default_sync st.sync h.recorded;
  newer = h.newer;
  pending =
      find-set_defaults "pending_reference_point" (str reference) default_sync st.sync h.pending;
  named = h.named;
}

Awaits-stamped :
    (m n : ℤ) (reference at : String) (st : MigrationState)
    → Awaits m n reference st
    → Awaits m n reference (stamped at st)
Awaits-stamped m n reference at st h = record {
  phase_syncs = h.phase_syncs;
  recorded = h.recorded;
  newer = h.newer;
  pending = h.pending;
  named = h.named;
}

Registered-stamped :
    (n : ℤ) (reference at : String) (st : MigrationState)
    → Registered n reference st
    → Registered n reference (stamped at st)
Registered-stamped n reference at st h = record {
  at_phase = h.at_phase;
  recorded = h.recorded;
  reference_is = h.reference_is;
  none_pending = h.none_pending;
  verified = h.verified;
}

module _ (path : String) (m n : ℤ) (reference : String) where
  ingest_runs :
      (input : String) (p : Fields) (w : World) (st : MigrationState) (t : Session)
      → Written (Synchronizes m) path w st
      → w.files input ≡ some (json (obj p))
      → hv2pve.Controller.Ingest.ingest_sync input p (loaded w st) ≡ (ok tt, t)
      → IsValid t.state
      → execute path (ingest_sync input) w ≡ (ok tt, (saved path t).world)
  unfolding execute cmd_ingest_sync on_state ◌>>=◌
  ingest_runs input p w st t h given e v =
      let read = load_json path w (as_dict st) h.found ∙ from_dict-as_dict st w h.valid h.current in
      let valid =
        IsValid-validate (stamped (t.world.clock t.world.ticks) t.state)
          (IsValid-stamped (t.world.clock t.world.ticks) t.state v) in
      rw (read, given, read_json, as_fields, e, save_valid path t valid) refl

  ingest-Leaves :
      (input : String) (p : Fields) (w : World) (st : MigrationState)
      → Written (Synchronizes m) path w st
      → w.temp_name path ≢ path
      → w.files input ≡ some (json (obj p))
      → Announces m n reference st.migration_id p
      → Leaves (Awaits m n reference) path w (execute path (ingest_sync input) w).1
  ingest-Leaves input p w st h apart given a =
      let (t, e, v, q, same) =
        ingest_sync_succeeds m n reference input p (loaded w st) (IsValid-filled st h.valid)
          (Synchronizes-filled m st h.kept) a in
      let same' : SameFiles w t.world = record {
        files = same.files;
        clock = same.clock;
        temp_name = same.temp_name;
      } in
      subst (λ out. Leaves (Awaits m n reference) path w out.1)
        (sym (ingest_runs input p w st t h given e v))
        (saved-Leaves (Awaits m n reference) path w t same' apart (Awaits-stamped m n reference) v
          q)

  register-Leaves :
      (bundle : Option String) (w : World) (st : MigrationState)
      → Written (Awaits m n reference) path w st
      → w.temp_name path ≢ path
      → Leaves
          (Registered n reference)
          path
          w
          (execute path (register_sync n reference bundle true true) w).1
  unfolding execute cmd_register_sync
  register-Leaves bundle w st h apart =
      saving-Leaves (Awaits m n reference) (Registered n reference) path _ w st h apart
        (λ start. register_sync-Follows start w n reference bundle true true)
        (Registered-stamped n reference)
        (register_sync_succeeds m n reference bundle (loaded w st) (IsValid-filled st h.valid)
          (Awaits-filled m n reference st h.kept))

-- From a state file in the phase TESTED, SYNCING or CUTOVER_READY, `ingest-sync` of metadata for
-- this migration with a newer number and a reference point, and then `register-sync` of the two as
-- verified and ready, leave a well-formed state in CUTOVER_READY with this number and reference
-- point on record, none pending and the synchronization verified. The metadata is a JSON object in
-- a file; the temporary file is not the state file.
pub history-Registered :
    (path input : String) (m n : ℤ) (reference : String) (bundle : Option String) (p : Fields)
    (w : World) (st : MigrationState)
    → Written (Synchronizes m) path w st
    → w.temp_name path ≢ path
    → w.files input ≡ some (json (obj p))
    → Announces m n reference st.migration_id p
    → (last : MigrationState) × Written
        (Registered n reference)
        path
        (history path (ingest_sync input ∷ register_sync n reference bundle true true ∷ []) w)
        last
unfolding history main
history-Registered path input m n reference bundle p w st h apart given a =
    let (st1, h1, apart1) = ingest-Leaves path m n reference input p w st h apart given a in
    let (st2, h2, apart2) = register-Leaves path m n reference bundle _ st1 h1 apart1 in (st2, h2)
