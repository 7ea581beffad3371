-- ===== src/Controller/SyncRound/Ingested.antt =====
-- controller/hv2pve.py: `ingest-sync` of newer metadata.
use hv2pve.Prelude.{String, ◌≡◌, refl, false}
use hv2pve.Prelude.Int.{ℤ}
use hv2pve.Json.{str, int, bool, Fields, end, field, put}
use hv2pve.Json.Laws.{find-put}
use hv2pve.Exec.{ok, ◌>>=◌}
use hv2pve.World.Outside.{SameFiles}
use hv2pve.State.Record.{Session, record_event}
use hv2pve.State.Validate.Laws.{IsValid}
use hv2pve.Controller.Ingest.{ingest_sync}
use hv2pve.Controller.Work.Saves.{noted, IsValid-noted}
use hv2pve.Controller.SyncRound.{Synchronizes, Announces, Awaits}
use hv2pve.Controller.Sequence.{current_sequence_recorded}

module _ (m n : ℤ) (reference input : String) (p : Fields) where
  -- The object with the synchronization pending.
  abbrev pended : Session → Session
  pended s = record s {
    state = record (s.state) {
      sync = put "pending_bundle" (str input) (
          put "pending_sequence" (int n)
            (put "pending_reference_point" (str reference) s.state.sync));
      validation = put "last_sync_verified" (bool false) s.state.validation;
    };
  }

  IsValid-pended : (s : Session) → IsValid s.state → IsValid (pended s).state
  IsValid-pended s v = record {
    named = v.named;
    known = v.known;
    supported = v.supported;
    placed = v.placed;
    booted = v.booted;
    authorized = v.authorized;
    verified = λ t. simp find-put (v.verified t);
    isolated = v.isolated;
  }

  abbrev details : Fields
  details =
      field "sequence" (int n)
        (field "reference_point" (str reference) (field "input" (str input) end))

  pub ingest_sync_succeeds :
      (s : Session)
      → IsValid s.state
      → Synchronizes m s.state
      → Announces m n reference s.state.migration_id p
      → (t : Session) × (ingest_sync input p s ≡ (ok tt, t))
        × IsValid t.state
        × Awaits m n reference t.state
        × SameFiles s.world t.world
  unfolding ingest_sync ◌>>=◌ record_event
  ingest_sync_succeeds s v h a =
      let current = current_sequence_recorded s.state m h.recorded in
      (
        noted "sync_pending" details (pended s),
        rw (a.same_migration, a.number, current, a.newer, a.reference_point, a.named) refl,
        IsValid-noted "sync_pending" details (pended s) (IsValid-pended s v),
        record {
          phase_syncs = h.phase_syncs;
          recorded = simp find-put h.recorded;
          newer = a.newer;
          pending = simp find-put refl;
          named = a.named;
        },
        record { files = refl; clock = refl; temp_name = refl },
      )
