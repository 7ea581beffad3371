-- ===== src/Controller/CutoverRun/FinalSync.antt =====
-- controller/hv2pve.py: `mark-final-sync` behind the stop of the source.
use hv2pve.Prelude.{◌+◌, String, ◌≡◌, refl, true}
use hv2pve.Prelude.Int.{ℤ}
use hv2pve.Json.{str, bool, end, put, get, truthy}
use hv2pve.Json.Laws.{find-put}
use hv2pve.Exec.{◌>>=◌}
use hv2pve.State.Record.{Session, record_event}
use hv2pve.State.Phase.{cutover_in_progress}
use hv2pve.State.Validate.Laws.{IsValid}
use hv2pve.Controller.Cutover.{record_final_sync, mark_final_sync}
use hv2pve.Controller.Work.Stored.{IsTicking}
use hv2pve.Controller.Work.Saves.{noted, IsValid-noted}
use hv2pve.Controller.CutoverRun.{AllTruthy-put, Course, Course-noted}
use hv2pve.Controller.CutoverRun.Source.{Advances, stopped_keys, final_keys}

module _ (confirm : String) (vmid : ℤ) where
  -- The object with the final synchronization on record.
  abbrev synced_last : Session → Session
  synced_last s = record {
    world = record (s.world) { ticks = s.world.ticks + 1 };
    state = record (s.state) {
      cutover =
          put "final_sync_completed_at_utc" (str (s.world.clock s.world.ticks)) s.state.cutover;
      validation = put "last_sync_verified" (bool true) s.state.validation;
    };
  }

  IsValid-synced :
      (s : Session)
      → IsValid s.state
      → truthy (get "authorized" s.state.cutover) ≡ true
      → IsValid (synced_last s).state
  IsValid-synced s v a = record {
    named = v.named;
    known = v.known;
    supported = v.supported;
    placed = v.placed;
    booted = v.booted;
    authorized = λ low high. simp find-put a;
    verified = λ t. simp find-put (v.verified t);
    isolated = v.isolated;
  }

  pub mark_final_sync_succeeds :
      (s : Session)
      → IsValid s.state
      → IsTicking s.world
      → Course confirm vmid cutover_in_progress stopped_keys s.state
      → Advances (Course confirm vmid cutover_in_progress final_keys) (mark_final_sync true) s
  unfolding mark_final_sync record_final_sync record_event ◌>>=◌
  mark_final_sync_succeeds s v ticking h =
      let t = synced_last s in
      (
        noted "final_sync_verified" end t,
        rw (h.done.0) refl,
        IsValid-noted "final_sync_verified" end t (IsValid-synced s v h.done.1.0),
        Course-noted cutover_in_progress final_keys "final_sync_verified" end t (record {
          at_phase = h.at_phase;
          source_vm = h.source_vm;
          placed_at = h.placed_at;
          production = h.production;
          test = h.test;
          apart = h.apart;
          done =
              AllTruthy-put "final_sync_completed_at_utc" (str (s.world.clock s.world.ticks))
                stopped_keys s.state.cutover (ticking s.world.ticks) h.done;
        }),
        refl,
      )
