-- ===== src/Controller/CutoverRun/Source.antt =====
-- controller/hv2pve.py: `authorize-cutover` and then `mark-source-stopped`.
use hv2pve.Prelude.{◌+◌, String, ◌≡◌, refl, true, false, List, [], ◌∷◌, arith}
use hv2pve.Prelude.Int.{ℤ}
use hv2pve.Json.{str, bool, Fields, end, field, put, get, truthy}
use hv2pve.Json.Laws.{find-put}
use hv2pve.Exec.{ok, Exec, Done, ◌>>=◌}
use hv2pve.State.Record.{MigrationState, Session, record_event}
use hv2pve.State.Phase.{
  Phase, cutover_ready, cutover_in_progress, rank, phase_eq, phase_in, allowed_transitions,
}
use hv2pve.State.Transition.Laws.{entered, set_phase_allowed}
use hv2pve.State.Validate.Laws.{IsValid}
use hv2pve.Controller.Cutover.{authorize_cutover, record_source_stop, mark_source_stopped}
use hv2pve.Controller.Work.Stored.{IsTicking}
use hv2pve.Controller.Work.Saves.{noted, IsValid-noted}
use hv2pve.Controller.Rollback.{confirmed-true}
use hv2pve.Controller.CutoverRun.{
  AllTruthy-put, Course, Cleared, Cleared-gate, Course-noted, Course-entered,
}

-- A command that returns, and of the world has only looked at the clock.
abbrev pub Advances : (MigrationState → Type 0) → Exec Session Done → Session → Type 0
Advances Q body s =
    (t : Session) × (body s ≡ (ok tt, t))
    × IsValid t.state
    × Q t.state
    × (t.world ≡ record (s.world) { ticks = t.world.ticks })

-- The keys that each step adds.
abbrev pub authorized_keys : List String
authorized_keys = "authorized" ∷ []

abbrev pub stopped_keys : List String
stopped_keys = "source_stopped_at_utc" ∷ authorized_keys

abbrev pub final_keys : List String
final_keys = "final_sync_completed_at_utc" ∷ stopped_keys

pub in_progress : (p : Phase) → p ≡ cutover_in_progress → phase_eq p cutover_in_progress ≡ true
unfolding phase_eq
in_progress p e = rw e refl

authorize_edge :
    (p : Phase)
    → p ≡ cutover_ready
    → (phase_in cutover_in_progress (allowed_transitions p) ≡ true) × (rank p ≡ 6)
unfolding phase_in allowed_transitions rank
authorize_edge p e = (rw e refl, rw e refl)

module _ (confirm : String) (vmid : ℤ) where
  -- The object with the cutover authorized.
  abbrev authorized_now : Session → Session
  authorized_now s = record {
    world = record (s.world) { ticks = s.world.ticks + 1 };
    state = record (s.state) {
      cutover =
          put "authorized_at_utc" (str (s.world.clock s.world.ticks))
            (put "authorized" (bool true) s.state.cutover);
    };
  }

  abbrev who : Session → Fields
  who s = field "source_vm" (get "vm_name" s.state.source) end

  IsValid-authorized :
      (s : Session)
      → IsValid s.state
      → rank s.state.phase ≡ 6
      → IsValid
          (entered cutover_in_progress (noted "cutover_authorized" (who s) (authorized_now s)))
  unfolding rank truthy
  IsValid-authorized s v e = record {
    named = v.named;
    known = omega arith;
    supported = v.supported;
    placed = λ a b. v.placed (omega arith) (omega arith);
    booted = λ a b. v.booted (omega arith) (omega arith);
    authorized = λ a b. simp find-put refl;
    verified = v.verified;
    isolated = v.isolated;
  }

  Course-authorized :
      (s : Session)
      → Course confirm vmid cutover_ready [] s.state
      → Course confirm vmid cutover_ready authorized_keys (authorized_now s).state
  unfolding truthy
  Course-authorized s h = record {
    at_phase = h.at_phase;
    source_vm = h.source_vm;
    placed_at = h.placed_at;
    production = h.production;
    test = h.test;
    apart = h.apart;
    done = (simp find-put refl, tt);
  }

  pub authorize_succeeds :
      (s : Session)
      → IsValid s.state
      → Course confirm vmid cutover_ready [] s.state
      → Cleared s.state
      → Advances
          (Course confirm vmid cutover_in_progress authorized_keys)
          (authorize_cutover confirm)
          s
  unfolding authorize_cutover record_event ◌>>=◌
  authorize_succeeds s v h c =
      let (edge, at) = authorize_edge s.state.phase h.at_phase in
      let reason = str "operator authorized cutover" in
      let s' = noted "cutover_authorized" (who s) (authorized_now s) in
      let (t, set, facts) =
        set_phase_allowed cutover_in_progress reason false s' edge (IsValid-authorized s v at) in
      (
        t,
        rw (Cleared-gate s.state c, confirmed-true confirm s.state h.source_vm, set) refl,
        facts.1,
        Course-entered cutover_ready cutover_in_progress authorized_keys reason s' t facts (
            Course-noted cutover_ready authorized_keys "cutover_authorized" (who s)
              (authorized_now s) (Course-authorized s h)),
        facts.3,
      )

  -- The object with the source on record as off.
  abbrev source_off : Session → Session
  source_off s = record {
    world = record (s.world) { ticks = s.world.ticks + 1 };
    state = record (s.state) {
      cutover = put "source_stopped_at_utc" (str (s.world.clock s.world.ticks)) s.state.cutover;
      source = put "state" (str "Off") s.state.source;
    };
  }

  IsValid-off :
      (s : Session)
      → IsValid s.state
      → truthy (get "authorized" s.state.cutover) ≡ true
      → IsValid (source_off s).state
  IsValid-off s v a = record {
    named = v.named;
    known = v.known;
    supported = v.supported;
    placed = v.placed;
    booted = v.booted;
    authorized = λ low high. simp find-put a;
    verified = v.verified;
    isolated = v.isolated;
  }

  pub mark_source_stopped_succeeds :
      (s : Session)
      → IsValid s.state
      → IsTicking s.world
      → Course confirm vmid cutover_in_progress authorized_keys s.state
      → Advances
          (Course confirm vmid cutover_in_progress stopped_keys)
          (mark_source_stopped confirm)
          s
  unfolding mark_source_stopped record_source_stop record_event ◌>>=◌
  mark_source_stopped_succeeds s v ticking h =
      let t = source_off s in
      (
        noted "source_stopped_for_cutover" end t,
        rw
            (
              in_progress s.state.phase h.at_phase,
              h.done.0,
              confirmed-true confirm s.state h.source_vm,
            )
            refl,
        IsValid-noted "source_stopped_for_cutover" end t (IsValid-off s v h.done.0),
        Course-noted cutover_in_progress stopped_keys "source_stopped_for_cutover" end t (record {
          at_phase = h.at_phase;
          source_vm = simp find-put h.source_vm;
          placed_at = h.placed_at;
          production = h.production;
          test = h.test;
          apart = h.apart;
          done =
              AllTruthy-put "source_stopped_at_utc" (str (s.world.clock s.world.ticks))
                authorized_keys s.state.cutover (ticking s.world.ticks) h.done;
        }),
        refl,
      )
