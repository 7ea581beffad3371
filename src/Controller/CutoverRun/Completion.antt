-- ===== src/Controller/CutoverRun/Completion.antt =====
-- controller/hv2pve.py: `mark-cutover-complete` and `close` behind a cutover.
use hv2pve.Prelude.{String, ◌≡◌, refl, ap, ◌∙◌, true, false, [], ◌∷◌, arith}
use hv2pve.Prelude.Int.{ℤ}
use hv2pve.Json.{str, bool, end, put, get, truthy}
use hv2pve.Json.Laws.{find-put}
use hv2pve.Exec.{ok, ◌>>=◌}
use hv2pve.State.Record.{MigrationState, Session, record_event}
use hv2pve.State.Phase.{
  Phase, cutover_in_progress, cutover_complete, rolled_back, closed, failed, rank, phase_eq,
  phase_in, allowed_transitions,
}
use hv2pve.State.Transition.Laws.{entered, set_phase_allowed}
use hv2pve.State.Validate.Laws.{IsValid}
use hv2pve.Controller.Cutover.{mark_cutover_complete, close}
use hv2pve.Controller.Rollback.{confirmed-true}
use hv2pve.Controller.Rollback.End.{IsValid-late}
use hv2pve.Controller.Work.Saves.{noted, IsValid-noted}
use hv2pve.Controller.CutoverRun.{Course, Course-noted, Course-entered}
use hv2pve.Controller.CutoverRun.Source.{authorized_keys}
use hv2pve.Controller.CutoverRun.Activation.{Powered}

complete_edge :
    (p : Phase)
    → p ≡ cutover_in_progress
    → (phase_in cutover_complete (allowed_transitions p) ≡ true) × (rank p ≡ 7)
unfolding phase_in allowed_transitions rank
complete_edge p e = (rw e refl, rw e refl)

close_edge :
    (p : Phase)
    → p ≡ cutover_complete
    → (phase_in p (cutover_complete ∷ rolled_back ∷ failed ∷ []) ≡ true)
      × (phase_in closed (allowed_transitions p) ≡ true)
unfolding phase_eq phase_in allowed_transitions
close_edge p e = (rw e refl, rw e refl)

-- The end of a cutover: closed, with the destination on record as running.
pub record Ended (st : MigrationState) : Type 0 where
  pub at_phase : st.phase ≡ closed
  pub powered : Powered st

module _ (confirm : String) (vmid : ℤ) where
  -- The object with the three checks on record.
  abbrev checked : Session → Session
  checked s = record s {
    state = record (s.state) {
      validation = put "application_verified" (bool true) (
          put "guest_boot_verified" (bool true)
            (put "network_identity_verified" (bool true) s.state.validation));
    };
  }

  IsValid-checked :
      (s : Session)
      → IsValid s.state
      → rank s.state.phase ≡ 7
      → IsValid (entered cutover_complete (checked s))
  unfolding rank
  IsValid-checked s v e = record {
    named = v.named;
    known = omega arith;
    supported = v.supported;
    placed = λ a b. v.placed (omega arith) (omega arith);
    booted = λ a b. v.booted (omega arith) (omega arith);
    authorized = λ a b. v.authorized (omega arith) (omega arith);
    verified = λ t. simp find-put (v.verified t);
    isolated = v.isolated;
  }

  Course-checked :
      (s : Session)
      → Course confirm vmid cutover_in_progress authorized_keys s.state
      → Course confirm vmid cutover_in_progress authorized_keys (checked s).state
  Course-checked s h = record {
    at_phase = h.at_phase;
    source_vm = h.source_vm;
    placed_at = h.placed_at;
    production = h.production;
    test = h.test;
    apart = h.apart;
    done = h.done;
  }

  pub mark_cutover_complete_succeeds :
      (s : Session)
      → IsValid s.state
      → Course confirm vmid cutover_in_progress authorized_keys s.state
      → Powered s.state
      → (t : Session) × (mark_cutover_complete true true true s ≡ (ok tt, t))
        × IsValid t.state
        × (Course confirm vmid cutover_complete authorized_keys t.state × Powered t.state)
  unfolding mark_cutover_complete record_event ◌>>=◌
  mark_cutover_complete_succeeds s v h on =
      let (edge, at) = complete_edge s.state.phase h.at_phase in
      let reason = str "production destination validation passed" in
      let (t, set, facts) =
        set_phase_allowed cutover_complete reason false (checked s) edge (IsValid-checked s v at) in
      (
        noted "cutover_complete" end t,
        rw (h.done.0, on, set) refl,
        IsValid-noted "cutover_complete" end t facts.1,
        (
          Course-noted cutover_complete authorized_keys "cutover_complete" end t (
              Course-entered cutover_in_progress cutover_complete authorized_keys reason (checked s)
                t facts (Course-checked s h)),
          ap (λ st. truthy (get "powered_on" st.destination)) facts.0 ∙ on,
        ),
      )

  pub close_after_cutover :
      (s : Session)
      → IsValid s.state
      → Course confirm vmid cutover_complete authorized_keys s.state
      → Powered s.state
      → (t : Session) × (close confirm s ≡ (ok tt, t)) × IsValid t.state × Ended t.state
  unfolding close record_event rank ◌>>=◌
  close_after_cutover s v h on =
      let (may, edge) = close_edge s.state.phase h.at_phase in
      let reason = str "operator closed migration" in
      let (t, set, facts) =
        set_phase_allowed closed reason false s edge
          (IsValid-late confirm s closed s.state.source v (omega arith) (omega arith)) in
      (
        noted "migration_closed" end t,
        rw (may, confirmed-true confirm s.state h.source_vm, set) refl,
        IsValid-noted "migration_closed" end t facts.1,
        record {
          at_phase = ap (λ st. st.phase) facts.0;
          powered = ap (λ st. truthy (get "powered_on" st.destination)) facts.0 ∙ on;
        },
      )
