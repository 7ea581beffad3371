-- ===== src/Controller/Rollback/End.antt =====
-- controller/hv2pve.py: `mark-rolled-back` and `close` behind a rollback.
use hv2pve.Prelude.{◌≤◌, String, ◌≡◌, refl, ap, ◌∙◌, true, false, [], ◌∷◌, arith}
use hv2pve.Json.{str, Fields, end, find, put}
use hv2pve.Json.Laws.{find-put}
use hv2pve.Exec.{ok, ◌>>=◌}
use hv2pve.State.Record.{Session}
use hv2pve.State.Phase.{
  Phase, cutover_complete, rollback_in_progress, rolled_back, closed, failed, rank, phase_eq,
  phase_in, allowed_transitions,
}
use hv2pve.State.Transition.Laws.{entered, set_phase_allowed}
use hv2pve.State.Validate.Laws.{IsValid}
use hv2pve.Controller.Cutover.{mark_rolled_back, close}
use hv2pve.Controller.Work.Saves.{noted, IsValid-noted}
use hv2pve.Controller.Rollback.{
  RollsBack, SourceRuns, RollsBack-noted, RollsBack-entered, confirmed-true,
}

-- The tests of the two commands on the phase, and their edges of the table.
rolling_back :
    (p : Phase)
    → p ≡ rollback_in_progress
    → (phase_eq p rollback_in_progress ≡ true)
      × (phase_in rolled_back (allowed_transitions p) ≡ true)
unfolding phase_eq phase_in allowed_transitions
rolling_back p e = (rw e refl, rw e refl)

closable :
    (p : Phase)
    → p ≡ rolled_back
    → (phase_in p (cutover_complete ∷ rolled_back ∷ failed ∷ []) ≡ true)
      × (phase_in closed (allowed_transitions p) ≡ true)
unfolding phase_eq phase_in allowed_transitions
closable p e = (rw e refl, rw e refl)

module _ (confirm : String) (s : Session) where
  -- A later phase asks for nothing of the destination.
  pub IsValid-late :
      (phase : Phase) (source : Fields)
      → IsValid s.state
      → 10 ≤ rank phase
      → rank phase ≤ 12
      → IsValid (entered phase (record s { state = record (s.state) { source = source } }))
  IsValid-late phase source v late known = record {
    named = v.named;
    known = known;
    supported = v.supported;
    placed = λ a b. absurd (omega arith);
    booted = λ a b. absurd (omega arith);
    authorized = λ a b. absurd (omega arith);
    verified = v.verified;
    isolated = v.isolated;
  }

  -- The object with its source on record as running.
  abbrev source_on : Session
  source_on = record s {
    state = record (s.state) { source = put "state" (str "Running") s.state.source };
  }

  pub mark_rolled_back_succeeds :
      IsValid s.state
      → RollsBack confirm rollback_in_progress s.state
      → (t : Session) × (mark_rolled_back confirm s ≡ (ok tt, t))
        × IsValid t.state
        × (RollsBack confirm rolled_back t.state × SourceRuns t.state)
  unfolding mark_rolled_back ◌>>=◌ rank
  mark_rolled_back_succeeds v h =
      let (may, edge) = rolling_back s.state.phase h.at_phase in
      let reason = str "operator confirmed Hyper-V source restored" in
      let (t, set, facts) =
        set_phase_allowed rolled_back reason false source_on edge
          (IsValid-late rolled_back source_on.state.source v (omega arith) (omega arith)) in
      (
        noted "rollback_complete" end t,
        rw (may, confirmed-true confirm s.state h.source_vm, set) refl,
        IsValid-noted "rollback_complete" end t facts.1,
        (
          RollsBack-noted "rollback_complete" end t (
              RollsBack-entered confirm rolled_back reason source_on t facts
                (simp find-put h.source_vm) h.off),
          ap (λ st. find "state" st.source) facts.0 ∙ simp find-put refl,
        ),
      )

  pub close_succeeds :
      IsValid s.state
      → RollsBack confirm rolled_back s.state
      → SourceRuns s.state
      → (t : Session) × (close confirm s ≡ (ok tt, t))
        × IsValid t.state
        × (RollsBack confirm closed t.state × SourceRuns t.state)
  unfolding close ◌>>=◌ rank
  close_succeeds v h runs =
      let (may, edge) = closable s.state.phase h.at_phase in
      let reason = str "operator closed migration" in
      let (t, set, facts) =
        set_phase_allowed closed reason false s edge
          (IsValid-late closed s.state.source v (omega arith) (omega arith)) in
      (
        noted "migration_closed" end t,
        rw (may, confirmed-true confirm s.state h.source_vm, set) refl,
        IsValid-noted "migration_closed" end t facts.1,
        (
          RollsBack-noted "migration_closed" end t
              (RollsBack-entered confirm closed reason s t facts h.source_vm h.off),
          ap (λ st. find "state" st.source) facts.0 ∙ runs,
        ),
      )
