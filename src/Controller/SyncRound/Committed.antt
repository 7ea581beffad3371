-- ===== src/Controller/SyncRound/Committed.antt =====
-- controller/hv2pve.py: `register-sync` of the pending synchronization.
use hv2pve.Prelude.{
  ◌+◌, ◌≤◌, String, ◌≡◌, refl, ap, ◌∙◌, true, false, Option, some, [], ◌∷◌, arith, eq_iff, str_eq,
}
use hv2pve.Prelude.Int.{ℤ}
use hv2pve.Json.{Value, str, int, bool, null, Fields, end, field, find, put, pop, value_eq}
use hv2pve.Json.Laws.{find-put, find-pop}
use hv2pve.State.Record.{MigrationState, Session, record_event}
use hv2pve.State.Phase.{Phase, tested, syncing, cutover_ready, rank, phase_in, allowed_transitions}
use hv2pve.State.Transition.Laws.{PhaseSet, entered, set_phase_allowed}
use hv2pve.State.Validate.Laws.{IsValid}
use hv2pve.Controller.Stages.{optional, finish_sync, commit_sync, register_sync}
use hv2pve.Controller.SyncRound.{Awaits, Registered}
use hv2pve.Controller.Sequence.{current_sequence_recorded}
use hv2pve.Controller.Work.Saves.{noted, IsValid-noted}
use hv2pve.Exec.{ok, ◌>>=◌}

sync_edges :
    (p : Phase)
    → phase_in p (tested ∷ syncing ∷ cutover_ready ∷ []) ≡ true
    → (phase_in syncing (allowed_transitions p) ≡ true) × (4 ≤ rank p) × (rank p ≤ 6)
unfolding phase_in allowed_transitions rank
sync_edges tested h = (refl, omega arith, omega arith)
sync_edges syncing h = (refl, omega arith, omega arith)
sync_edges cutover_ready h = (refl, omega arith, omega arith)
sync_edges p h = absurd (ground (arith, h))

ready_edge : (p : Phase) → p ≡ syncing → phase_in cutover_ready (allowed_transitions p) ≡ true
unfolding phase_in allowed_transitions
ready_edge p e = rw e refl

value_eq-str : (s : String) → value_eq (str s) (str s) ≡ true
unfolding value_eq
value_eq-str s = ground (arith, eq_iff s s)

module _ (m n : ℤ) (reference : String) (bundle : Option String) where
  -- The object with the synchronization committed.
  abbrev committed : Session → Session
  committed s = record {
    world = record (s.world) { ticks = s.world.ticks + 1 };
    state = record (s.state) {
      sync = put "last_bundle" (optional bundle) (
          put "last_successful_sync_utc" (str (s.world.clock s.world.ticks)) (
            pop "pending_bundle" (
              pop "pending_sequence" (
                put "pending_reference_point" null (
                  put "authoritative_reference_point" (str reference)
                    (put "sequence" (int n) s.state.sync))))));
      validation = put "last_sync_verified" (bool true) s.state.validation;
    };
  }

  abbrev details : Fields
  details = field "sequence" (int n) (field "reference_point" (str reference) end)

  IsValid-committed :
      (s : Session)
      → IsValid s.state
      → 4 ≤ rank s.state.phase
      → rank s.state.phase ≤ 6
      → IsValid (entered syncing (committed s))
  unfolding rank
  IsValid-committed s v low high = record {
    named = v.named;
    known = omega arith;
    supported = v.supported;
    placed = λ a b. v.placed (omega arith) (omega arith);
    booted = λ a b. v.booted low (omega arith);
    authorized = λ a b. absurd (omega arith);
    verified = λ t. simp find-put (v.verified t);
    isolated = v.isolated;
  }

  IsValid-ready :
      (s : Session) → IsValid s.state → s.state.phase ≡ syncing → IsValid (entered cutover_ready s)
  unfolding rank
  IsValid-ready s v e =
      let at : rank s.state.phase ≡ 5 = rw e refl in
      record {
        named = v.named;
        known = omega arith;
        supported = v.supported;
        placed = λ a b. v.placed (omega (arith, at)) (omega (arith, at));
        booted = λ a b. v.booted (omega (arith, at)) (omega (arith, at));
        authorized = λ a b. absurd (omega arith);
        verified = v.verified;
        isolated = v.isolated;
      }

  -- What is on record behind the commit, whatever the phase.
  record Recorded (st : MigrationState) : Type 0 where
    recorded : find "sequence" st.sync ≡ some (int n)
    reference_is : find "authoritative_reference_point" st.sync ≡ some (str reference)
    none_pending : find "pending_reference_point" st.sync ≡ some null
    verified : find "last_sync_verified" st.validation ≡ some (bool true)

  committed-Recorded : (s : Session) → Recorded (committed s).state
  committed-Recorded s =
      let base = put "pending_reference_point" null (
        put "authoritative_reference_point" (str reference)
          (put "sequence" (int n) s.state.sync)) in
      let popped : (k : String)
          → str_eq "pending_sequence" k ≡ false
          → str_eq "pending_bundle" k ≡ false
          → find k (pop "pending_bundle" (pop "pending_sequence" base)) ≡ find k base =
        λ k e f.
          find-pop k "pending_bundle" (pop "pending_sequence" base) f
          ∙ find-pop k "pending_sequence" base e in
      record {
        recorded = simp find-put (popped "sequence" refl refl ∙ simp find-put refl);
        reference_is =
            simp find-put (popped "authoritative_reference_point" refl refl ∙ simp find-put refl);
        none_pending =
            simp find-put (popped "pending_reference_point" refl refl ∙ simp find-put refl);
        verified = simp find-put refl;
      }

  Recorded-entered :
      (phase : Phase) (reason : Value) (s t : Session)
      → PhaseSet phase reason false s (ok tt, t)
      → Recorded s.state
      → Recorded t.state
  Recorded-entered phase reason s t p h = record {
    recorded = ap (λ st. find "sequence" st.sync) p.0 ∙ h.recorded;
    reference_is = ap (λ st. find "authoritative_reference_point" st.sync) p.0 ∙ h.reference_is;
    none_pending = ap (λ st. find "pending_reference_point" st.sync) p.0 ∙ h.none_pending;
    verified = ap (λ st. find "last_sync_verified" st.validation) p.0 ∙ h.verified;
  }

  Recorded-noted :
      (s : Session) → Recorded s.state → Recorded (noted "sync_committed" details s).state
  Recorded-noted s h = record {
    recorded = h.recorded;
    reference_is = h.reference_is;
    none_pending = h.none_pending;
    verified = h.verified;
  }

  pub register_sync_succeeds :
      (s : Session)
      → IsValid s.state
      → Awaits m n reference s.state
      → (t : Session) × (register_sync n reference bundle true true s ≡ (ok tt, t))
        × IsValid t.state
        × Registered n reference t.state
  unfolding register_sync commit_sync finish_sync record_event ◌>>=◌
  register_sync_succeeds s v h =
      let (edge, low, high) = sync_edges s.state.phase h.phase_syncs in
      let reason = str "sync sequence registered" in
      let (t, set, facts) =
        set_phase_allowed syncing reason false (committed s) edge
          (IsValid-committed s v low high) in
      let t' = noted "sync_committed" details t in
      let syncs : t.state.phase ≡ syncing = ap (λ st. st.phase) facts.0 in
      let ready = str "latest sync verified and selected for cutover" in
      let (u, set', facts') =
        set_phase_allowed cutover_ready ready false t' (ready_edge t.state.phase syncs)
          (IsValid-ready t' (IsValid-noted "sync_committed" details t facts.1) syncs) in
      let kept = Recorded-entered cutover_ready ready t' u facts' (
        Recorded-noted t
          (Recorded-entered syncing reason (committed s) t facts (committed-Recorded s))) in
      (
        u,
        rw
            (
              current_sequence_recorded s.state m h.recorded,
              h.newer,
              h.pending,
              h.named,
              value_eq-str reference,
              set,
              set',
            )
            refl,
        facts'.1,
        record {
          at_phase = ap (λ st. st.phase) facts'.0;
          recorded = kept.recorded;
          reference_is = kept.reference_is;
          none_pending = kept.none_pending;
          verified = kept.verified;
        },
      )
