-- ===== src/Controller/Sequence.antt =====
-- controller/hv2pve.py: the number of the last synchronization in the state object.
pub mod Commands
pub mod Reach
use hv2pve.Prelude.{
  zero, suc, String, ◌≡◌, refl, sym, ap, ◌∙◌, Bool, false, Option, some, arith, str_eq,
}
use hv2pve.Prelude.Int.{ℤ, pos, negsuc, ◌≤ℤ◌, leb_ℤ}
use hv2pve.Json.{Value, int, Fields, find, truthy}
use hv2pve.Json.Laws.{find-put, find-pop}
use hv2pve.Json.Number.{to_int}
use hv2pve.Exec.{ok, Exec}
use hv2pve.Exec.Keeps.{
  Keeps, Keeps-raise_if, Keeps-require, Keeps-bind, Keeps-lift_bind, Keeps-raise_if_bind,
  keeps_rules,
}
use hv2pve.World.{World}
use hv2pve.World.Outside.{SameFiles, utc_now-SameFiles}
use hv2pve.Exec.Laws.{ok_inj}
use hv2pve.State.Phase.{Phase}
use hv2pve.State.Record.{MigrationState, Session, in_world, set_state, record_event}
use hv2pve.State.Transition.{set_phase}
use hv2pve.Controller.{set_destination, set_source, set_sync, pop_sync, set_validation, set_cutover}
use hv2pve.Controller.Ingest.{current_sequence}
use hv2pve.Controller.Stages.{finish_sync, commit_sync, register_sync}
use hv2pve.Controller.Work.{
  Works, in_world-Works, the_state-Works, set_state-Works, record_event-Works, set_phase-Works,
}
use mathlib.Core.Path.{subst}

-- The recorded number, which is at least another.
pub record AtLeast (n : ℤ) (st : MigrationState) : Type 0 where
  pub current : ℤ
  pub recorded : find "sequence" st.sync ≡ some (int current)
  pub reached : n ≤ℤ current

pub current_sequence_recorded :
    (st : MigrationState) (m : ℤ)
    → find "sequence" st.sync ≡ some (int m)
    → current_sequence st ≡ ok m
unfolding current_sequence to_int truthy
current_sequence_recorded st (pos zero) h = rw h refl
current_sequence_recorded st (pos (suc k)) h = rw h (ground arith)
current_sequence_recorded st (negsuc k) h = rw h refl

above : (n m k : ℤ) → n ≤ℤ m → leb_ℤ k m ≡ false → n ≤ℤ k
above n m k h newer = ground arith

module _ (n : ℤ) (w₀ : World) where
  abbrev pub Counts : Session → Type 0
  Counts s = Works (AtLeast n) w₀ s

  pub set_state-Counts :
      (f : MigrationState → MigrationState)
      → ((st : MigrationState) → (f st).sync ≡ st.sync)
      → Keeps Counts (set_state f)
  set_state-Counts f e = set_state-Works (AtLeast n) w₀ f (λ st h. record {
    current = h.current;
    recorded = ap (find "sequence") (e st) ∙ h.recorded;
    reached = h.reached;
  })

  pub in_world-Counts :
      {A : Type 0} (m : Exec World A) → Keeps (SameFiles w₀) m → Keeps Counts (in_world m)
  in_world-Counts m k = in_world-Works (AtLeast n) w₀ m k

  pub set_destination-Counts : (k : String) (v : Value) → Keeps Counts (set_destination k v)
  set_destination-Counts k v = set_state-Counts _ (λ st. refl)

  pub set_source-Counts : (k : String) (v : Value) → Keeps Counts (set_source k v)
  set_source-Counts k v = set_state-Counts _ (λ st. refl)

  pub set_validation-Counts : (k : String) (v : Value) → Keeps Counts (set_validation k v)
  set_validation-Counts k v = set_state-Counts _ (λ st. refl)

  pub set_cutover-Counts : (k : String) (v : Value) → Keeps Counts (set_cutover k v)
  set_cutover-Counts k v = set_state-Counts _ (λ st. refl)

  pub record_event-Counts :
      (event : String) (details : Fields) → Keeps Counts (record_event event details)
  record_event-Counts event details =
      record_event-Works (AtLeast n) w₀ event details (λ st history updated h. record {
        current = h.current;
        recorded = h.recorded;
        reached = h.reached;
      })

  pub set_phase-Counts :
      (phase : Phase) (reason : Value) (force : Bool) → Keeps Counts (set_phase phase reason force)
  set_phase-Counts phase reason force =
      set_phase-Works (AtLeast n) w₀ phase reason force (λ st phase history updated h. record {
        current = h.current;
        recorded = h.recorded;
        reached = h.reached;
      })

  set_sync-Counts :
      (k : String) (v : Value) → str_eq k "sequence" ≡ false → Keeps Counts (set_sync k v)
  set_sync-Counts k v e = set_state-Works (AtLeast n) w₀ _ (λ st h. record {
    current = h.current;
    recorded = simp (find-put, e) (h.recorded);
    reached = h.reached;
  })

  pop_sync-Counts : (k : String) → str_eq k "sequence" ≡ false → Keeps Counts (pop_sync k)
  pop_sync-Counts k e = set_state-Works (AtLeast n) w₀ _ (λ st h. record {
    current = h.current;
    recorded = find-pop "sequence" k st.sync e ∙ h.recorded;
    reached = h.reached;
  })

  -- A write of a later number.
  pub set_sequence-Counts : (m : ℤ) → n ≤ℤ m → Keeps Counts (set_sync "sequence" (int m))
  set_sequence-Counts m le =
      set_state-Works (AtLeast n) w₀ _
        (λ st h. record { current = m; recorded = simp find-put refl; reached = le })

  pub authoritative_reference_point-Counts :
      (v : Value) → Keeps Counts (set_sync "authoritative_reference_point" v)
  authoritative_reference_point-Counts v = set_sync-Counts "authoritative_reference_point" v refl

  pub pending_reference_point-Counts :
      (v : Value) → Keeps Counts (set_sync "pending_reference_point" v)
  pending_reference_point-Counts v = set_sync-Counts "pending_reference_point" v refl

  pub pending_sequence-Counts : (v : Value) → Keeps Counts (set_sync "pending_sequence" v)
  pending_sequence-Counts v = set_sync-Counts "pending_sequence" v refl

  pub pending_bundle-Counts : (v : Value) → Keeps Counts (set_sync "pending_bundle" v)
  pending_bundle-Counts v = set_sync-Counts "pending_bundle" v refl

  pub last_successful_sync_utc-Counts :
      (v : Value) → Keeps Counts (set_sync "last_successful_sync_utc" v)
  last_successful_sync_utc-Counts v = set_sync-Counts "last_successful_sync_utc" v refl

  pub last_bundle-Counts : (v : Value) → Keeps Counts (set_sync "last_bundle" v)
  last_bundle-Counts v = set_sync-Counts "last_bundle" v refl

  pub pop_sequence-Counts : Keeps Counts (pop_sync "pending_sequence")
  pop_sequence-Counts = pop_sync-Counts "pending_sequence" refl

  pub pop_bundle-Counts : Keeps Counts (pop_sync "pending_bundle")
  pop_bundle-Counts = pop_sync-Counts "pending_bundle" refl

  pub ruleset counts_rules = (
    keeps_rules, in_world-Counts, utc_now-SameFiles, set_destination-Counts, set_source-Counts,
    set_validation-Counts, set_cutover-Counts, record_event-Counts, set_phase-Counts,
    authoritative_reference_point-Counts, pending_reference_point-Counts, pending_sequence-Counts,
    pending_bundle-Counts, last_successful_sync_utc-Counts, last_bundle-Counts, pop_sequence-Counts,
    pop_bundle-Counts,
  )

  -- `register-sync` goes on only with a number above the recorded one.
  commit_sync-Counts :
      (sequence : ℤ) (reference : String) (bundle : Option String) (ready : Bool)
      → n ≤ℤ sequence
      → Keeps Counts (commit_sync sequence reference bundle ready)
  unfolding commit_sync finish_sync
  commit_sync-Counts sequence reference bundle ready le =
      Keeps-bind _ _ (set_sequence-Counts sequence le) (λ u. search counts_rules depth 40)

  pub register_sync-Counts :
      (sequence : ℤ) (reference : String) (bundle : Option String) (verified ready : Bool)
      → Keeps Counts (register_sync sequence reference bundle verified ready)
  unfolding register_sync
  register_sync-Counts sequence reference bundle verified ready =
      the_state-Works (AtLeast n) w₀ _ λ st h. Keeps-lift_bind (current_sequence st) _ λ current e.
        Keeps-raise_if_bind (leb_ℤ sequence current) _ _ λ newer.
          let seen = current_sequence_recorded st h.current h.recorded in
          let same : current ≡ h.current = ok_inj current h.current (sym e ∙ seen) in
          let le : n ≤ℤ sequence =
            above n h.current sequence h.reached
              (subst (λ c. leb_ℤ sequence c ≡ false) same newer) in
          Keeps-bind _ _ (Keeps-raise_if _ _) λ u.
            Keeps-bind _ _ (Keeps-require _ _)
              λ x. commit_sync-Counts sequence reference bundle ready le
