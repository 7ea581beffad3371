-- ===== src/Controller/Stages/Laws.antt =====
use hv2pve.Prelude.{String, ◌≡◌, refl, ◌≢◌, Bool, true, false, Option, some, arith, str_eq}
use hv2pve.Prelude.Int.{ℤ, leb_ℤ}
use hv2pve.Json.{Value, null, int, str, Fields, find, get, truthy, value_eq}
use hv2pve.Json.Laws.{find-put, find-pop}
use hv2pve.Exec.{Error, Result, ok, err, Exec, Done, ◌>>=◌}
use hv2pve.Exec.Keeps.{Keeps, keeps_rules}
use hv2pve.World.{World}
use hv2pve.State.Phase.{Phase}
use hv2pve.State.Record.{Session, in_world, record_event}
use hv2pve.State.Transition.{set_phase}
use hv2pve.State.Transition.Laws.{PhaseSet, set_phase-PhaseSet}
use hv2pve.Controller.{set_sync, pop_sync, set_validation}
use hv2pve.Controller.Ingest.{current_sequence}
use hv2pve.Controller.Stages.{finish_sync, commit_sync, register_sync}

-- The sequence and the reference point of a synchronization are on record.
pub record Synced (sequence : ℤ) (reference : String) (s : Session) : Type 0 where
  pub sequence_is : find "sequence" s.state.sync ≡ some (int sequence)
  pub reference_is : find "authoritative_reference_point" s.state.sync ≡ some (str reference)

module _ (sequence : ℤ) (reference : String) where
  abbrev P : Session → Type 0
  P = Synced sequence reference

  in_world-Synced : {A : Type 0} (m : Exec World A) → Keeps P (in_world m)
  in_world-Synced m = record {
    at = λ s h. record { sequence_is = h.sequence_is; reference_is = h.reference_is };
  }

  set_sync-Synced :
      (k : String) (v : Value)
      → str_eq k "sequence" ≡ false
      → str_eq k "authoritative_reference_point" ≡ false
      → Keeps P (set_sync k v)
  set_sync-Synced k v a b = record {
    at = λ s h. record {
      sequence_is = simp (find-put, a) h.sequence_is;
      reference_is = simp (find-put, b) h.reference_is;
    };
  }

  set_validation-Synced : (k : String) (v : Value) → Keeps P (set_validation k v)
  set_validation-Synced k v = record {
    at = λ s h. record { sequence_is = h.sequence_is; reference_is = h.reference_is };
  }

  record_event-Synced : (event : String) (details : Fields) → Keeps P (record_event event details)
  unfolding record_event ◌>>=◌
  record_event-Synced event details = record {
    at = λ s h. record { sequence_is = h.sequence_is; reference_is = h.reference_is };
  }

  set_phase-Synced :
      (phase : Phase) (reason : Value) (force : Bool) → Keeps P (set_phase phase reason force)
  set_phase-Synced phase reason force = record {
    at =
        λ s h. after s h (set_phase phase reason force s) (set_phase-PhaseSet phase reason force s);
  }
    where
      after :
          (s : Session)
          → P s
          → (out : Result Done × Session) → PhaseSet phase reason force s out
          → P out.1
      after s h (ok u, t) p = record {
        sequence_is = rw (p.0) h.sequence_is;
        reference_is = rw (p.0) h.reference_is;
      }
      after s h (err e, t) p = record {
        sequence_is = rw (p.0) h.sequence_is;
        reference_is = rw (p.0) h.reference_is;
      }

  pop_sync-Synced :
      (k : String)
      → str_eq k "sequence" ≡ false
      → str_eq k "authoritative_reference_point" ≡ false
      → Keeps P (pop_sync k)
  pop_sync-Synced k a b = record {
    at = λ s h. record {
      sequence_is = rw (find-pop "sequence" k s.state.sync a) h.sequence_is;
      reference_is = rw (find-pop "authoritative_reference_point" k s.state.sync b) h.reference_is;
    };
  }

  ruleset synced_rules =
      (keeps_rules, in_world-Synced, set_validation-Synced, record_event-Synced, set_phase-Synced)

  set_pending : Keeps P (set_sync "pending_reference_point" null)
  set_pending = set_sync-Synced "pending_reference_point" null refl refl

  set_time : (v : Value) → Keeps P (set_sync "last_successful_sync_utc" v)
  set_time v = set_sync-Synced "last_successful_sync_utc" v refl refl

  set_bundle : (v : Value) → Keeps P (set_sync "last_bundle" v)
  set_bundle v = set_sync-Synced "last_bundle" v refl refl

  pop_sequence : Keeps P (pop_sync "pending_sequence")
  pop_sequence = pop_sync-Synced "pending_sequence" refl refl

  pop_bundle : Keeps P (pop_sync "pending_bundle")
  pop_bundle = pop_sync-Synced "pending_bundle" refl refl

  finish_sync-Synced :
      (bundle : Option String) (ready : Bool)
      → Keeps P (finish_sync sequence reference bundle ready)
  unfolding finish_sync
  finish_sync-Synced bundle ready =
      search (synced_rules, set_pending, set_time, set_bundle, pop_sequence, pop_bundle) depth 40

  commit_sync-Synced :
      (bundle : Option String) (ready : Bool) (s : Session)
      → P (commit_sync sequence reference bundle ready s).1
  unfolding commit_sync ◌>>=◌
  commit_sync-Synced bundle ready s =
      (finish_sync-Synced bundle ready).at _
        (record { sequence_is = simp find-put refl; reference_is = simp find-put refl })

-- The three tests, and the writes behind them.
register_sync-tests :
    (sequence : ℤ) (reference : String) (bundle : Option String) (verified ready : Bool)
    (s : Session) (n : ℤ) (out : Result Done × Session)
    → current_sequence s.state ≡ ok n
    → commit_sync sequence reference bundle ready s ≡ out
    → (register_sync sequence reference bundle verified ready s).0 ≡ ok tt
    → (register_sync sequence reference bundle verified ready s ≡ out)
      × (verified ≡ true)
      × (leb_ℤ sequence n ≡ false)
      × ((truthy (get "pending_reference_point" s.state.sync) ≡ true)
          → value_eq (get "pending_reference_point" s.state.sync) (str reference) ≡ true)
unfolding register_sync ◌>>=◌
register_sync-tests sequence reference bundle verified ready s n out c k h = ground arith

register_sync-unread :
    (sequence : ℤ) (reference : String) (bundle : Option String) (verified ready : Bool)
    (s : Session) (e : Error)
    → current_sequence s.state ≡ err e
    → (register_sync sequence reference bundle verified ready s).0 ≢ ok tt
unfolding register_sync ◌>>=◌
register_sync-unread sequence reference bundle verified ready s e c h = ground arith

-- Where `register-sync` returns, the synchronization was verified, its sequence was newer than the
-- recorded one, it named the pending reference point if there was one, and it is now on record with
-- its reference point.
pub register_sync-Synced :
    (sequence : ℤ) (reference : String) (bundle : Option String) (verified ready : Bool)
    (s : Session)
    → (register_sync sequence reference bundle verified ready s).0 ≡ ok tt
    → (verified ≡ true)
      × ((n : ℤ) × (current_sequence s.state ≡ ok n) × (leb_ℤ sequence n ≡ false))
      × ((truthy (get "pending_reference_point" s.state.sync) ≡ true)
          → value_eq (get "pending_reference_point" s.state.sync) (str reference) ≡ true)
      × Synced sequence reference (register_sync sequence reference bundle verified ready s).1
register_sync-Synced sequence reference bundle verified ready s h =
    go (current_sequence s.state) refl
  where
    go :
        (r : Result ℤ)
        → current_sequence s.state ≡ r
        → (verified ≡ true)
          × ((n : ℤ) × (current_sequence s.state ≡ ok n) × (leb_ℤ sequence n ≡ false))
          × ((truthy (get "pending_reference_point" s.state.sync) ≡ true)
              → value_eq (get "pending_reference_point" s.state.sync) (str reference) ≡ true)
          × Synced sequence reference (register_sync sequence reference bundle verified ready s).1
    go (err e) c = absurd (register_sync-unread sequence reference bundle verified ready s e c h)
    go (ok n) c =
        let t =
          register_sync-tests sequence reference bundle verified ready s n
            (commit_sync sequence reference bundle ready s) c refl h in
        (t.1, (n, c, t.2), t.3, rw t.0 (commit_sync-Synced sequence reference bundle ready s))
