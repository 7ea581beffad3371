-- ===== src/Controller/Order.antt =====
-- controller/hv2pve.py: the order of a cutover, which is authorization, source stop, final sync and
-- production start.
use hv2pve.Prelude.{String, ◌≡◌, refl, Bool, true, false, str_eq}
use hv2pve.Exec.{Exec}
use hv2pve.Exec.Keeps.{Keeps, keeps_rules}
use hv2pve.World.{World}
use hv2pve.World.Outside.{SameFiles, utc_now-SameFiles}
use hv2pve.Json.{Value, Fields, put, get, truthy}
use hv2pve.State.Phase.{Phase}
use hv2pve.State.Record.{MigrationState, Session, in_world, set_state, record_event}
use hv2pve.State.Transition.{set_phase}
use hv2pve.Controller.{set_destination, set_source, set_sync, pop_sync, set_validation}
use hv2pve.Json.Laws.{find-put}
use hv2pve.Controller.Work.{Works, set_state-Works, record_event-Works, set_phase-Works}
pub mod Activation
pub mod Commands
pub mod History
pub mod Reach

pub record Ordered (c : Fields) : Type 0 where
  pub stop_after_authorization :
      truthy (get "source_stopped_at_utc" c) ≡ true → truthy (get "authorized" c) ≡ true
  pub final_after_stop :
      truthy (get "final_sync_completed_at_utc" c) ≡ true
      → truthy (get "source_stopped_at_utc" c) ≡ true
  pub writes_after_final :
      truthy (get "destination_writes_possible" c) ≡ true
      → truthy (get "final_sync_completed_at_utc" c) ≡ true

abbrev pub IsOrdered : MigrationState → Type 0
IsOrdered st = Ordered st.cutover

abbrev pub Holds : World → Session → Type 0
Holds w₀ s = Works IsOrdered w₀ s

module _ (w₀ : World) where
  pub in_world-Holds :
      {A : Type 0} (m : Exec World A) → Keeps (SameFiles w₀) m → Keeps (Holds w₀) (in_world m)
  in_world-Holds m k = record { at = λ s h. record { same = k.at s.world h.same; kept = h.kept } }

  -- A write that leaves the cutover section alone.
  pub set_state-Holds :
      (f : MigrationState → MigrationState)
      → ((st : MigrationState) → (f st).cutover ≡ st.cutover)
      → Keeps (Holds w₀) (set_state f)
  set_state-Holds f e = set_state-Works IsOrdered w₀ f (λ st o. rw (e st) o)

  pub set_destination-Holds : (k : String) (v : Value) → Keeps (Holds w₀) (set_destination k v)
  set_destination-Holds k v = set_state-Holds _ (λ st. refl)

  pub set_source-Holds : (k : String) (v : Value) → Keeps (Holds w₀) (set_source k v)
  set_source-Holds k v = set_state-Holds _ (λ st. refl)

  pub set_sync-Holds : (k : String) (v : Value) → Keeps (Holds w₀) (set_sync k v)
  set_sync-Holds k v = set_state-Holds _ (λ st. refl)

  pub pop_sync-Holds : (k : String) → Keeps (Holds w₀) (pop_sync k)
  pop_sync-Holds k = set_state-Holds _ (λ st. refl)

  pub set_validation-Holds : (k : String) (v : Value) → Keeps (Holds w₀) (set_validation k v)
  set_validation-Holds k v = set_state-Holds _ (λ st. refl)

  pub record_event-Holds :
      (event : String) (details : Fields) → Keeps (Holds w₀) (record_event event details)
  record_event-Holds event details =
      record_event-Works IsOrdered w₀ event details (λ st history updated o. o)

  -- The phase is no part of the cutover section, and a refused change leaves it alone too.
  pub set_phase-Holds :
      (phase : Phase) (reason : Value) (force : Bool)
      → Keeps (Holds w₀) (set_phase phase reason force)
  set_phase-Holds phase reason force =
      set_phase-Works IsOrdered w₀ phase reason force (λ st phase history updated o. o)

  pub ruleset holds_rules = (
    keeps_rules, in_world-Holds, utc_now-SameFiles, set_destination-Holds, set_source-Holds,
    set_sync-Holds, pop_sync-Holds, set_validation-Holds, record_event-Holds, set_phase-Holds,
  )

-- A write of a key outside the order.
abbrev pub IsApart : String → Type 0
IsApart k =
    (str_eq k "authorized" ≡ false)
    × (str_eq k "source_stopped_at_utc" ≡ false)
    × (str_eq k "final_sync_completed_at_utc" ≡ false)
    × (str_eq k "destination_writes_possible" ≡ false)

module _ (v : Value) (c : Fields) (h : Ordered c) where
  pub put_apart : (k : String) → IsApart k → Ordered (put k v c)
  put_apart k e = record {
    stop_after_authorization = simp (find-put, e.0, e.1) h.stop_after_authorization;
    final_after_stop = simp (find-put, e.1, e.2) h.final_after_stop;
    writes_after_final = simp (find-put, e.2, e.3) h.writes_after_final;
  }

  pub put_authorized : truthy v ≡ true → Ordered (put "authorized" v c)
  put_authorized t = record {
    stop_after_authorization = simp find-put (λ _. t);
    final_after_stop = simp find-put h.final_after_stop;
    writes_after_final = simp find-put h.writes_after_final;
  }

  pub put_stopped :
      truthy v ≡ true
      → truthy (get "authorized" c) ≡ true
      → Ordered (put "source_stopped_at_utc" v c)
  put_stopped t a = record {
    stop_after_authorization = simp find-put (λ _. a);
    final_after_stop = simp find-put (λ _. t);
    writes_after_final = simp find-put h.writes_after_final;
  }

  pub put_final :
      truthy v ≡ true
      → truthy (get "source_stopped_at_utc" c) ≡ true
      → Ordered (put "final_sync_completed_at_utc" v c)
  put_final t a = record {
    stop_after_authorization = simp find-put h.stop_after_authorization;
    final_after_stop = simp find-put (λ _. a);
    writes_after_final = simp find-put (λ _. t);
  }

  pub put_writes :
      truthy (get "final_sync_completed_at_utc" c) ≡ true
      → Ordered (put "destination_writes_possible" v c)
  put_writes a = record {
    stop_after_authorization = simp find-put h.stop_after_authorization;
    final_after_stop = simp find-put h.final_after_stop;
    writes_after_final = simp find-put (λ _. a);
  }
