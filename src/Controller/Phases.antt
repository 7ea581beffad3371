-- ===== src/Controller/Phases.antt =====
-- controller/hv2pve.py: the phase of the state object and the table of transitions.
pub mod Commands
pub mod Reach
pub mod Final
use hv2pve.Prelude.{◌≤◌, String, ◌≡◌, refl, sym, ap, inl, inr, false, arith}
use hv2pve.Json.{Value, Fields}
use hv2pve.Exec.{Result, ok, err, Exec, Done}
use hv2pve.Exec.Keeps.{Keeps, keeps_rules}
use hv2pve.World.{World}
use hv2pve.World.Outside.{SameFiles, utc_now-SameFiles}
use hv2pve.State.Phase.{Phase, rank}
use hv2pve.State.Phase.Moves.{Moves, move, phase_eq-same}
use hv2pve.State.Record.{MigrationState, Session, in_world, set_state, record_event}
use hv2pve.State.Transition.{set_phase}
use hv2pve.State.Transition.Laws.{MayMove, PhaseSet, set_phase-PhaseSet}
use hv2pve.Controller.{set_destination, set_source, set_sync, pop_sync, set_validation, set_cutover}
use hv2pve.Controller.Work.{Works, in_world-Works, set_state-Works, record_event-Works}
use mathlib.Core.Path.{subst}

module _ (start : Phase) where
  abbrev pub FollowsFrom : MigrationState → Type 0
  FollowsFrom st = Moves start st.phase

  module _ (w₀ : World) where
    abbrev pub Follows : Session → Type 0
    Follows s = Works FollowsFrom w₀ s

    pub in_world-Follows :
        {A : Type 0} (m : Exec World A) → Keeps (SameFiles w₀) m → Keeps Follows (in_world m)
    in_world-Follows m k = in_world-Works FollowsFrom w₀ m k

    pub set_state-Follows :
        (f : MigrationState → MigrationState)
        → ((st : MigrationState) → (f st).phase ≡ st.phase)
        → Keeps Follows (set_state f)
    set_state-Follows f e =
        set_state-Works FollowsFrom w₀ f (λ st m. subst (Moves start) (sym (e st)) m)

    pub set_destination-Follows : (k : String) (v : Value) → Keeps Follows (set_destination k v)
    set_destination-Follows k v = set_state-Follows _ (λ st. refl)

    pub set_source-Follows : (k : String) (v : Value) → Keeps Follows (set_source k v)
    set_source-Follows k v = set_state-Follows _ (λ st. refl)

    pub set_sync-Follows : (k : String) (v : Value) → Keeps Follows (set_sync k v)
    set_sync-Follows k v = set_state-Follows _ (λ st. refl)

    pub pop_sync-Follows : (k : String) → Keeps Follows (pop_sync k)
    pop_sync-Follows k = set_state-Follows _ (λ st. refl)

    pub set_validation-Follows : (k : String) (v : Value) → Keeps Follows (set_validation k v)
    set_validation-Follows k v = set_state-Follows _ (λ st. refl)

    pub set_cutover-Follows : (k : String) (v : Value) → Keeps Follows (set_cutover k v)
    set_cutover-Follows k v = set_state-Follows _ (λ st. refl)

    pub record_event-Follows :
        (event : String) (details : Fields) → Keeps Follows (record_event event details)
    record_event-Follows event details =
        record_event-Works FollowsFrom w₀ event details (λ st history updated m. m)

    moved_on :
        (old phase : Phase)
        → rank phase ≤ 12
        → MayMove old phase false
        → Moves start old
        → Moves start phase
    moved_on old phase known (inl e) m = absurd (ground arith)
    moved_on old phase known (inr (inl e)) m =
        subst (Moves start) (sym (phase_eq-same phase old known e)) m
    moved_on old phase known (inr (inr e)) m = move phase m e

    pub set_phase-Follows :
        (phase : Phase) (reason : Value) → Keeps Follows (set_phase phase reason false)
    set_phase-Follows phase reason = record {
      at = λ s h.
          after s h (set_phase phase reason false s) (set_phase-PhaseSet phase reason false s);
    }
      where
        after :
            (s : Session)
            → Follows s
            → (out : Result Done × Session) → PhaseSet phase reason false s out
            → Follows out.1
        after s h (ok u, t) p =
            let at_phase : t.state.phase ≡ phase = ap (λ st. st.phase) p.0 in
            record {
              same = rw (p.3) (record {
                files = h.same.files;
                clock = h.same.clock;
                temp_name = h.same.temp_name;
              });
              kept = subst (Moves start) (sym at_phase) (
                  moved_on s.state.phase phase (subst (λ q. rank q ≤ 12) at_phase (p.1.known)) p.2
                    h.kept);
            }
        after s h (err e, t) p = record {
          same =
              rw (p.1) (record {
                files = h.same.files;
                clock = h.same.clock;
                temp_name = h.same.temp_name;
              });
          kept = rw (p.0) h.kept;
        }

    pub ruleset follows_rules = (
      keeps_rules, in_world-Follows, utc_now-SameFiles, set_destination-Follows, set_source-Follows,
      set_sync-Follows, pop_sync-Follows, set_validation-Follows, set_cutover-Follows,
      record_event-Follows, set_phase-Follows,
    )
