-- ===== src/Controller/Work.antt =====
-- A command at work on the files of a world, its state object within an invariant.
use hv2pve.World.{World}
use hv2pve.World.Outside.{SameFiles}
use hv2pve.State.Record.{MigrationState, Session, in_world, set_state, record_event}
use hv2pve.Exec.{Result, ok, err, Exec, Done, ◌>>=◌}
use hv2pve.Exec.Keeps.{Keeps}
use hv2pve.Prelude.{String, Bool}
use hv2pve.Json.{Value, Fields, Items}
use hv2pve.State.Phase.{Phase}
use hv2pve.State.Transition.{set_phase}
use hv2pve.State.Transition.Laws.{PhaseSet, set_phase-PhaseSet}
use hv2pve.Controller.{the_state}
pub mod Stored
pub mod Runs
pub mod Commands
pub mod Execute
pub mod Saves

module _ (P : MigrationState → Type 0) where
  pub record Works (w₀ : World) (s : Session) : Type 0 where
    pub same : SameFiles w₀ s.world
    pub kept : P s.state

  pub in_world-Works :
      (w₀ : World) {A : Type 0} (m : Exec World A)
      → Keeps (SameFiles w₀) m
      → Keeps (Works w₀) (in_world m)
  in_world-Works w₀ m k = record {
    at = λ s h. record { same = k.at s.world h.same; kept = h.kept };
  }

  -- A command reads its own copy of the state.
  pub the_state-Works :
      (w₀ : World) {A : Type 0} (f : MigrationState → Exec Session A)
      → ((st : MigrationState) → P st → Keeps (Works w₀) (f st))
      → Keeps (Works w₀) (the_state >>= f)
  unfolding ◌>>=◌
  the_state-Works w₀ f k = record { at = λ s h. (k s.state h.kept).at s h }

  module _ (w₀ : World) where
    pub set_state-Works :
        (f : MigrationState → MigrationState)
        → ((st : MigrationState) → P st → P (f st))
        → Keeps (Works w₀) (set_state f)
    set_state-Works f k = record { at = λ s h. record { same = h.same; kept = k s.state h.kept } }

    pub record_event-Works :
        (event : String) (details : Fields)
        → ((st : MigrationState) (history : Items) (updated : Value)
            → P st
            → P (record st { history = history; updated_at_utc = updated }))
        → Keeps (Works w₀) (record_event event details)
    unfolding record_event ◌>>=◌
    record_event-Works event details k = record {
      at = λ s h. record {
        same = record { files = h.same.files; clock = h.same.clock; temp_name = h.same.temp_name };
        kept = k s.state _ _ h.kept;
      };
    }

    -- A refused change of phase may have changed the update time.
    pub set_phase-Works :
        (phase : Phase) (reason : Value) (force : Bool)
        → ((st : MigrationState) (phase : Phase) (history : Items) (updated : Value)
            → P st
            → P (record st { phase = phase; history = history; updated_at_utc = updated }))
        → Keeps (Works w₀) (set_phase phase reason force)
    set_phase-Works phase reason force k = record {
      at = λ s h.
          after s h (set_phase phase reason force s) (set_phase-PhaseSet phase reason force s);
    }
      where
        after :
            (s : Session)
            → Works w₀ s
            → (out : Result Done × Session) → PhaseSet phase reason force s out
            → Works w₀ out.1
        after s h (ok u, t) p = record {
          same =
              rw (p.3) (record {
                files = h.same.files;
                clock = h.same.clock;
                temp_name = h.same.temp_name;
              });
          kept = rw (p.0) (k s.state _ _ _ h.kept);
        }
        after s h (err e, t) p = record {
          same =
              rw (p.1) (record {
                files = h.same.files;
                clock = h.same.clock;
                temp_name = h.same.temp_name;
              });
          kept = rw (p.0) (k s.state s.state.phase s.state.history _ h.kept);
        }
