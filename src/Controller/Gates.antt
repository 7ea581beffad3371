-- ===== src/Controller/Gates.antt =====
-- What a command asks of the stored state before it runs anything on the Proxmox host.
pub mod Quiet
pub mod Guards
pub mod Touch
pub mod Execute
use hv2pve.Prelude.{String, ◌≡◌, Bool, arith}
use hv2pve.Json.{Value, Fields}
use hv2pve.Exec.{Result, ok, err, Exec, Done, ◌>>=◌}
use hv2pve.Exec.Keeps.{Keeps, keeps_rules}
use hv2pve.World.{World, utc_now}
use hv2pve.State.Phase.{Phase}
use hv2pve.State.Record.{MigrationState, Session, in_world, set_state, record_event}
use hv2pve.State.Transition.{set_phase}
use hv2pve.State.Transition.Laws.{PhaseSet, set_phase-PhaseSet}
use hv2pve.State.Payload.{from_dict, to_dict}
use hv2pve.State.Storage.{save, read_json, load}

-- The commands that were run are those of another world.
abbrev pub SameRuns : World → World → Type 0
SameRuns w₀ w = w.ran ≡ w₀.ran

abbrev pub Quiet : World → Session → Type 0
Quiet w₀ s = SameRuns w₀ s.world

module _ (w₀ : World) where
  pub utc_now-Runs : Keeps (SameRuns w₀) utc_now
  unfolding utc_now
  utc_now-Runs = record { at = λ w h. h }

  pub in_world-Quiet :
      {A : Type 0} (m : Exec World A) → Keeps (SameRuns w₀) m → Keeps (Quiet w₀) (in_world m)
  in_world-Quiet m k = record { at = λ s h. k.at s.world h }

  pub set_state-Quiet : (f : MigrationState → MigrationState) → Keeps (Quiet w₀) (set_state f)
  set_state-Quiet f = record { at = λ s h. h }

  pub record_event-Quiet :
      (event : String) (details : Fields) → Keeps (Quiet w₀) (record_event event details)
  unfolding record_event ◌>>=◌
  record_event-Quiet event details = record { at = λ s h. h }

  pub set_phase-Quiet :
      (phase : Phase) (reason : Value) (force : Bool)
      → Keeps (Quiet w₀) (set_phase phase reason force)
  set_phase-Quiet phase reason force = record {
    at =
        λ s h. after s h (set_phase phase reason force s) (set_phase-PhaseSet phase reason force s);
  }
    where
      after :
          (s : Session)
          → Quiet w₀ s
          → (out : Result Done × Session) → PhaseSet phase reason force s out
          → Quiet w₀ out.1
      after s h (ok u, t) p = rw (p.3) h
      after s h (err e, t) p = rw (p.1) h

  pub save-Quiet : (path : String) → Keeps (Quiet w₀) (save path)
  unfolding save to_dict
  save-Quiet path = search (keeps_rules, in_world-Quiet, utc_now-Runs, set_state-Quiet) depth 20

  pub ruleset quiet_rules = (
    keeps_rules, in_world-Quiet, utc_now-Runs, set_state-Quiet, record_event-Quiet, set_phase-Quiet,
    save-Quiet,
  )

  pub read_json-Runs : (path : String) → Keeps (SameRuns w₀) (read_json path)
  unfolding read_json
  read_json-Runs path = record { at = λ w h. ground arith }

  pub from_dict-Runs : (d : Fields) → Keeps (SameRuns w₀) (from_dict d)
  unfolding from_dict
  from_dict-Runs d = search (keeps_rules, utc_now-Runs) depth 10

  pub load-Runs : (path : String) → Keeps (SameRuns w₀) (load path)
  unfolding load
  load-Runs path = search (keeps_rules, read_json-Runs, from_dict-Runs) depth 10
