-- ===== src/Examples/States.antt =====
-- A well-formed state, and what is done to it.
use hv2pve.Prelude.{◌+◌, String, ◌≡◌, refl, ◌≢◌, ◌↔◌, ◌⊎◌, true, false, none, some, arith, eq_iff}
use hv2pve.Prelude.Lists.{take}
use hv2pve.Prelude.Int.{ℤ, pos, leb_ℤ}
use hv2pve.Json.{obj, str, find, put, get, truthy, value_eq}
use hv2pve.Exec.{Error, Result, ok, err, Done, ◌>>=◌}
use hv2pve.World.{Document, json}
use hv2pve.State.Phase.{cutover_in_progress, phase_in, allowed_transitions}
use hv2pve.State.Record.{MigrationState, Session}
use hv2pve.State.Validate.{validate}
use hv2pve.State.Validate.Laws.{IsValid, validate_iff}
use hv2pve.State.Transition.{check_transition, enter_phase, set_phase}
use hv2pve.State.Transition.Laws.{PhaseSet, set_phase-PhaseSet}
use hv2pve.State.Payload.{from_dict, as_dict}
use hv2pve.State.Payload.Laws.{filled, from_dict-as_dict}
use hv2pve.State.Storage.{run_steps, save_steps, save, load}
use hv2pve.State.Storage.Laws.{save_steps_atomic, stamped, saved, save_lem, load-save}
use hv2pve.Controller.Stages.{commit_sync, register_sync}
use hv2pve.Controller.Stages.Laws.{Synced, register_sync-Synced}
use hv2pve.Controller.Ingest.{current_sequence}
use hv2pve.Examples.Fixtures.{state_path, ready_state, world_with, no_files}
use hv2pve.Json.Number.{to_int}

ready_passes : validate ready_state ≡ ok tt
unfolding validate truthy phase_in find value_eq
ready_passes = refl

validate_iff_example : (validate ready_state ≡ ok tt) ↔ IsValid ready_state
validate_iff_example = validate_iff ready_state

pub ready-IsValid : IsValid ready_state
ready-IsValid = validate_iff_example.0 ready_passes

abbrev ready_session : Session
ready_session = record { world = world_with no_files; state = ready_state }

set_phase-PhaseSet_example :
    PhaseSet cutover_in_progress
      (str "start")
      false
      ready_session
      (set_phase cutover_in_progress (str "start") false ready_session)
set_phase-PhaseSet_example =
    set_phase-PhaseSet cutover_in_progress (str "start") false ready_session

from_dict-as_dict_example :
    from_dict (as_dict ready_state) (world_with no_files)
    ≡ (ok (filled ready_state), record (world_with no_files) { ticks = 0 + 1 + 1 })
from_dict-as_dict_example = from_dict-as_dict ready_state (world_with no_files) ready-IsValid refl

apart : ".state.tmp" ≢ state_path
apart = ground (arith, eq_iff ".state.tmp" state_path)

abbrev a_document : Document
a_document = json (obj (as_dict ready_state))

save_steps_atomic_example :
    ((run_steps (take 2 (save_steps ".state.tmp" state_path a_document)) no_files state_path ≡ none)
      ⊎ (run_steps (take 2 (save_steps ".state.tmp" state_path a_document)) no_files state_path
          ≡ some a_document))
    × ((p : String)
        → p ≢ ".state.tmp"
        → p ≢ state_path
        → run_steps (take 2 (save_steps ".state.tmp" state_path a_document)) no_files p ≡ none)
save_steps_atomic_example = save_steps_atomic ".state.tmp" state_path a_document no_files apart 2

ready_saves : (save state_path ready_session).0 ≡ ok tt
unfolding save ◌>>=◌ validate truthy phase_in find value_eq
ready_saves = refl

load-save_example : load state_path (save state_path ready_session).1.world ≡ (
  ok (filled (stamped "2026-02-01" ready_state)),
  record (saved state_path ready_session).world { ticks = 0 + 1 + 1 + 1 },
)
load-save_example = load-save state_path ready_session apart ready_saves

abbrev unnamed_session : Session
unnamed_session = record {
  world = world_with no_files;
  state = record ready_state { migration_id = str "" };
}

save_lem_example :
    let st : MigrationState = stamped "2026-02-01" unnamed_session.state in
    ((validate st ≡ ok tt)
      × ((save state_path unnamed_session).0 ≡ ok tt)
      × ((save state_path unnamed_session).1.world.files
          ≡ run_steps (save_steps ".state.tmp" state_path (json (obj (as_dict st)))) no_files))
    ⊎ ((e : Error) × (validate st ≡ err e)
        × ((save state_path unnamed_session).0 ≡ err e)
        × ((save state_path unnamed_session).1.world.files ≡ no_files))
save_lem_example = save_lem state_path unnamed_session

abbrev synced : Result Done × Session
synced = register_sync (pos 4) "rp4" none true false ready_session

sync_returns : synced.0 ≡ ok tt
unfolding register_sync ◌>>=◌ current_sequence to_int truthy find commit_sync set_phase phase_in
    check_transition allowed_transitions enter_phase validate put value_eq
sync_returns = refl

register_sync-Synced_example :
    (true ≡ true)
    × ((n : ℤ) × (current_sequence ready_state ≡ ok n) × (leb_ℤ (pos 4) n ≡ false))
    × ((truthy (get "pending_reference_point" ready_state.sync) ≡ true)
        → value_eq (get "pending_reference_point" ready_state.sync) (str "rp4") ≡ true)
    × Synced (pos 4) "rp4" synced.1
register_sync-Synced_example =
    register_sync-Synced (pos 4) "rp4" none true false ready_session sync_returns
