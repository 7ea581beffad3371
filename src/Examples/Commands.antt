-- ===== src/Examples/Commands.antt =====
-- Commands on a state file, and a host that answers them.
use hv2pve.Prelude.{
  ◌+◌, String, ◌≡◌, refl, ap, ◌∙◌, ◌≢◌, inr, true, none, List, [], ◌∷◌, arith, eq_iff,
}
use hv2pve.Controller.Command.{
  Command, activate_production, register_sync, authorize_cutover, mark_source_stopped,
  mark_final_sync,
}
use hv2pve.Controller.Main.{execute, history}
use hv2pve.Controller.Work.Stored.{Usable, Recorded}
use hv2pve.Controller.Order.{IsOrdered}
use hv2pve.Controller.Phases.{FollowsFrom}
use hv2pve.Controller.Phases.Reach.{history-Follows}
use hv2pve.State.Phase.Moves.{stay}
use hv2pve.Examples.Fixtures.{state_path, ready_state, started_state, stored_world, a_host}
use hv2pve.Json.{find, truthy, value_eq}
use hv2pve.State.Record.{MigrationState}
use hv2pve.State.Validate.{validate}
use hv2pve.Controller.Order.Reach.{history-Usable}
use hv2pve.Exec.{ok, ◌>>=◌}
use hv2pve.State.Storage.{load}
use hv2pve.State.Validate.Laws.{validate-IsValid}
use hv2pve.Controller.Gates.Execute.{MayAct, execute-MayAct}
use hv2pve.State.Phase.{cutover_ready, phase_in}
use hv2pve.Prelude.Lists.{length}
use hv2pve.State.Storage.Laws.{load_json}
use hv2pve.State.Payload.{as_dict}
use hv2pve.State.Payload.Laws.{filled, from_dict-as_dict}
use hv2pve.Controller.Remote.{cmd_activate_production}
use hv2pve.Controller.{on_state}
use hv2pve.Examples.Activation.{behind_load, filled_acts}
use hv2pve.Prelude.Int.{pos}
use hv2pve.Controller.Sequence.{AtLeast}
use hv2pve.Controller.Sequence.Reach.{history-AtLeast}

pub started_passes : validate started_state ≡ ok tt
unfolding validate truthy phase_in find value_eq
started_passes = refl

pub ready_checked : validate ready_state ≡ ok tt
unfolding validate truthy phase_in find value_eq
ready_checked = refl

pub not_temporary : ".state.tmp" ≢ state_path
not_temporary = ground (arith, eq_iff ".state.tmp" state_path)

ready-Usable : Usable IsOrdered state_path (stored_world ready_state)
unfolding find truthy
ready-Usable = record {
  ticking = λ n. refl;
  apart = not_temporary;
  stored = inr (
    ready_state,
    record {
      found = refl;
      valid = validate-IsValid ready_state ready_checked;
      current = refl;
      kept = record {
        stop_after_authorization = λ h. h;
        final_after_stop = λ h. h;
        writes_after_final = λ h. h;
      };
    },
  );
}

abbrev a_cutover : List Command
a_cutover =
    authorize_cutover "vm"
    ∷ mark_final_sync true
    ∷ mark_source_stopped "vm"
    ∷ mark_final_sync true
    ∷ activate_production a_host
    ∷ []

history-Usable_example :
    Usable IsOrdered state_path (history state_path a_cutover (stored_world ready_state))
history-Usable_example =
    history-Usable state_path a_cutover (stored_world ready_state) (tt, (tt, (tt, (tt, (tt, tt)))))
      ready-Usable

ready-Follows : Recorded (FollowsFrom cutover_ready) state_path (stored_world ready_state)
ready-Follows = record {
  ticking = ready-Usable.ticking;
  apart = ready-Usable.apart;
  stored = inr (
    ready_state,
    record {
      found = refl;
      valid = validate-IsValid ready_state ready_checked;
      current = refl;
      kept = stay;
    },
  );
}

history-Follows_example :
    Recorded
      (FollowsFrom cutover_ready)
      state_path
      (history state_path a_cutover (stored_world ready_state))
history-Follows_example =
    history-Follows cutover_ready state_path a_cutover (stored_world ready_state)
      (tt, (tt, (tt, (tt, (tt, tt))))) ready-Follows

abbrev activation_run : List (List String)
activation_run =
    (execute state_path (activate_production a_host) (stored_world started_state)).1.ran

started_loads :
    load state_path (stored_world started_state)
    ≡ (ok (filled started_state), record (stored_world started_state) { ticks = 0 + 1 + 1 })
started_loads =
    load_json state_path (stored_world started_state) (as_dict started_state) refl
    ∙ from_dict-as_dict started_state (stored_world started_state)
        (validate-IsValid started_state started_passes) refl

two_commands : length activation_run ≡ 2
unfolding execute cmd_activate_production on_state ◌>>=◌
two_commands = ap (λ p. length (behind_load p)) started_loads ∙ filled_acts

activation_acts : activation_run ≢ []
activation_acts h = let none_ran = ap length h in omega (arith, two_commands, none_ran)

execute-MayAct_example :
    (st : MigrationState) × ((load state_path (stored_world started_state)).0 ≡ ok st)
    × MayAct (activate_production a_host) st
execute-MayAct_example =
    execute-MayAct state_path (activate_production a_host) (stored_world started_state)
      activation_acts

ready-AtLeast : Recorded (AtLeast (pos 3)) state_path (stored_world ready_state)
unfolding find
ready-AtLeast = record {
  ticking = ready-Usable.ticking;
  apart = ready-Usable.apart;
  stored = inr (
    ready_state,
    record {
      found = refl;
      valid = validate-IsValid ready_state ready_checked;
      current = refl;
      kept = record { current = pos 3; recorded = refl; reached = omega arith };
    },
  );
}

abbrev two_syncs : List Command
two_syncs =
    register_sync (pos 2) "rp2" none true true
    ∷ register_sync (pos 4) "rp4" none true true
    ∷ authorize_cutover "vm"
    ∷ []

history-AtLeast_example :
    Recorded (AtLeast (pos 3)) state_path (history state_path two_syncs (stored_world ready_state))
history-AtLeast_example =
    history-AtLeast (pos 3) state_path two_syncs (stored_world ready_state) (tt, (tt, (tt, tt)))
      ready-AtLeast
