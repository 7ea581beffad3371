-- ===== src/Examples/Closed.antt =====
-- Commands on a migration that is closed.
use hv2pve.Prelude.{◌≡◌, refl, inr, List, [], ◌∷◌}
use hv2pve.Prelude.Int.{pos}
use hv2pve.Json.{find, truthy, value_eq}
use hv2pve.State.Record.{MigrationState}
use hv2pve.State.Phase.{closed, phase_in}
use hv2pve.State.Validate.{validate}
use hv2pve.State.Validate.Laws.{validate-IsValid}
use hv2pve.Controller.Work.Stored.{Recorded}
use hv2pve.Controller.Phases.Final.{IsClosed, history-IsClosed}
use hv2pve.Controller.Command.{
  Command, activate_production, authorize_cutover, close, begin_rollback,
}
use hv2pve.Controller.Main.{history}
use hv2pve.Examples.Fixtures.{state_path, started_state, stored_world, a_host}
use hv2pve.Examples.Commands.{not_temporary}
use hv2pve.Exec.{ok}

abbrev closed_state : MigrationState
closed_state = record started_state { phase = closed }

closed_passes : validate closed_state ≡ ok tt
unfolding validate truthy phase_in find value_eq
closed_passes = refl

closed_state-Recorded : Recorded IsClosed state_path (stored_world closed_state)
unfolding truthy
closed_state-Recorded = record {
  ticking = λ n. refl;
  apart = not_temporary;
  stored = inr (
    closed_state,
    record {
      found = refl;
      valid = validate-IsValid closed_state closed_passes;
      current = refl;
      kept = refl;
    },
  );
}

abbrev late_commands : List Command
late_commands =
    authorize_cutover "vm"
    ∷ begin_rollback a_host "vm" (pos 120)
    ∷ activate_production a_host
    ∷ close "vm"
    ∷ []

history-IsClosed_example :
    Recorded IsClosed state_path (history state_path late_commands (stored_world closed_state))
history-IsClosed_example =
    history-IsClosed state_path late_commands (stored_world closed_state) (tt, (tt, (tt, (tt, tt))))
      closed_state-Recorded
