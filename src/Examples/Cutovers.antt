-- ===== src/Examples/Cutovers.antt =====
-- A whole cutover, on a host that has a network for the destination.
use hv2pve.Prelude.{String, refl, Bool, true, false, List, [], ◌∷◌}
use hv2pve.Prelude.Int.{pos}
use hv2pve.Seed.{is_used}
use hv2pve.Json.{find, truthy, value_eq}
use hv2pve.World.{Answer, finished, World}
use hv2pve.Text.{left_strip, right_strip, lines, words, show}
use hv2pve.State.Record.{MigrationState}
use hv2pve.State.Validate.Laws.{validate-IsValid}
use hv2pve.Controller.Command.{
  activate_production, authorize_cutover, mark_source_stopped, close, mark_final_sync,
  mark_cutover_complete,
}
use hv2pve.Controller.Main.{history}
use hv2pve.Controller.Work.Stored.{Written}
use hv2pve.Controller.CutoverRun.Activation.{Serves}
use hv2pve.Controller.CutoverRun.Completion.{Ended}
use hv2pve.Controller.CutoverRun.Reach.{history-Ended}
use hv2pve.Examples.Fixtures.{state_path, ready_state, stored_world, a_host}
use hv2pve.Examples.Commands.{ready_checked, not_temporary}
use hv2pve.Process.{check_answer}
use hv2pve.Proxmox.{ssh_argv, config_get, parse_config}
use hv2pve.Controller.CutoverRun.Steps.{Ready}

abbrev text_for : Bool → String
text_for true = "net0: e1000,bridge=vmbr9"
text_for false = "status: stopped"

abbrev networked_host : List (List String) → List String → Answer
networked_host ran argv =
    finished
      (record { stdout = text_for (is_used "qm config 101" argv); stderr = ""; returncode = pos 0 })

abbrev ready_world : World
ready_world = record (stored_world ready_state) { remote = networked_host }

serves : Serves a_host (pos 101) ready_world
unfolding lines show check_answer ssh_argv config_get words right_strip parse_config left_strip
    is_used
serves = record {
  answers = λ ran argv. (text_for (is_used "qm config 101" argv), refl);
  stopped = refl;
  reports = λ ran. ("stopped", refl);
  network = λ ran. ("net0: e1000,bridge=vmbr9", "e1000,bridge=vmbr9", refl, refl, refl);
}

Ready-course : Ready "vm" (pos 101) ready_state
unfolding find truthy value_eq
Ready-course = (
  record {
    at_phase = refl;
    source_vm = refl;
    placed_at = refl;
    production = refl;
    test = refl;
    apart = refl;
    done = tt;
  },
  record { booted = refl; verified = refl; synced = refl; reference_point = refl; off = refl },
)

history-Ended_example :
    (last : MigrationState) × Written Ended state_path
      (history state_path
        (authorize_cutover "vm"
          ∷ mark_source_stopped "vm"
          ∷ mark_final_sync true
          ∷ activate_production a_host
          ∷ mark_cutover_complete true true true
          ∷ close "vm"
          ∷ [])
        ready_world)
      last
unfolding truthy
history-Ended_example =
    history-Ended state_path "vm" a_host (pos 101) ready_world ready_state
      (record {
        found = refl;
        valid = validate-IsValid ready_state ready_checked;
        current = refl;
        kept = Ready-course;
      })
      not_temporary (λ n. refl) serves
