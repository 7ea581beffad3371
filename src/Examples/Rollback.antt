-- ===== src/Examples/Rollback.antt =====
-- A rollback of a cutover, on a host whose VM runs until it is shut down.
use hv2pve.Prelude.{String, ◌≡◌, refl, ap, ◌∙◌, Bool, true, false, ◌||◌, List, [], ◌∷◌, ◌++◌, arith}
use hv2pve.Prelude.Int.{pos}
use hv2pve.Seed.{is_used}
use hv2pve.Json.{find}
use hv2pve.World.{Answer, finished, World}
use hv2pve.State.Record.{MigrationState}
use hv2pve.State.Phase.{closed, phase_in}
use hv2pve.State.Validate.Laws.{validate-IsValid}
use hv2pve.Proxmox.Obeys.{shutdown_argv, Obeys}
use hv2pve.Controller.Command.{mark_rolled_back, close, begin_rollback}
use hv2pve.Controller.Main.{history}
use hv2pve.Controller.Work.Stored.{Written}
use hv2pve.Controller.Rollback.Reach.{Restored, history-Restored}
use hv2pve.Examples.Fixtures.{state_path, started_state, stored_world, a_host}
use hv2pve.Examples.Commands.{started_passes, not_temporary}
use hv2pve.Exec.{ok, and_then}
use hv2pve.Text.{cat, left_strip, right_strip, strip, words, show}
use hv2pve.Process.{check_answer}
use hv2pve.Proxmox.{ssh_argv, last}
use hv2pve.Controller.Rollback.{UnderWay}

-- A shutdown is among the commands that were run.
shut_down : List (List String) → Bool
shut_down [] = false
shut_down (argv ∷ ran) =
    let rest = shut_down ran in is_used "qm shutdown 101 --timeout 120" argv || rest

abbrev state_text : Bool → String
state_text true = "stopped"
state_text false = "running"

abbrev told : Bool → Answer
told stopped =
    finished
      (record { stdout = cat "status: " (state_text stopped); stderr = ""; returncode = pos 0 })

abbrev running_host : List (List String) → List String → Answer
running_host ran argv = told (shut_down ran)

abbrev cutover_world : World
cutover_world = record (stored_world started_state) { remote = running_host }

shut_down_last :
    (ran : List (List String))
    → shut_down (ran ++ shutdown_argv a_host (pos 101) (pos 120) ∷ []) ≡ true
unfolding ssh_argv is_used show shut_down
shut_down_last [] = refl
shut_down_last (argv ∷ ran) = ground (arith, shut_down_last ran)

told_answers : (b : Bool) → check_answer (told b) ≡ ok (cat "status: " (state_text b))
unfolding check_answer
told_answers b = refl

told_state :
    (b : Bool)
    → and_then (check_answer (told b)) (λ text. last (words (strip text))) ≡ ok (state_text b)
unfolding left_strip words right_strip check_answer
told_state true = refl
told_state false = refl

obeys : Obeys a_host (pos 101) (pos 120) running_host
obeys = record {
  answers = λ ran argv. (cat "status: " (state_text (shut_down ran)), told_answers (shut_down ran));
  reports = λ ran. (state_text (shut_down ran), told_state (shut_down ran));
  stops = λ ran.
      told_state (shut_down (ran ++ shutdown_argv a_host (pos 101) (pos 120) ∷ []))
      ∙ ap (λ b. ok (state_text b)) (shut_down_last ran);
}

under_way : UnderWay "vm" (pos 101) started_state
unfolding find phase_in
under_way = record { cutting_over = refl; source_vm = refl; placed_at = refl }

history-Restored_example :
    (end : MigrationState) × Written
      (Restored "vm" closed)
      state_path
      (history state_path
        (begin_rollback a_host "vm" (pos 120) ∷ mark_rolled_back "vm" ∷ close "vm" ∷ [])
        cutover_world)
      end
history-Restored_example =
    history-Restored state_path "vm" a_host (pos 101) (pos 120) cutover_world started_state
      (record {
        found = refl;
        valid = validate-IsValid started_state started_passes;
        current = refl;
        kept = under_way;
      })
      not_temporary obeys
