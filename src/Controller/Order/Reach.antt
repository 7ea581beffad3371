-- ===== src/Controller/Order/Reach.antt =====
-- controller/hv2pve.py: histories of commands, and the order of the cutover in the state file.
use hv2pve.Controller.Order.History.{Ordered-filled, init-Ordered}
use hv2pve.Controller.Order.{IsOrdered}
use hv2pve.Controller.Work.Stored.{IsTicking, Usable}
use hv2pve.Controller.Order.Commands.{
  ingest_sync-Holds, mark_seeded-Holds, mark_tested-Holds, register_sync-Holds,
  mark_rolled_back-Holds, close-Holds, mark_cutover_complete-Holds, test_start-Holds,
  test_stop-Holds, apply_proxmox_delta-Holds, begin_rollback-Holds, authorize_cutover-Holds,
  mark_source_stopped-Holds, mark_final_sync-Holds, seed-Holds,
}
use hv2pve.Prelude.{String, List, [], ◌∷◌}
use hv2pve.Exec.Keeps.{Keeps}
use hv2pve.World.{World}
use hv2pve.Controller.Order.Activation.{activate_production-Holds}
use hv2pve.Controller.Command.{
  Command, init, ingest_baseline, ingest_sync, status, validate_state, cutover_plan, rollback_plan,
  seed_plan, seed, mark_seeded, apply_delta, test_start, activate_production, test_stop,
  mark_tested, apply_proxmox_delta, register_sync, authorize_cutover, mark_source_stopped,
  mark_rolled_back, close, mark_final_sync, mark_cutover_complete, begin_rollback,
}
use hv2pve.Controller.Main.{execute, main, history}
use hv2pve.Controller.Work.Execute.{IsStep, WorkKeeps, execute-Works}

-- Every command but `ingest-baseline`, which takes a whole state from outside.
abbrev pub IsOwn : Command → Type 0
IsOwn (ingest_baseline input) = ⊥
IsOwn c = Unit

abbrev pub AllOwn : List Command → Type 0
AllOwn [] = Unit
AllOwn (c ∷ cs) = IsOwn c × AllOwn cs

work-Holds :
    (c : Command)
    → IsStep c
    → (w : World) → IsTicking w
    → WorkKeeps IsOrdered Ordered-filled (λ now st o. o) c w
work-Holds (init id host vm) o w t = elim o [ ]
work-Holds (ingest_baseline input) o w t = elim o [ ]
work-Holds (ingest_sync input) o w t = λ p. ingest_sync-Holds w input p
work-Holds status o w t = tt
work-Holds validate_state o w t = tt
work-Holds cutover_plan o w t = tt
work-Holds rollback_plan o w t = tt
work-Holds (seed_plan storage test_vnet) o w t = tt
work-Holds (apply_delta metadata payload target) o w t = tt
work-Holds (apply_proxmox_delta pve index metadata payload) o w t =
    λ script. apply_proxmox_delta-Holds w pve index metadata payload script
work-Holds (seed pve q) o w t = seed-Holds w pve q
work-Holds (mark_seeded node vmid test_vnet production_vnet verified) o w t =
    mark_seeded-Holds w node vmid test_vnet production_vnet verified
work-Holds (test_start pve) o w t = test_start-Holds w pve
work-Holds (activate_production pve) o w t = activate_production-Holds w pve
work-Holds (test_stop pve timeout) o w t = test_stop-Holds w pve timeout
work-Holds (mark_tested guest application) o w t = mark_tested-Holds w guest application
work-Holds (register_sync sequence reference bundle verified ready) o w t =
    register_sync-Holds w sequence reference bundle verified ready
work-Holds (authorize_cutover confirm) o w t = authorize_cutover-Holds w confirm
work-Holds (mark_source_stopped confirm) o w t = mark_source_stopped-Holds w t confirm
work-Holds (mark_rolled_back confirm) o w t = mark_rolled_back-Holds w confirm
work-Holds (close confirm) o w t = close-Holds w confirm
work-Holds (mark_final_sync verified) o w t = mark_final_sync-Holds w t verified
work-Holds (mark_cutover_complete network guest application) o w t =
    mark_cutover_complete-Holds w network guest application
work-Holds (begin_rollback pve confirm timeout) o w t = begin_rollback-Holds w pve confirm timeout

execute-Usable :
    (path : String) (c : Command) → IsOwn c → Keeps (Usable IsOrdered path) (execute path c)
unfolding execute
execute-Usable path (init id host vm) o = init-Ordered path id host vm
execute-Usable path (ingest_baseline input) o = elim o [ ]
execute-Usable path c o =
    execute-Works IsOrdered Ordered-filled (λ now st o. o) Unit path c (λ w t. work-Holds c o w t)

-- From a world that has no state file, or one whose state is well formed with its cutover in
-- order, every history of commands leads to such a world, whatever their order, their arguments,
-- the answers of the host and the errors. In order means: the destination can have been written to
-- only behind a final sync, the final sync was recorded only behind the source's stop, and the
-- stop only behind the authorization. `ingest-baseline` is not among the commands; the clock reads
-- texts that are not empty, and the temporary file is not the state file.
pub history-Usable :
    (path : String) (cs : List Command) (w : World)
    → AllOwn cs
    → Usable IsOrdered path w
    → Usable IsOrdered path (history path cs w)
unfolding history
history-Usable path [] w o u = u
history-Usable path (c ∷ cs) w o u =
    history-Usable path cs (main path c w).1 o.1 ((execute-Usable path c o.0).at w u)
