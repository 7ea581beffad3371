-- ===== src/Controller/Work/Execute.antt =====
-- A history of commands and an invariant of the stored state.
use hv2pve.Prelude.{String, List, [], ◌∷◌}
use hv2pve.Json.{Fields}
use hv2pve.Exec.Keeps.{Keeps, Keeps-gets, Keeps-bind}
use hv2pve.World.{World}
use hv2pve.State.Record.{MigrationState, Session}
use hv2pve.Controller.Command.{
  Command, init, ingest_baseline, ingest_sync, status, validate_state, cutover_plan, rollback_plan,
  seed_plan, seed, mark_seeded, apply_delta, test_start, activate_production, test_stop,
  mark_tested, apply_proxmox_delta, register_sync, authorize_cutover, mark_source_stopped,
  mark_rolled_back, close, mark_final_sync, mark_cutover_complete, begin_rollback,
}
use hv2pve.Controller.{now, saving}
use hv2pve.Controller.Work.{Works}
use hv2pve.State.Payload.Laws.{filled}
use hv2pve.State.Storage.Laws.{stamped}
use hv2pve.Exec.{Exec, Done, gets}
use hv2pve.Controller.Main.{execute, main, history}
use hv2pve.Controller.Work.Stored.{IsTicking, Holding}
use hv2pve.Controller.Work.Runs.{saving-Holding}
use hv2pve.Controller.Work.Commands.{
  cmd_status-SameFiles, validate-SameFiles, seed_plan-SameFiles, cutover_plan-SameFiles,
  rollback_plan-SameFiles, SameFiles-Holding, ingest_sync-Holding,
}
use hv2pve.Controller.Bundles.Laws.{apply_delta-SameFiles}
use hv2pve.Controller.Seeding.{cmd_seed}
use hv2pve.Controller.Stages.{cmd_mark_seeded, cmd_mark_tested, cmd_register_sync}
use hv2pve.Controller.Remote.{
  cmd_test_start, cmd_test_stop, cmd_apply_proxmox_delta, cmd_activate_production,
  cmd_begin_rollback,
}
use hv2pve.Controller.Cutover.{
  cmd_authorize_cutover, cmd_mark_source_stopped, cmd_mark_final_sync, cmd_mark_cutover_complete,
  cmd_mark_rolled_back, cmd_close,
}

-- The commands that take no state from outside and make none.
abbrev pub IsStep : Command → Type 0
IsStep (ingest_baseline input) = ⊥
IsStep (init id host vm) = ⊥
IsStep c = Unit

abbrev pub AllStep : List Command → Type 0
AllStep [] = Unit
AllStep (c ∷ cs) = IsStep c × AllStep cs

module _ (P : MigrationState → Type 0) (filled_keeps : (st : MigrationState) → P st → P (filled st))
    (stamped_keeps : (now : String) (st : MigrationState) → P st → P (stamped now st)) where
  -- The work of a command, behind the load and in front of the save, keeps the invariant.
  abbrev pub WorkKeeps : Command → World → Type 0
  WorkKeeps (init id host vm) w₀ = ⊥
  WorkKeeps (ingest_baseline input) w₀ = ⊥
  WorkKeeps (ingest_sync input) w₀ =
      (p : Fields) → Keeps (Works P w₀) (hv2pve.Controller.Ingest.ingest_sync input p)
  WorkKeeps status w₀ = Unit
  WorkKeeps validate_state w₀ = Unit
  WorkKeeps cutover_plan w₀ = Unit
  WorkKeeps rollback_plan w₀ = Unit
  WorkKeeps (seed_plan storage test_vnet) w₀ = Unit
  WorkKeeps (apply_delta metadata payload target) w₀ = Unit
  WorkKeeps (seed pve q) w₀ = Keeps (Works P w₀) (hv2pve.Controller.Seeding.seed pve q)
  WorkKeeps (mark_seeded node vmid test_vnet production_vnet verified) w₀ =
      Keeps (Works P w₀)
        (hv2pve.Controller.Stages.mark_seeded node vmid test_vnet production_vnet verified)
  WorkKeeps (test_start pve) w₀ = Keeps (Works P w₀) (hv2pve.Controller.Remote.test_start pve)
  WorkKeeps (activate_production pve) w₀ =
      Keeps (Works P w₀) (hv2pve.Controller.Remote.activate_production pve)
  WorkKeeps (test_stop pve timeout) w₀ =
      Keeps (Works P w₀) (hv2pve.Controller.Remote.test_stop pve timeout)
  WorkKeeps (mark_tested guest application) w₀ =
      Keeps (Works P w₀) (hv2pve.Controller.Stages.mark_tested guest application)
  WorkKeeps (apply_proxmox_delta pve index metadata payload) w₀ =
      (script : String)
      → Keeps (Works P w₀)
          (hv2pve.Controller.Remote.apply_proxmox_delta pve index metadata payload script)
  WorkKeeps (register_sync sequence reference bundle verified ready) w₀ =
      Keeps (Works P w₀)
        (hv2pve.Controller.Stages.register_sync sequence reference bundle verified ready)
  WorkKeeps (authorize_cutover confirm) w₀ =
      Keeps (Works P w₀) (hv2pve.Controller.Cutover.authorize_cutover confirm)
  WorkKeeps (mark_source_stopped confirm) w₀ =
      Keeps (Works P w₀) (hv2pve.Controller.Cutover.mark_source_stopped confirm)
  WorkKeeps (mark_rolled_back confirm) w₀ =
      Keeps (Works P w₀) (hv2pve.Controller.Cutover.mark_rolled_back confirm)
  WorkKeeps (close confirm) w₀ = Keeps (Works P w₀) (hv2pve.Controller.Cutover.close confirm)
  WorkKeeps (mark_final_sync verified) w₀ =
      Keeps (Works P w₀) (hv2pve.Controller.Cutover.mark_final_sync verified)
  WorkKeeps (mark_cutover_complete network guest application) w₀ =
      Keeps (Works P w₀) (hv2pve.Controller.Cutover.mark_cutover_complete network guest application)
  WorkKeeps (begin_rollback pve confirm timeout) w₀ =
      Keeps (Works P w₀) (hv2pve.Controller.Remote.begin_rollback pve confirm timeout)

  module _ (Missing : Type 0) (path : String) where
    saving-Works :
        (body : Exec Session Done)
        → ((w₀ : World) → IsTicking w₀ → Keeps (Works P w₀) body)
        → Keeps (Holding Missing P path) (saving path body)
    saving-Works body k = saving-Holding Missing P filled_keeps stamped_keeps path body k

    pub execute-Works :
        (c : Command)
        → ((w₀ : World) → IsTicking w₀ → WorkKeeps c w₀)
        → Keeps (Holding Missing P path) (execute path c)
    unfolding execute cmd_seed cmd_mark_seeded cmd_test_start cmd_activate_production cmd_test_stop
        cmd_mark_tested cmd_apply_proxmox_delta cmd_register_sync cmd_authorize_cutover
        cmd_mark_source_stopped cmd_mark_rolled_back cmd_close cmd_mark_final_sync
        cmd_mark_cutover_complete cmd_begin_rollback
    execute-Works (init id host vm) k = record { at = λ w u. elim (k w u.ticking) [ ] }
    execute-Works (ingest_baseline input) k = record { at = λ w u. elim (k w u.ticking) [ ] }
    execute-Works (ingest_sync input) k =
        ingest_sync-Holding Missing P filled_keeps stamped_keeps path input (λ w₀ p t. k w₀ t p)
    execute-Works status k = SameFiles-Holding Missing P path _ (λ w. cmd_status-SameFiles w path)
    execute-Works validate_state k =
        SameFiles-Holding Missing P path _ (λ w. validate-SameFiles w path)
    execute-Works cutover_plan k =
        SameFiles-Holding Missing P path _ (λ w. cutover_plan-SameFiles w path)
    execute-Works rollback_plan k =
        SameFiles-Holding Missing P path _ (λ w. rollback_plan-SameFiles w path)
    execute-Works (seed_plan storage test_vnet) k =
        SameFiles-Holding Missing P path _ (λ w. seed_plan-SameFiles w path storage test_vnet)
    execute-Works (apply_delta metadata payload target) k =
        SameFiles-Holding Missing P path _ (λ w. apply_delta-SameFiles w metadata payload target)
    execute-Works (apply_proxmox_delta pve index metadata payload) k =
        Keeps-bind (gets (λ w. w.script_path)) _ (Keeps-gets _)
          λ script. saving-Works _ (λ w t. k w t script)
    execute-Works (seed pve q) k = saving-Works _ k
    execute-Works (mark_seeded node vmid test_vnet production_vnet verified) k = saving-Works _ k
    execute-Works (test_start pve) k = saving-Works _ k
    execute-Works (activate_production pve) k = saving-Works _ k
    execute-Works (test_stop pve timeout) k = saving-Works _ k
    execute-Works (mark_tested guest application) k = saving-Works _ k
    execute-Works (register_sync sequence reference bundle verified ready) k = saving-Works _ k
    execute-Works (authorize_cutover confirm) k = saving-Works _ k
    execute-Works (mark_source_stopped confirm) k = saving-Works _ k
    execute-Works (mark_rolled_back confirm) k = saving-Works _ k
    execute-Works (close confirm) k = saving-Works _ k
    execute-Works (mark_final_sync verified) k = saving-Works _ k
    execute-Works (mark_cutover_complete network guest application) k = saving-Works _ k
    execute-Works (begin_rollback pve confirm timeout) k = saving-Works _ k

    -- Over a history of commands.
    pub history-Works :
        ((c : Command) → IsStep c → (w₀ : World) → IsTicking w₀ → WorkKeeps c w₀)
        → (cs : List Command) (w : World) → AllStep cs
        → Holding Missing P path w
        → Holding Missing P path (history path cs w)
    unfolding history main
    history-Works k [] w o u = u
    history-Works k (c ∷ cs) w o u =
        history-Works k cs (main path c w).1 o.1 ((execute-Works c (k c o.0)).at w u)
