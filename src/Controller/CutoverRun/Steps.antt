-- ===== src/Controller/CutoverRun/Steps.antt =====
-- The three commands of a cutover that only touch the state, on the state file.
use hv2pve.Prelude.{String, ◌≡◌, sym, ap, ◌≢◌, true, List, []}
use hv2pve.Prelude.Int.{ℤ}
use hv2pve.Exec.{Exec, Done}
use hv2pve.World.{World}
use hv2pve.World.Outside.{SameFiles}
use hv2pve.State.Record.{MigrationState, Session}
use hv2pve.State.Phase.{cutover_ready, cutover_in_progress}
use hv2pve.State.Storage.Laws.{stamped}
use hv2pve.State.Payload.Laws.{IsValid-filled}
use hv2pve.Controller.Command.{authorize_cutover, mark_source_stopped, mark_final_sync}
use hv2pve.Controller.Main.{execute}
use hv2pve.Controller.{saving}
use hv2pve.Controller.Work.Stored.{IsTicking, Written}
use hv2pve.Controller.Work.Saves.{loaded, Leaves, saved-Leaves, saving_runs}
use hv2pve.Controller.Cutover.{cmd_authorize_cutover, cmd_mark_source_stopped, cmd_mark_final_sync}
use hv2pve.Controller.CutoverRun.{Course, Cleared, Cleared-filled, Course-filled, Course-stamped}
use hv2pve.Controller.CutoverRun.Source.{
  Advances, authorized_keys, stopped_keys, final_keys, authorize_succeeds,
  mark_source_stopped_succeeds,
}
use hv2pve.Controller.CutoverRun.FinalSync.{mark_final_sync_succeeds}
use mathlib.Core.Path.{subst}

-- The file that a command leaves, with the clock and the host as they were.
abbrev pub Onward : (MigrationState → Type 0) → String → World → World → Type 0
Onward Q path w w' =
    Leaves Q path w w' × (w'.clock ≡ w.clock) × (w'.remote ≡ w.remote) × (w'.ran ≡ w.ran)

module _ (P Q : MigrationState → Type 0) (path : String) (body : Exec Session Done) where
  saving-Onward :
      (w : World) (st : MigrationState)
      → Written P path w st
      → w.temp_name path ≢ path
      → ((now : String) (st : MigrationState) → Q st → Q (stamped now st))
      → Advances Q body (loaded w st)
      → Onward Q path w (saving path body w).1
  saving-Onward w st h apart stamped_keeps (t, e, v, q, onward) =
      let same : SameFiles w t.world = record {
        files = ap (λ x. x.files) onward;
        clock = ap (λ x. x.clock) onward;
        temp_name = ap (λ x. x.temp_name) onward;
      } in
      subst (λ out. Onward Q path w out.1) (sym (saving_runs P Q path body w st t h e v))
        (
          saved-Leaves Q path w t same apart stamped_keeps v q,
          ap (λ x. x.clock) onward,
          ap (λ x. x.remote) onward,
          ap (λ x. x.ran) onward,
        )

module _ (confirm : String) (vmid : ℤ) where
  -- A cutover may be authorized.
  abbrev pub Ready : MigrationState → Type 0
  Ready st = Course confirm vmid cutover_ready [] st × Cleared st

  abbrev pub InProgress : List String → MigrationState → Type 0
  InProgress keys st = Course confirm vmid cutover_in_progress keys st

  module _ (path : String) where
    pub authorize-Onward :
        (w : World) (st : MigrationState)
        → Written Ready path w st
        → w.temp_name path ≢ path
        → Onward (InProgress authorized_keys) path w (execute path (authorize_cutover confirm) w).1
    unfolding execute cmd_authorize_cutover
    authorize-Onward w st h apart =
        saving-Onward Ready (InProgress authorized_keys) path _ w st h apart
          (Course-stamped cutover_in_progress authorized_keys)
          (authorize_succeeds confirm vmid (loaded w st) (IsValid-filled st h.valid)
            (Course-filled cutover_ready [] st h.kept.0) (Cleared-filled st h.kept.1))

    pub stop-Onward :
        (w : World) (st : MigrationState)
        → Written (InProgress authorized_keys) path w st
        → w.temp_name path ≢ path
        → IsTicking w
        → Onward (InProgress stopped_keys) path w (execute path (mark_source_stopped confirm) w).1
    unfolding execute cmd_mark_source_stopped
    stop-Onward w st h apart ticking =
        saving-Onward (InProgress authorized_keys) (InProgress stopped_keys) path _ w st h apart
          (Course-stamped cutover_in_progress stopped_keys)
          (mark_source_stopped_succeeds confirm vmid (loaded w st) (IsValid-filled st h.valid)
            ticking (Course-filled cutover_in_progress authorized_keys st h.kept))

    pub sync-Onward :
        (w : World) (st : MigrationState)
        → Written (InProgress stopped_keys) path w st
        → w.temp_name path ≢ path
        → IsTicking w
        → Onward (InProgress final_keys) path w (execute path (mark_final_sync true) w).1
    unfolding execute cmd_mark_final_sync
    sync-Onward w st h apart ticking =
        saving-Onward (InProgress stopped_keys) (InProgress final_keys) path _ w st h apart
          (Course-stamped cutover_in_progress final_keys)
          (mark_final_sync_succeeds confirm vmid (loaded w st) (IsValid-filled st h.valid) ticking
            (Course-filled cutover_in_progress stopped_keys st h.kept))
