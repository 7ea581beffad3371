-- ===== src/Controller/Rollback/Reach.antt =====
-- The commands of a rollback on the state file, one behind the other.
use hv2pve.Prelude.{String, ◌≢◌, false, [], ◌∷◌}
use hv2pve.Json.{int, bool}
use hv2pve.World.{World}
use hv2pve.State.Record.{default_destination, MigrationState}
use hv2pve.State.Phase.{Phase, rollback_in_progress, rolled_back, closed}
use hv2pve.State.Storage.Laws.{stamped}
use hv2pve.State.Payload.Laws.{filled, IsValid-filled}
use hv2pve.Proxmox.{ProxmoxSsh}
use hv2pve.Controller.Work.Stored.{Written}
use hv2pve.Prelude.Int.{ℤ}
use hv2pve.State.Payload.Defaults.{find-set_defaults}
use hv2pve.Controller.Main.{execute, main, history}
use hv2pve.Controller.Rollback.{UnderWay, RollsBack, SourceRuns}
use hv2pve.Controller.Rollback.Begin.{begin_rollback_succeeds}
use hv2pve.Controller.Rollback.End.{mark_rolled_back_succeeds, close_succeeds}
use hv2pve.Proxmox.Obeys.{Obeys}
use hv2pve.Controller.Phases.Commands.{
  mark_rolled_back-Follows, close-Follows, begin_rollback-Follows,
}
use hv2pve.Controller.Command.{mark_rolled_back, close, begin_rollback}
use hv2pve.Controller.Cutover.{cmd_mark_rolled_back, cmd_close}
use hv2pve.Controller.Remote.{cmd_begin_rollback}
use hv2pve.Controller.Work.Saves.{loaded, Leaves, saving-Leaves}

module _ (confirm : String) where
  UnderWay-filled :
      (vmid : ℤ) (st : MigrationState)
      → UnderWay confirm vmid st
      → UnderWay confirm vmid (filled st)
  UnderWay-filled vmid st h = record {
    cutting_over = h.cutting_over;
    source_vm = h.source_vm;
    placed_at =
        find-set_defaults "proxmox_vmid" (int vmid) default_destination st.destination h.placed_at;
  }

  RollsBack-filled :
      (phase : Phase) (st : MigrationState)
      → RollsBack confirm phase st
      → RollsBack confirm phase (filled st)
  RollsBack-filled phase st h = record {
    at_phase = h.at_phase;
    source_vm = h.source_vm;
    off = find-set_defaults "powered_on" (bool false) default_destination st.destination h.off;
  }

  RollsBack-stamped :
      (phase : Phase) (at : String) (st : MigrationState)
      → RollsBack confirm phase st
      → RollsBack confirm phase (stamped at st)
  RollsBack-stamped phase at st h = record {
    at_phase = h.at_phase;
    source_vm = h.source_vm;
    off = h.off;
  }

  -- The rollback is at this phase with the source on record as running.
  abbrev pub Restored : Phase → MigrationState → Type 0
  Restored phase st = RollsBack confirm phase st × SourceRuns st

  module _ (path : String) where
    begin-Leaves :
        (pve : ProxmoxSsh) (vmid timeout : ℤ) (w : World) (st : MigrationState)
        → Written (UnderWay confirm vmid) path w st
        → w.temp_name path ≢ path
        → Obeys pve vmid timeout w.remote
        → Leaves
            (RollsBack confirm rollback_in_progress)
            path
            w
            (execute path (begin_rollback pve confirm timeout) w).1
    unfolding execute cmd_begin_rollback
    begin-Leaves pve vmid timeout w st h apart o =
        saving-Leaves (UnderWay confirm vmid) (RollsBack confirm rollback_in_progress) path _ w st h
          apart (λ start. begin_rollback-Follows start w pve confirm timeout)
          (RollsBack-stamped rollback_in_progress)
          (begin_rollback_succeeds confirm vmid pve timeout (loaded w st)
            (IsValid-filled st h.valid) (UnderWay-filled vmid st h.kept) o)

    rolled_back-Leaves :
        (w : World) (st : MigrationState)
        → Written (RollsBack confirm rollback_in_progress) path w st
        → w.temp_name path ≢ path
        → Leaves (Restored rolled_back) path w (execute path (mark_rolled_back confirm) w).1
    unfolding execute cmd_mark_rolled_back
    rolled_back-Leaves w st h apart =
        saving-Leaves (RollsBack confirm rollback_in_progress) (Restored rolled_back) path _ w st h
          apart (λ start. mark_rolled_back-Follows start w confirm)
          (λ at st q. (RollsBack-stamped rolled_back at st q.0, q.1))
          (mark_rolled_back_succeeds confirm (loaded w st) (IsValid-filled st h.valid)
            (RollsBack-filled rollback_in_progress st h.kept))

    close-Leaves :
        (w : World) (st : MigrationState)
        → Written (Restored rolled_back) path w st
        → w.temp_name path ≢ path
        → Leaves (Restored closed) path w (execute path (close confirm) w).1
    unfolding execute cmd_close
    close-Leaves w st h apart =
        saving-Leaves (Restored rolled_back) (Restored closed) path _ w st h apart
          (λ start. close-Follows start w confirm)
          (λ at st q. (RollsBack-stamped closed at st q.0, q.1))
          (close_succeeds confirm (loaded w st) (IsValid-filled st h.valid)
            (RollsBack-filled rolled_back st h.kept.0) h.kept.1)

-- From a state file with an authorized cutover under way or complete, whose destination is
-- recorded, the three commands of a rollback, confirmed with the name of the source VM, end the
-- migration: the file then holds a well-formed state in the phase CLOSED, with the destination
-- recorded off and the source running. The host is one that answers every command, tells the state
-- of the destination, and has it stopped behind a shutdown; the temporary file is not the state
-- file.
pub history-Restored :
    (path confirm : String) (pve : ProxmoxSsh) (vmid timeout : ℤ) (w : World) (st : MigrationState)
    → Written (UnderWay confirm vmid) path w st
    → w.temp_name path ≢ path
    → Obeys pve vmid timeout w.remote
    → (end : MigrationState) × Written
        (Restored confirm closed)
        path
        (history path
          (begin_rollback pve confirm timeout ∷ mark_rolled_back confirm ∷ close confirm ∷ [])
          w)
        end
unfolding history main
history-Restored path confirm pve vmid timeout w st h apart o =
    let (st1, h1, apart1) = begin-Leaves confirm path pve vmid timeout w st h apart o in
    let (st2, h2, apart2) = rolled_back-Leaves confirm path _ st1 h1 apart1 in
    let (st3, h3, apart3) = close-Leaves confirm path _ st2 h2 apart2 in (st3, h3)
