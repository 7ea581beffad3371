-- ===== src/Controller/CutoverRun/Reach.antt =====
-- A whole cutover on the state file: six commands, one behind the other.
use hv2pve.Prelude.{String, ◌≡◌, ◌∙◌, ◌≢◌, true, [], ◌∷◌}
use hv2pve.Prelude.Int.{ℤ}
use hv2pve.World.{World}
use hv2pve.State.Record.{MigrationState}
use hv2pve.State.Phase.{Phase, cutover_in_progress, cutover_complete}
use hv2pve.State.Payload.Laws.{filled, in_destination, IsValid-filled}
use hv2pve.Controller.Command.{
  activate_production, authorize_cutover, mark_source_stopped, close, mark_final_sync,
  mark_cutover_complete,
}
use hv2pve.Controller.Main.{execute, main, history}
use hv2pve.Controller.Work.Stored.{IsTicking, Written}
use hv2pve.Controller.Work.Saves.{loaded, Leaves, saving-Leaves}
use hv2pve.Controller.Phases.Commands.{
  close-Follows, mark_cutover_complete-Follows, activate_production-Follows,
}
use hv2pve.Proxmox.{ProxmoxSsh}
use hv2pve.Controller.CutoverRun.{Course, Course-filled, Course-stamped}
use hv2pve.Controller.CutoverRun.Source.{authorized_keys, final_keys}
use hv2pve.Controller.CutoverRun.Activation.{Serves, Powered, activate_production_succeeds}
use hv2pve.Controller.CutoverRun.Completion.{
  Ended, mark_cutover_complete_succeeds, close_after_cutover,
}
use hv2pve.Controller.Cutover.{cmd_mark_cutover_complete, cmd_close}
use hv2pve.Controller.Remote.{cmd_activate_production}
use hv2pve.Controller.CutoverRun.Steps.{
  Ready, InProgress, authorize-Onward, stop-Onward, sync-Onward,
}

Serves-same :
    (pve : ProxmoxSsh) (vmid : ℤ) (w w' : World)
    → w'.remote ≡ w.remote
    → w'.ran ≡ w.ran
    → Serves pve vmid w
    → Serves pve vmid w'
Serves-same pve vmid w w' e f o = record {
  answers = rw e (o.answers);
  stopped = rw (e, f) (o.stopped);
  reports = rw e (o.reports);
  network = rw e (o.network);
}

module _ (confirm : String) (vmid : ℤ) where
  -- With the destination running.
  abbrev Running : Phase → MigrationState → Type 0
  Running phase st = Course confirm vmid phase authorized_keys st × Powered st

  module _ (path : String) where
    activate-Leaves :
        (pve : ProxmoxSsh) (w : World) (st : MigrationState)
        → Written (InProgress confirm vmid final_keys) path w st
        → w.temp_name path ≢ path
        → Serves pve vmid w
        → Leaves (Running cutover_in_progress) path w (execute path (activate_production pve) w).1
    unfolding execute cmd_activate_production
    activate-Leaves pve w st h apart o =
        saving-Leaves (InProgress confirm vmid final_keys) (Running cutover_in_progress) path _ w st
          h apart (λ start. activate_production-Follows start w pve)
          (λ at st q. (Course-stamped cutover_in_progress authorized_keys at st q.0, q.1))
          (activate_production_succeeds confirm vmid pve (loaded w st) (IsValid-filled st h.valid)
            (Course-filled cutover_in_progress final_keys st h.kept)
            (record {
              answers = o.answers;
              stopped = o.stopped;
              reports = o.reports;
              network = o.network;
            }))

    Running-filled :
        (phase : Phase) (st : MigrationState) → Running phase st → Running phase (filled st)
    Running-filled phase st q =
        (Course-filled phase authorized_keys st q.0, in_destination st "powered_on" ∙ q.1)

    complete-Leaves :
        (w : World) (st : MigrationState)
        → Written (Running cutover_in_progress) path w st
        → w.temp_name path ≢ path
        → Leaves
            (Running cutover_complete)
            path
            w
            (execute path (mark_cutover_complete true true true) w).1
    unfolding execute cmd_mark_cutover_complete
    complete-Leaves w st h apart =
        let q = Running-filled cutover_in_progress st h.kept in
        saving-Leaves (Running cutover_in_progress) (Running cutover_complete) path _ w st h apart
          (λ start. mark_cutover_complete-Follows start w true true true)
          (λ at st q. (Course-stamped cutover_complete authorized_keys at st q.0, q.1))
          (mark_cutover_complete_succeeds confirm vmid (loaded w st) (IsValid-filled st h.valid) q.0
            q.1)

    end-Leaves :
        (w : World) (st : MigrationState)
        → Written (Running cutover_complete) path w st
        → w.temp_name path ≢ path
        → Leaves Ended path w (execute path (close confirm) w).1
    unfolding execute cmd_close
    end-Leaves w st h apart =
        let q = Running-filled cutover_complete st h.kept in
        saving-Leaves (Running cutover_complete) Ended path _ w st h apart
          (λ start. close-Follows start w confirm)
          (λ at st q. record { at_phase = q.at_phase; powered = q.powered })
          (close_after_cutover confirm vmid (loaded w st) (IsValid-filled st h.valid) q.0 q.1)

-- From a state file in CUTOVER_READY that the gate of `authorize-cutover` lets pass, whose
-- destination and two networks are recorded and apart, the six commands of a cutover, given in
-- order and confirmed with the name of the source VM, end the migration: the file then holds a
-- well-formed state in the phase CLOSED with the destination recorded running. The host is one that
-- answers every command, reports the destination stopped at first, can always tell its state, and
-- has a network for it; the clock reads texts that are not empty, and the temporary file is not the
-- state file.
pub history-Ended :
    (path confirm : String) (pve : ProxmoxSsh) (vmid : ℤ) (w : World) (st : MigrationState)
    → Written (Ready confirm vmid) path w st
    → w.temp_name path ≢ path
    → IsTicking w
    → Serves pve vmid w
    → (last : MigrationState) × Written Ended path
        (history path
          (authorize_cutover confirm
            ∷ mark_source_stopped confirm
            ∷ mark_final_sync true
            ∷ activate_production pve
            ∷ mark_cutover_complete true true true
            ∷ close confirm
            ∷ [])
          w)
        last
unfolding history main
history-Ended path confirm pve vmid w st h apart ticking o =
    let ((st1, h1, apart1), clock1, remote1, ran1) =
      authorize-Onward confirm vmid path w st h apart in
    let w1 = (execute path (authorize_cutover confirm) w).1 in
    let ticking1 : IsTicking w1 = rw clock1 ticking in
    let ((st2, h2, apart2), clock2, remote2, ran2) =
      stop-Onward confirm vmid path w1 st1 h1 apart1 ticking1 in
    let w2 = (execute path (mark_source_stopped confirm) w1).1 in
    let ticking2 : IsTicking w2 = rw clock2 ticking1 in
    let ((st3, h3, apart3), clock3, remote3, ran3) =
      sync-Onward confirm vmid path w2 st2 h2 apart2 ticking2 in
    let w3 = (execute path (mark_final_sync true) w2).1 in
    let serves = Serves-same pve vmid w w3 (remote3 ∙ remote2 ∙ remote1) (ran3 ∙ ran2 ∙ ran1) o in
    let (st4, h4, apart4) = activate-Leaves confirm vmid path pve w3 st3 h3 apart3 serves in
    let (st5, h5, apart5) = complete-Leaves confirm vmid path _ st4 h4 apart4 in
    let (st6, h6, apart6) = end-Leaves confirm vmid path _ st5 h5 apart5 in (st6, h6)
