-- ===== src/Controller/Rollback.antt =====
-- The three commands of a rollback, on a host that answers: `begin-rollback`, `mark-rolled-back`
-- and `close`.
pub mod Begin
pub mod End
pub mod Reach
use hv2pve.Prelude.{String, ◌≡◌, ap, ◌∙◌, true, false, some, arith, eq_iff}
use hv2pve.Prelude.Int.{ℤ}
use hv2pve.Json.{Value, str, int, bool, Fields, find, get, value_eq}
use hv2pve.Exec.{ok}
use hv2pve.State.Record.{MigrationState, Session}
use hv2pve.State.Phase.{Phase, phase_in, cutover_phases}
use hv2pve.State.Transition.Laws.{PhaseSet}
use hv2pve.Controller.{confirmed}
use hv2pve.Controller.Work.Saves.{noted}

-- A cutover that can be rolled back.
pub record UnderWay (confirm : String) (vmid : ℤ) (st : MigrationState) : Type 0 where
  pub cutting_over : phase_in st.phase cutover_phases ≡ true
  pub source_vm : get "vm_name" st.source ≡ str confirm
  pub placed_at : find "proxmox_vmid" st.destination ≡ some (int vmid)

-- A phase of the rollback, in which the destination is on record as off.
pub record RollsBack (confirm : String) (phase : Phase) (st : MigrationState) : Type 0 where
  pub at_phase : st.phase ≡ phase
  pub source_vm : get "vm_name" st.source ≡ str confirm
  pub off : find "powered_on" st.destination ≡ some (bool false)

-- The source is on record as running.
abbrev pub SourceRuns : MigrationState → Type 0
SourceRuns st = find "state" st.source ≡ some (str "Running")

pub RollsBack-noted :
    {confirm : String} {phase : Phase} (event : String) (details : Fields) (s : Session)
    → RollsBack confirm phase s.state
    → RollsBack confirm phase (noted event details s).state
RollsBack-noted event details s h = record {
  at_phase = h.at_phase;
  source_vm = h.source_vm;
  off = h.off;
}

-- Behind a change of phase the sections are as they were.
pub RollsBack-entered :
    (confirm : String) (phase : Phase) (reason : Value) (s t : Session)
    → PhaseSet phase reason false s (ok tt, t)
    → get "vm_name" s.state.source ≡ str confirm
    → find "powered_on" s.state.destination ≡ some (bool false)
    → RollsBack confirm phase t.state
RollsBack-entered confirm phase reason s t p named off = record {
  at_phase = ap (λ st. st.phase) p.0;
  source_vm = ap (λ st. get "vm_name" st.source) p.0 ∙ named;
  off = ap (λ st. find "powered_on" st.destination) p.0 ∙ off;
}

pub confirmed-true :
    (confirm : String) (st : MigrationState)
    → get "vm_name" st.source ≡ str confirm
    → confirmed confirm st ≡ true
unfolding value_eq
confirmed-true confirm st h = rw h (ground (arith, eq_iff confirm confirm))
