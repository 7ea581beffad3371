-- ===== src/State/Transition/Laws.antt =====
-- controller/state.py: `set_phase` on each of its branches.
use hv2pve.Prelude.{◌+◌, String, ◌≡◌, refl, ◌⊎◌, Bool, true, arith, if◌then◌else◌, le→leb}
use hv2pve.Json.{Value, obj, str, end, field}
use hv2pve.Exec.{Result, ok, err, Done, ◌>>=◌}
use hv2pve.State.Phase.{
  Phase, new, other, phase_value, rank, phase_eq, phase_in, allowed_transitions,
}
use hv2pve.State.Record.{MigrationState, Session, append}
use hv2pve.State.Validate.Laws.{IsValid, validate-IsValid, IsValid-validate}
use hv2pve.State.Transition.{check_transition, enter_phase, set_phase}
use hv2pve.State.Phase.Order.{phase_in_valid}

-- An edge of the table of transitions, or no move, or a forced one.
abbrev pub MayMove : Phase → Phase → Bool → Type 0
MayMove old phase force =
    (force ≡ true) ⊎ (phase_eq phase old ≡ true) ⊎ (phase_in phase (allowed_transitions old) ≡ true)

-- The event that records a change of phase at a time.
abbrev pub phase_changed : String → Phase → Phase → Value → Value
phase_changed at old phase reason = obj (
    field "at_utc" (str at) (
      field "event" (str "phase_changed") (
        field "details"
          (obj (
            field "old" (phase_value old)
              (field "new" (phase_value phase) (field "reason" reason end))))
          end)))

abbrev pub PhaseSet : Phase → Value → Bool → Session → Result Done × Session → Type 0
PhaseSet phase reason force s (ok u, t) =
    (t.state ≡ record (s.state) {
      phase = phase;
      history =
          if phase_eq s.state.phase phase
          then s.state.history
          else append s.state.history
              (phase_changed (s.world.clock (s.world.ticks + 1)) s.state.phase phase reason);
      updated_at_utc = t.state.updated_at_utc;
    })
    × IsValid t.state
    × MayMove s.state.phase phase force
    × (t.world ≡ record (s.world) { ticks = t.world.ticks })
PhaseSet phase reason force s (err e, t) =
    (t.state ≡ record (s.state) { updated_at_utc = t.state.updated_at_utc })
    × (t.world ≡ record (s.world) { ticks = t.world.ticks })

check_transition-ok :
    (old phase : Phase)
    → check_transition old phase ≡ ok tt
    → phase_in phase (allowed_transitions old) ≡ true
unfolding check_transition
check_transition-ok (other v) phase h = cc
check_transition-ok new phase h = ground arith
check_transition-ok old phase h = ground arith

enter_phase-PhaseSet :
    (phase : Phase) (reason : Value) (force : Bool) (s : Session)
    → MayMove s.state.phase phase force
    → PhaseSet phase reason force s (enter_phase s.state.phase phase reason s)
unfolding enter_phase ◌>>=◌
enter_phase-PhaseSet phase reason force s may = ground (
  arith,
  validate-IsValid
      (record (s.state) { phase = phase; updated_at_utc = str (s.world.clock s.world.ticks) }),
)

-- `set_phase` returns only for a move that may be made: an edge of the table, no move at all, or a
-- forced one. The state is then well formed and has the phase, the event of the change is appended
-- to its history if the phase is another one, and but for the update time the rest of the state is
-- as it was. Where it raises, the update time alone can have changed. The world has changed in the
-- number of looks at the clock alone.
pub set_phase-PhaseSet :
    (phase : Phase) (reason : Value) (force : Bool) (s : Session)
    → PhaseSet phase reason force s (set_phase phase reason force s)
unfolding set_phase ◌>>=◌
set_phase-PhaseSet phase reason force s =
    ground
      (arith, check_transition-ok s.state.phase phase, enter_phase-PhaseSet phase reason force s)

allowed-check_transition :
    (old phase : Phase)
    → phase_in phase (allowed_transitions old) ≡ true
    → check_transition old phase ≡ ok tt
unfolding check_transition allowed_transitions phase_in
allowed-check_transition (other v) phase h = absurd (ground (arith, h))
allowed-check_transition new phase h = ground (arith, h)
allowed-check_transition old phase h = ground (arith, h)

-- The object once it has its new phase and a new time.
abbrev pub entered : Phase → Session → MigrationState
entered phase s = record (s.state) {
  phase = phase;
  updated_at_utc = str (s.world.clock s.world.ticks);
}

set_phase_returns :
    (phase : Phase) (reason : Value) (force : Bool) (s : Session)
    → phase_in phase (allowed_transitions s.state.phase) ≡ true
    → IsValid (entered phase s)
    → (set_phase phase reason force s).0 ≡ ok tt
unfolding set_phase enter_phase ◌>>=◌
set_phase_returns phase reason force s allowed valid = ground (
  arith,
  allowed-check_transition s.state.phase phase allowed,
  IsValid-validate (entered phase s) valid,
  phase_in_valid phase,
  le→leb (rank phase) 12 valid.known,
)

returned_at :
    (phase : Phase) (reason : Value) (force : Bool) (s : Session) (out : Result Done × Session)
    → PhaseSet phase reason force s out
    → out.0 ≡ ok tt
    → (t : Session) × (out ≡ (ok tt, t)) × PhaseSet phase reason force s (ok tt, t)
returned_at phase reason force s (ok u, t) p h = (t, refl, p)
returned_at phase reason force s (err e, t) p h = absurd (ground arith)

-- An edge of the table to a state that is well formed is taken.
pub set_phase_allowed :
    (phase : Phase) (reason : Value) (force : Bool) (s : Session)
    → phase_in phase (allowed_transitions s.state.phase) ≡ true
    → IsValid (entered phase s)
    → (t : Session) × (set_phase phase reason force s ≡ (ok tt, t))
      × PhaseSet phase reason force s (ok tt, t)
set_phase_allowed phase reason force s allowed valid =
    returned_at phase reason force s (set_phase phase reason force s)
      (set_phase-PhaseSet phase reason force s)
      (set_phase_returns phase reason force s allowed valid)
