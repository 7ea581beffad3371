-- ===== src/State/Transition.antt =====
-- controller/state.py: `MigrationState.set_phase`.
pub mod Laws
use hv2pve.Prelude.{Bool, ◌||◌, not, if◌then◌else◌}
use hv2pve.Json.{Value, str, end, field}
use hv2pve.Exec.{
  value_error, key_error, Result, ok, err, Exec, Done, pure, lift, gets, raise_if, unless, ◌>>=◌,
  ◌>>◌,
}
use hv2pve.World.{utc_now}
use hv2pve.State.Phase.{
  Phase, new, other, phase_value, phase_eq, phase_in, valid_phases, allowed_transitions,
}
use hv2pve.State.Record.{Session, in_world, set_state, record_event}
use hv2pve.State.Validate.{invalid_phase, validate}

-- `phase not in ALLOWED_TRANSITIONS[self.phase]`, with the `KeyError` of a phase not in the table.
unfoldable pub check_transition : Phase → Phase → Result Done
check_transition (other v) phase = err (key_error "phase")
check_transition current phase =
    if phase_in phase (allowed_transitions current)
    then ok tt
    else err (value_error "illegal migration transition")

-- The `try`/`except` around `self.validate()`, which puts the old phase back.
unfoldable pub validate_or_restore : Phase → Exec Session Done
validate_or_restore old s = elim (validate s.state) [
  | ok u ↦ (ok tt, s)
  | err e ↦ (err e, record s { state = record (s.state) { phase = old } })
]

-- The part of `set_phase` behind its two tests.
unfoldable pub enter_phase : Phase → Phase → Value → Exec Session Done
unfolding validate_or_restore record_event utc_now
enter_phase old phase reason = do
  set_state (λ st. record st { phase = phase })
  now ← in_world utc_now
  set_state (λ st. record st { updated_at_utc = str now })
  validate_or_restore old
  if phase_eq old phase
      then pure tt
      else record_event "phase_changed" (
          field "old" (phase_value old)
            (field "new" (phase_value phase) (field "reason" reason end)))

unfoldable pub set_phase : Phase → Value → Bool → Exec Session Done
set_phase phase reason force = do
  raise_if (not (phase_in phase valid_phases)) (invalid_phase phase)
  old ← gets (λ s. s.state.phase)
  unless (force || phase_eq phase old) (lift (check_transition old phase))
  enter_phase old phase reason
