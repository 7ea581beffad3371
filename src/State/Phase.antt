-- ===== src/State/Phase.antt =====
-- controller/state.py: the phases of a migration and the transitions that are allowed.
pub mod Moves
pub mod Order
use hv2pve.Prelude.{
  ℕ, String, ◌≡◌, refl, Bool, true, false, List, [], ◌∷◌, ◌||◌, ◌==◌, str_eq, if◌then◌else◌,
}
use hv2pve.Json.{Value, null, bool, int, str, arr, obj, value_eq}

-- `other v` is a phase read from a file that is none of `VALID_PHASES`.
pub data Phase : Type 0 where
  new discovered baseline_ready seeded tested syncing cutover_ready cutover_in_progress
        cutover_complete rollback_in_progress rolled_back closed failed :
      Phase
  other : Value → Phase

unfoldable pub phase_of_name : String → Phase
phase_of_name s =
    if str_eq s "NEW"
    then new
    else if str_eq s "DISCOVERED"
    then discovered
    else if str_eq s "BASELINE_READY"
    then baseline_ready
    else if str_eq s "SEEDED"
    then seeded
    else if str_eq s "TESTED"
    then tested
    else if str_eq s "SYNCING"
    then syncing
    else if str_eq s "CUTOVER_READY"
    then cutover_ready
    else if str_eq s "CUTOVER_IN_PROGRESS"
    then cutover_in_progress
    else if str_eq s "CUTOVER_COMPLETE"
    then cutover_complete
    else if str_eq s "ROLLBACK_IN_PROGRESS"
    then rollback_in_progress
    else if str_eq s "ROLLED_BACK"
    then rolled_back
    else if str_eq s "CLOSED"
    then closed
    else if str_eq s "FAILED"
    then failed
    else other (str s)

unfoldable pub to_phase : Value → Phase
unfolding phase_of_name
to_phase (str s) = phase_of_name s
to_phase null = other null
to_phase (bool b) = other (bool b)
to_phase (int n) = other (int n)
to_phase (arr vs) = other (arr vs)
to_phase (obj d) = other (obj d)

unfoldable pub phase_value : Phase → Value
phase_value new = str "NEW"
phase_value discovered = str "DISCOVERED"
phase_value baseline_ready = str "BASELINE_READY"
phase_value seeded = str "SEEDED"
phase_value tested = str "TESTED"
phase_value syncing = str "SYNCING"
phase_value cutover_ready = str "CUTOVER_READY"
phase_value cutover_in_progress = str "CUTOVER_IN_PROGRESS"
phase_value cutover_complete = str "CUTOVER_COMPLETE"
phase_value rollback_in_progress = str "ROLLBACK_IN_PROGRESS"
phase_value rolled_back = str "ROLLED_BACK"
phase_value closed = str "CLOSED"
phase_value failed = str "FAILED"
phase_value (other v) = v

-- The place of a phase in the order in which a migration goes through them.
unfoldable pub rank : Phase → ℕ
rank new = 0
rank discovered = 1
rank baseline_ready = 2
rank seeded = 3
rank tested = 4
rank syncing = 5
rank cutover_ready = 6
rank cutover_in_progress = 7
rank cutover_complete = 8
rank rollback_in_progress = 9
rank rolled_back = 10
rank closed = 11
rank failed = 12
rank (other v) = 13

-- `p == q` on phases.
unfoldable pub phase_eq : Phase → Phase → Bool
unfolding rank
phase_eq (other v) (other w) = value_eq v w
phase_eq p q = rank p == rank q

-- `p in {…}`
unfoldable pub phase_in : Phase → List Phase → Bool
unfolding phase_eq
phase_in p [] = false
phase_in p (q ∷ qs) = phase_eq p q || phase_in p qs

abbrev pub valid_phases : List Phase
valid_phases =
    new ∷ discovered ∷ baseline_ready ∷ seeded ∷ tested ∷ syncing ∷ cutover_ready
    ∷ cutover_in_progress ∷ cutover_complete ∷ rollback_in_progress ∷ rolled_back ∷ closed ∷ failed
    ∷ []

-- The phases that `validate` names in its three membership tests.
abbrev pub vmid_phases : List Phase
vmid_phases =
    seeded ∷ tested ∷ syncing ∷ cutover_ready ∷ cutover_in_progress ∷ cutover_complete
    ∷ rollback_in_progress ∷ []

abbrev pub tested_phases : List Phase
tested_phases = tested ∷ syncing ∷ cutover_ready ∷ cutover_in_progress ∷ cutover_complete ∷ []

abbrev pub cutover_phases : List Phase
cutover_phases = cutover_in_progress ∷ cutover_complete ∷ []

-- `ALLOWED_TRANSITIONS`; it has no entry for a phase outside `VALID_PHASES`.
unfoldable pub allowed_transitions : Phase → List Phase
allowed_transitions new = discovered ∷ baseline_ready ∷ failed ∷ []
allowed_transitions discovered = baseline_ready ∷ failed ∷ []
allowed_transitions baseline_ready = seeded ∷ failed ∷ []
allowed_transitions seeded = tested ∷ failed ∷ []
allowed_transitions tested = syncing ∷ cutover_ready ∷ failed ∷ []
allowed_transitions syncing = syncing ∷ cutover_ready ∷ failed ∷ []
allowed_transitions cutover_ready = syncing ∷ cutover_in_progress ∷ failed ∷ []
allowed_transitions cutover_in_progress = cutover_complete ∷ rollback_in_progress ∷ failed ∷ []
allowed_transitions cutover_complete = rollback_in_progress ∷ closed ∷ failed ∷ []
allowed_transitions rollback_in_progress = rolled_back ∷ failed ∷ []
allowed_transitions rolled_back = closed ∷ []
allowed_transitions failed =
    discovered ∷ baseline_ready ∷ seeded ∷ tested ∷ syncing ∷ cutover_ready ∷ rollback_in_progress
    ∷ closed ∷ []
allowed_transitions closed = []
allowed_transitions (other v) = []

-- The name of a phase reads back as the phase.
pub to_phase-phase_value :
    (p : Phase) → phase_in p valid_phases ≡ true → to_phase (phase_value p) ≡ p
unfolding to_phase phase_value phase_in phase_eq
to_phase-phase_value new h = refl
to_phase-phase_value discovered h = refl
to_phase-phase_value baseline_ready h = refl
to_phase-phase_value seeded h = refl
to_phase-phase_value tested h = refl
to_phase-phase_value syncing h = refl
to_phase-phase_value cutover_ready h = refl
to_phase-phase_value cutover_in_progress h = refl
to_phase-phase_value cutover_complete h = refl
to_phase-phase_value rollback_in_progress h = refl
to_phase-phase_value rolled_back h = refl
to_phase-phase_value closed h = refl
to_phase-phase_value failed h = refl
to_phase-phase_value (other v) h = cc
