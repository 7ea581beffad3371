-- ===== src/State/Validate/Laws.antt =====
-- controller/state.py: the conditions of a well-formed state, and `validate`.
use hv2pve.Prelude.{◌≤◌, ◌≡◌, ◌↔◌, true, false, arith}
use hv2pve.Prelude.Int.{pos, ◌≤ℤ◌}
use hv2pve.Json.{get, truthy, value_eq}
use hv2pve.Exec.{ok}
use hv2pve.State.Phase.Order.{phase_in_valid, phase_in_vmid, phase_in_tested, phase_in_cutover}
use hv2pve.State.Phase.{rank}
use hv2pve.State.Record.{MigrationState}
use hv2pve.State.Validate.{validate}

-- Well-formedness, by the place of the phase in the order of a migration.
pub record IsValid (st : MigrationState) : Type 0 where
  pub named : truthy st.migration_id ≡ true
  pub known : rank st.phase ≤ 12
  pub supported : st.schema_version ≤ℤ pos 2
  pub placed :
      3 ≤ rank st.phase → rank st.phase ≤ 9 → truthy (get "proxmox_vmid" st.destination) ≡ true
  pub booted : 4 ≤ rank st.phase → rank st.phase ≤ 8 → truthy (get "tested" st.destination) ≡ true
  pub authorized :
      7 ≤ rank st.phase → rank st.phase ≤ 8 → truthy (get "authorized" st.cutover) ≡ true
  pub verified :
      truthy (get "tested" st.destination) ≡ true
      → truthy (get "isolated_boot_verified" st.validation) ≡ true
  pub isolated :
      truthy (get "production_vnet" st.destination) ≡ true
      → truthy (get "test_vnet" st.destination) ≡ true
      → value_eq (get "production_vnet" st.destination) (get "test_vnet" st.destination) ≡ false

pub validate-IsValid : (st : MigrationState) → validate st ≡ ok tt → IsValid st
unfolding validate
validate-IsValid st h = ground (
  arith,
  phase_in_valid st.phase,
  phase_in_vmid st.phase,
  phase_in_tested st.phase,
  phase_in_cutover st.phase,
)

pub IsValid-validate : (st : MigrationState) → IsValid st → validate st ≡ ok tt
unfolding validate
IsValid-validate st v = ground (
  arith,
  phase_in_valid st.phase,
  phase_in_vmid st.phase,
  phase_in_tested st.phase,
  phase_in_cutover st.phase,
)

-- `validate` accepts a state exactly when it is well formed.
pub validate_iff : (st : MigrationState) → (validate st ≡ ok tt) ↔ IsValid st
validate_iff st = (validate-IsValid st, IsValid-validate st)
