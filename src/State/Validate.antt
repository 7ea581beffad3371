-- ===== src/State/Validate.antt =====
-- controller/state.py: `MigrationState.validate`.
pub mod Laws
use hv2pve.Prelude.{◌&&◌, not, if◌then◌else◌}
use hv2pve.Prelude.Int.{ltb_ℤ}
use hv2pve.Json.{arr, obj, get, truthy, value_eq}
use hv2pve.Exec.{Error, value_error, type_error, Result, ok, err, Done}
use hv2pve.State.Phase.{
  Phase, tested, other, phase_in, valid_phases, vmid_phases, tested_phases, cutover_phases,
}
use hv2pve.State.Record.{schema_version_supported, MigrationState}

-- `phase not in VALID_PHASES` cannot hash a list or a dict.
unfoldable pub invalid_phase : Phase → Error
invalid_phase (other (arr vs)) = type_error "unhashable type"
invalid_phase (other (obj d)) = type_error "unhashable type"
invalid_phase _ = value_error "invalid migration phase"

unfoldable pub validate : MigrationState → Result Done
validate st =
    let prod = get "production_vnet" st.destination in
    let test = get "test_vnet" st.destination in
    if not (truthy st.migration_id)
    then err (value_error "migration_id is required")
    else if not (phase_in st.phase valid_phases)
    then err (invalid_phase st.phase)
    else if ltb_ℤ schema_version_supported st.schema_version
    then err (value_error "state schema is newer than supported")
    else if phase_in st.phase vmid_phases && not (truthy (get "proxmox_vmid" st.destination))
    then err (value_error "phase requires destination.proxmox_vmid")
    else if phase_in st.phase tested_phases && not (truthy (get "tested" st.destination))
    then err (value_error "phase requires an isolated destination test")
    else if phase_in st.phase cutover_phases && not (truthy (get "authorized" st.cutover))
    then err (value_error "cutover requires explicit authorization")
    else if truthy (get "tested" st.destination)
        && not (truthy (get "isolated_boot_verified" st.validation))
    then err (value_error "destination.tested requires validation.isolated_boot_verified")
    else if truthy prod && truthy test && value_eq prod test
    then err (value_error "production_vnet and test_vnet must not be identical")
    else ok tt
