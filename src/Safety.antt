-- ===== src/Safety.antt =====
-- controller/safety.py: the gates before a cutover.
use hv2pve.Prelude.{Bool, ◌&&◌, not, if◌then◌else◌}
use hv2pve.Json.{get, truthy}
use hv2pve.Exec.{safety_error, Result, ok, err, and_then, Done}
use hv2pve.State.Record.{MigrationState}

unfoldable pub require_isolated_test : MigrationState → Result Done
require_isolated_test st =
    if not (truthy (get "tested" st.destination))
    then err (safety_error "destination has not passed isolated test boot")
    else if not (truthy (get "isolated_boot_verified" st.validation))
    then err (safety_error "isolated boot validation flag is not set")
    else ok tt

unfoldable pub require_cutover_ready : MigrationState → Result Done
unfolding require_isolated_test
require_cutover_ready st = and_then (require_isolated_test st) λ _.
    if not (truthy (get "last_sync_verified" st.validation))
    then err (safety_error "latest synchronization has not been verified")
    else if not (truthy (get "authoritative_reference_point" st.sync))
    then err (safety_error "no authoritative Hyper-V reference point is recorded")
    else if truthy (get "powered_on" st.destination)
    then err (safety_error "destination must be powered off before cutover begins")
    else ok tt

unfoldable pub require_production_network_safe : MigrationState → Bool → Result Done
require_production_network_safe st source_running =
    if source_running && truthy (get "powered_on" st.destination)
    then err (safety_error "source and destination cannot both be live on production identity")
    else ok tt
