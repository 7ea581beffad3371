-- ===== src/Examples/Newer.antt =====
-- A state file of a newer program.
use hv2pve.Prelude.{◌≡◌, refl}
use hv2pve.Prelude.Int.{pos}
use hv2pve.Json.{str, int, Fields, end, field, nil, find, put, truthy}
use hv2pve.Exec.{ok, ◌>>=◌}
use hv2pve.State.Phase.{new, to_phase, phase_in}
use hv2pve.State.Record.{
  default_sync, default_destination, default_validation, default_cutover, MigrationState,
}
use hv2pve.State.Payload.{
  set_defaults, as_fields, as_items, normalize_section, normalize_payload, state_of_payload,
  from_dict,
}
use hv2pve.State.Payload.Read.{from_dict-IsValid}
use hv2pve.State.Validate.Laws.{IsValid}
use hv2pve.Examples.Fixtures.{world_with, no_files}
use hv2pve.Json.Number.{to_int}
use hv2pve.State.Validate.{validate}

abbrev newer_file : Fields
newer_file = field "migration_id" (str "m1") (field "schema_version" (int (pos 9)) end)

abbrev newer_read : MigrationState
newer_read = record {
  migration_id = str "m1";
  phase = new;
  source = end;
  baseline = end;
  destination = default_destination;
  sync = default_sync;
  validation = default_validation;
  cutover = default_cutover;
  history = nil;
  created_at_utc = str "2026-02-01";
  updated_at_utc = str "2026-02-01";
  schema_version = pos 2;
}

newer_loads : (from_dict newer_file (world_with no_files)).0 ≡ ok newer_read
unfolding from_dict normalize_payload normalize_section state_of_payload ◌>>=◌ as_fields find put
    to_int as_items validate truthy phase_in to_phase set_defaults
newer_loads = refl

from_dict-IsValid_example : IsValid newer_read × (newer_read.schema_version ≡ pos 2)
from_dict-IsValid_example =
    from_dict-IsValid newer_file (world_with no_files) newer_read newer_loads
