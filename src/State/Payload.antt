-- ===== src/State/Payload.antt =====
-- controller/state.py: `_normalize_payload`, `from_dict`, `from_hyperv_baseline` and `to_dict`.
-- A payload whose `source`, `baseline` or `history` is of another JSON type than the schema's is
-- refused here; the code takes it and fails when the part is first used.
pub mod Read
pub mod Defaults
pub mod Laws
use hv2pve.Prelude.{String, true, not, none, some, [], ◌∷◌, if◌then◌else◌}
use hv2pve.Prelude.Int.{pos, min_ℤ}
use hv2pve.Json.{
  Value, null, bool, int, str, arr, obj, Items, nil, Fields, end, field, find, put, or_else,
  set_default,
}
use hv2pve.Json.Number.{to_int}
use hv2pve.Exec.{
  key_error, attribute_error, Result, ok, err, and_then, Exec, Done, pure, lift, gets, ◌>>=◌, ◌>>◌,
}
use hv2pve.World.{World, utc_now}
use hv2pve.State.Phase.{
  baseline_ready, seeded, tested, syncing, cutover_ready, to_phase, phase_value, phase_in,
}
use hv2pve.State.Record.{
  schema_version_supported, default_sync, default_destination, default_validation, default_cutover,
  MigrationState, Session, in_world, set_state,
}
use hv2pve.State.Validate.{validate}
use hv2pve.State.Transition.{set_phase}

-- `for key, value in defaults.items(): section.setdefault(key, value)`
unfoldable pub set_defaults : Fields → Fields → Fields
set_defaults end d = d
set_defaults (field k v defaults) d = set_defaults defaults (set_default k v d)

unfoldable pub as_fields : Value → Result Fields
as_fields (obj d) = ok d
as_fields null = err (attribute_error "not a dict")
as_fields (bool b) = err (attribute_error "not a dict")
as_fields (int n) = err (attribute_error "not a dict")
as_fields (str s) = err (attribute_error "not a dict")
as_fields (arr vs) = err (attribute_error "not a dict")

unfoldable pub as_items : Value → Result Items
as_items (arr vs) = ok vs
as_items null = err (attribute_error "not a list")
as_items (bool b) = err (attribute_error "not a list")
as_items (int n) = err (attribute_error "not a list")
as_items (str s) = err (attribute_error "not a list")
as_items (obj d) = err (attribute_error "not a list")

-- `normalized.setdefault(name, {})`, and the defaults of that section.
unfoldable pub normalize_section : String → Fields → Fields → Result Fields
normalize_section name defaults p =
    and_then (as_fields (or_else (find name p) (obj end)))
      (λ d. ok (put name (obj (set_defaults defaults d)) p))

unfoldable pub normalize_payload : Fields → Result Fields
normalize_payload p = and_then (normalize_section "destination" default_destination p) λ p₁.
    and_then (normalize_section "sync" default_sync p₁) λ p₂.
      and_then (normalize_section "validation" default_validation p₂) λ p₃.
        and_then (normalize_section "cutover" default_cutover p₃) λ p₄.
          let p₅ = set_default "history" (arr nil) p₄ in
          and_then (to_int (or_else (find "schema_version" p₅) (int (pos 1))))
            λ version. ok (put "schema_version" (int (min_ℤ version schema_version_supported)) p₅)

-- `p[k]`
abbrev pub item : String → Fields → Result Value
item k p = elim (find k p) [ none ↦ err (key_error k) | some v ↦ ok v ]

-- The constructor call of `from_dict`, on a payload that is normalized.
unfoldable pub state_of_payload : Fields → String → String → Result MigrationState
state_of_payload p created updated = and_then (item "migration_id" p) λ id.
    and_then (as_fields (or_else (find "source" p) (obj end))) λ source.
      and_then (as_fields (or_else (find "baseline" p) (obj end))) λ baseline.
        and_then (as_fields (or_else (find "destination" p) (obj end))) λ destination.
          and_then (as_fields (or_else (find "sync" p) (obj end))) λ sync.
            and_then (as_fields (or_else (find "validation" p) (obj end))) λ validation.
              and_then (as_fields (or_else (find "cutover" p) (obj end))) λ cutover.
                and_then (as_items (or_else (find "history" p) (arr nil))) λ history. ok (record {
                  migration_id = id;
                  phase = to_phase (or_else (find "phase" p) (str "NEW"));
                  source = source;
                  baseline = baseline;
                  destination = destination;
                  sync = sync;
                  validation = validation;
                  cutover = cutover;
                  history = history;
                  created_at_utc = or_else (find "created_at_utc" p) (str created);
                  updated_at_utc = or_else (find "updated_at_utc" p) (str updated);
                  schema_version = schema_version_supported;
                })

unfoldable pub from_dict : Fields → Exec World MigrationState
unfolding utc_now
from_dict payload = do
  p ← lift (normalize_payload payload)
  created ← utc_now
  updated ← utc_now
  st ← lift (state_of_payload p created updated)
  lift (validate st)
  pure st

-- `from_hyperv_baseline`, behind `from_dict`.
unfoldable pub enter_baseline : Exec Session Done
enter_baseline s =
    if phase_in s.state.phase (baseline_ready ∷ seeded ∷ tested ∷ syncing ∷ cutover_ready ∷ [])
    then (ok tt, s)
    else set_phase baseline_ready (str "Hyper-V baseline ingested") true s

-- `asdict`
unfoldable pub as_dict : MigrationState → Fields
as_dict st = field "migration_id" st.migration_id (
    field "phase" (phase_value st.phase) (
      field "source" (obj st.source) (
        field "baseline" (obj st.baseline) (
          field "destination" (obj st.destination) (
            field "sync" (obj st.sync) (
              field "validation" (obj st.validation) (
                field "cutover" (obj st.cutover) (
                  field "history" (arr st.history) (
                    field "created_at_utc" st.created_at_utc (
                      field "updated_at_utc" st.updated_at_utc
                        (field "schema_version" (int st.schema_version) end)))))))))))

unfoldable pub to_dict : Exec Session Fields
unfolding utc_now
to_dict = do
  now ← in_world utc_now
  set_state (λ st. record st { updated_at_utc = str now })
  set_state (λ st. record st { schema_version = schema_version_supported })
  st ← gets (λ s. s.state)
  lift (validate st)
  pure (as_dict st)
