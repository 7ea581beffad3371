-- ===== src/State/Record.antt =====
-- controller/state.py: `MigrationState`, its defaults, and a command's local copy of it.
use hv2pve.Prelude.{String, true, false}
use hv2pve.Prelude.Int.{ℤ, pos}
use hv2pve.Json.{Value, null, bool, int, str, obj, Items, nil, cons, Fields, end, field}
use hv2pve.Exec.{Exec, Done, pure, modify, ◌>>=◌, ◌>>◌}
use hv2pve.World.{World, utc_now}
use hv2pve.State.Phase.{Phase, new}

abbrev pub schema_version_supported : ℤ
schema_version_supported = pos 2

abbrev pub default_sync : Fields
default_sync = field "mode" (str "reference-point-export") (
    field "rct_implemented" (bool true) (
      field "native_rct_acceleration" (bool false) (
        field "authoritative_reference_point" null (
          field "pending_reference_point" null (
            field "sequence" (int (pos 0)) (
              field "last_successful_sync_utc" null
                (field "last_bundle" null (field "disks" (obj end) end))))))))

abbrev pub default_destination : Fields
default_destination = field "proxmox_node" null (
    field "proxmox_vmid" null (
      field "production_vnet" null (
        field "test_vnet" null (
          field "tested" (bool false)
            (field "powered_on" (bool false) (field "disk_map" (obj end) end))))))

abbrev pub default_validation : Fields
default_validation = field "baseline_verified" (bool false) (
    field "isolated_boot_verified" (bool false) (
      field "last_sync_verified" (bool false) (
        field "network_identity_verified" (bool false) (
          field "guest_boot_verified" (bool false)
            (field "application_verified" (bool false) end)))))

abbrev pub default_cutover : Fields
default_cutover = field "authorized" (bool false) (
    field "authorized_at_utc" null (
      field "source_stopped_at_utc" null (
        field "final_sync_completed_at_utc" null (
          field "destination_started_at_utc" null (
            field "rollback_deadline_utc" null
              (field "destination_writes_possible" (bool false) end))))))

pub record MigrationState : Type 0 where
  pub migration_id : Value
  pub phase : Phase
  pub source : Fields
  pub baseline : Fields
  pub destination : Fields
  pub sync : Fields
  pub validation : Fields
  pub cutover : Fields
  pub history : Items
  pub created_at_utc : Value
  pub updated_at_utc : Value
  pub schema_version : ℤ

-- A command at work: the world, and the state object that it has loaded.
pub record Session : Type 0 where
  pub world : World
  pub state : MigrationState

abbrev pub in_world : {A : Type 0} → Exec World A → Exec Session A
in_world m s = let (r, w) = m s.world in (r, record s { world = w })

-- Runs a method on a state object that is dropped at the end.
abbrev pub with_state : {A : Type 0} → MigrationState → Exec Session A → Exec World A
with_state st m w = let (r, s) = m (record { world = w; state = st }) in (r, s.world)

abbrev pub set_state : (MigrationState → MigrationState) → Exec Session Done
set_state f = modify (λ s. record s { state = f s.state })

-- `history.append(…)`
unfoldable pub append : Items → Value → Items
append nil v = cons v nil
append (cons w vs) v = cons w (append vs v)

-- `MigrationState(migration_id=…)`: the defaults of the other fields.
unfoldable pub new_state : Value → Exec World MigrationState
unfolding utc_now
new_state id = do
  created ← utc_now
  updated ← utc_now
  pure (record {
    migration_id = id;
    phase = new;
    source = end;
    baseline = end;
    destination = default_destination;
    sync = default_sync;
    validation = default_validation;
    cutover = default_cutover;
    history = nil;
    created_at_utc = str created;
    updated_at_utc = str updated;
    schema_version = schema_version_supported;
  })

-- `record_event`
unfoldable pub record_event : String → Fields → Exec Session Done
unfolding utc_now
record_event event details = do
  at ← in_world utc_now
  set_state (λ st. record st {
    history = append st.history (
        obj (
          field "at_utc" (str at) (field "event" (str event) (field "details" (obj details) end))));
  })
  now ← in_world utc_now
  set_state (λ st. record st { updated_at_utc = str now })
