-- ===== src/Controller/SyncRound.antt =====
-- One round of synchronization: `ingest-sync` and then `register-sync`.
pub mod Ingested
pub mod Committed
pub mod Reach
use hv2pve.Prelude.{String, ◌≡◌, true, false, ◌&&◌, not, some, [], ◌∷◌}
use hv2pve.Prelude.Int.{ℤ, pos, leb_ℤ}
use hv2pve.Json.{Value, str, int, bool, null, Fields, find, get, truthy, or_value, value_eq}
use hv2pve.Exec.{ok}
use hv2pve.State.Record.{MigrationState}
use hv2pve.State.Phase.{tested, syncing, cutover_ready, phase_in}
use hv2pve.Json.Number.{to_int}
use hv2pve.Controller.Ingest.{new_reference}

-- A state in a phase of synchronization, with its sequence on record.
pub record Synchronizes (m : ℤ) (st : MigrationState) : Type 0 where
  pub phase_syncs : phase_in st.phase (tested ∷ syncing ∷ cutover_ready ∷ []) ≡ true
  pub recorded : find "sequence" st.sync ≡ some (int m)

-- The metadata of a synchronization for a state: its number, which is newer, and its reference
-- point.
pub record Announces (m n : ℤ) (reference : String) (id : Value) (p : Fields) : Type 0 where
  pub same_migration :
      (truthy (or_value (get "migration_id" p) (get "MigrationId" p))
        && not (value_eq (or_value (get "migration_id" p) (get "MigrationId" p)) id))
      ≡ false
  pub number :
      to_int (or_value (get "sequence" p) (or_value (get "Sequence" p) (int (pos 0)))) ≡ ok n
  pub newer : leb_ℤ n m ≡ false
  pub reference_point : new_reference p ≡ ok (str reference)
  pub named : truthy (str reference) ≡ true

-- The synchronization waits for its registration.
pub record Awaits (m n : ℤ) (reference : String) (st : MigrationState) : Type 0 where
  pub phase_syncs : phase_in st.phase (tested ∷ syncing ∷ cutover_ready ∷ []) ≡ true
  pub recorded : find "sequence" st.sync ≡ some (int m)
  pub newer : leb_ℤ n m ≡ false
  pub pending : find "pending_reference_point" st.sync ≡ some (str reference)
  pub named : truthy (str reference) ≡ true

-- The synchronization is the last one, and none is pending.
pub record Registered (n : ℤ) (reference : String) (st : MigrationState) : Type 0 where
  pub at_phase : st.phase ≡ cutover_ready
  pub recorded : find "sequence" st.sync ≡ some (int n)
  pub reference_is : find "authoritative_reference_point" st.sync ≡ some (str reference)
  pub none_pending : find "pending_reference_point" st.sync ≡ some null
  pub verified : find "last_sync_verified" st.validation ≡ some (bool true)
