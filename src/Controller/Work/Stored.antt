-- ===== src/Controller/Work/Stored.antt =====
-- The state file along a history of commands, and an invariant of the state in it.
use hv2pve.Prelude.{ℕ, String, ◌≡◌, ◌≢◌, ◌⊎◌, inl, inr, true, none, some}
use hv2pve.Json.{obj, str, truthy}
use hv2pve.World.{json, World}
use hv2pve.World.Outside.{SameFiles}
use hv2pve.State.Record.{MigrationState}
use hv2pve.State.Validate.Laws.{IsValid}
use hv2pve.State.Payload.{as_dict}
use hv2pve.Prelude.Int.{pos}

-- Every look at the clock reads a text that is not empty.
abbrev pub IsTicking : World → Type 0
IsTicking w = (n : ℕ) → truthy (str (w.clock n)) ≡ true

module _ (P : MigrationState → Type 0) where
  -- The state file holds a well-formed state within the invariant.
  pub record Written (path : String) (w : World) (st : MigrationState) : Type 0 where
    pub found : w.files path ≡ some (json (obj (as_dict st)))
    pub valid : IsValid st
    pub current : st.schema_version ≡ pos 2
    pub kept : P st

module _ (Missing : Type 0) (P : MigrationState → Type 0) where
  abbrev pub Stored : String → World → Type 0
  Stored path w = (Missing × (w.files path ≡ none)) ⊎ ((st : MigrationState) × Written P path w st)

  -- What a history relies on: the clock reads texts, and `mkstemp` makes a name of its own. That
  -- the state file is missing is among the cases if `Missing` holds.
  pub record Holding (path : String) (w : World) : Type 0 where
    pub ticking : IsTicking w
    pub apart : w.temp_name path ≢ path
    pub stored : Stored path w

  Written-same :
      (path : String) (w₀ w : World) (st : MigrationState)
      → SameFiles w₀ w
      → Written P path w₀ st
      → Written P path w st
  Written-same path w₀ w st s h = record {
    found = rw (s.files) h.found;
    valid = h.valid;
    current = h.current;
    kept = h.kept;
  }

  pub Holding-same :
      (path : String) (w₀ w : World) → SameFiles w₀ w → Holding path w₀ → Holding path w
  Holding-same path w₀ w s u = record {
    ticking = rw (s.clock) u.ticking;
    apart = rw (s.temp_name) u.apart;
    stored = elim u.stored [
      | inl (m, e) ↦ inl (m, rw (s.files) e)
      | inr (st, h) ↦ inr (st, Written-same path w₀ w st s h)
    ];
  }

-- There is no state file yet, or it holds a state within the invariant.
abbrev pub Usable : (MigrationState → Type 0) → String → World → Type 0
Usable P path w = Holding Unit P path w

-- The state file is there, and holds a state within the invariant.
abbrev pub Recorded : (MigrationState → Type 0) → String → World → Type 0
Recorded P path w = Holding ⊥ P path w
