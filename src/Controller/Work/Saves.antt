-- ===== src/Controller/Work/Saves.antt =====
-- Commands that return: what their work leaves in the object, and their save in the file.
use hv2pve.Prelude.{◌+◌, String, ◌≡◌, refl, sym, ◌∙◌, ◌≢◌, arith}
use hv2pve.Json.{obj, str, Fields, end, field}
use hv2pve.Exec.{ok, Exec, Done, ◌>>=◌}
use hv2pve.Exec.Keeps.{Keeps}
use hv2pve.World.{json, World}
use hv2pve.World.Outside.{SameFiles}
use hv2pve.State.Record.{MigrationState, Session, append}
use hv2pve.State.Phase.{Phase}
use hv2pve.State.Phase.Moves.{stay}
use hv2pve.State.Storage.Laws.{run_save_steps, load_json, stamped, saved, save_valid}
use hv2pve.State.Validate.Laws.{IsValid, IsValid-validate}
use hv2pve.State.Payload.{as_dict}
use hv2pve.State.Payload.Laws.{filled, from_dict-as_dict}
use hv2pve.Controller.{on_state, now, saving}
use hv2pve.Controller.Work.Stored.{Written}
use hv2pve.Controller.Phases.{Follows}
use mathlib.Core.Path.{subst}

-- An object behind `record_event`.
abbrev pub noted : String → Fields → Session → Session
noted event details s = record {
  world = record (s.world) { ticks = s.world.ticks + 1 + 1 };
  state = record (s.state) {
    history = append s.state.history (
        obj (
          field "at_utc" (str (s.world.clock s.world.ticks))
            (field "event" (str event) (field "details" (obj details) end))));
    updated_at_utc = str (s.world.clock (s.world.ticks + 1));
  };
}

pub IsValid-noted :
    (event : String) (details : Fields) (s : Session)
    → IsValid s.state
    → IsValid (noted event details s).state
IsValid-noted event details s v = record {
  named = v.named;
  known = v.known;
  supported = v.supported;
  placed = v.placed;
  booted = v.booted;
  authorized = v.authorized;
  verified = v.verified;
  isolated = v.isolated;
}

pub IsValid-stamped : (now : String) (st : MigrationState) → IsValid st → IsValid (stamped now st)
IsValid-stamped now st v = record {
  named = v.named;
  known = v.known;
  supported = omega arith;
  placed = v.placed;
  booted = v.booted;
  authorized = v.authorized;
  verified = v.verified;
  isolated = v.isolated;
}

-- What a command works on, once it has loaded the file.
abbrev pub loaded : World → MigrationState → Session
loaded w st = record { world = record w { ticks = w.ticks + 1 + 1 }; state = filled st }

-- The work of a command from a state file to an object that may be saved.
abbrev pub Succeeds :
    (MigrationState → Type 0) → Exec Session Done → World → MigrationState → Type 0
Succeeds Q body w st =
    (t : Session) × (body (loaded w st) ≡ (ok tt, t)) × IsValid t.state × Q t.state

-- The file that the command leaves.
abbrev pub Leaves : (MigrationState → Type 0) → String → World → World → Type 0
Leaves Q path w w' = (st : MigrationState) × Written Q path w' st × (w'.temp_name path ≢ path)

-- A save behind such work leaves the file.
pub saved-Leaves :
    (Q : MigrationState → Type 0) (path : String) (w : World) (t : Session)
    → SameFiles w t.world
    → w.temp_name path ≢ path
    → ((now : String) (st : MigrationState) → Q st → Q (stamped now st))
    → IsValid t.state
    → Q t.state
    → Leaves Q path w (saved path t).world
saved-Leaves Q path w t same apart stamped_keeps v q =
    let apart' : t.world.temp_name path ≢ path = rw (same.temp_name) apart in
    let now = t.world.clock t.world.ticks in
    (
      stamped now t.state,
      record {
        found =
            (run_save_steps (t.world.temp_name path) path
              (json (obj (as_dict (stamped now t.state)))) t.world.files apart').0;
        valid = IsValid-stamped now t.state v;
        current = refl;
        kept = stamped_keeps now t.state q;
      },
      apart',
    )

module _ (P Q : MigrationState → Type 0) (path : String) (body : Exec Session Done) where
  pub saving_runs :
      (w : World) (st : MigrationState) (t : Session)
      → Written P path w st
      → body (loaded w st) ≡ (ok tt, t)
      → IsValid t.state
      → saving path body w ≡ (ok tt, (saved path t).world)
  unfolding on_state ◌>>=◌
  saving_runs w st t h e v =
      let read = load_json path w (as_dict st) h.found ∙ from_dict-as_dict st w h.valid h.current in
      let valid =
        IsValid-validate (stamped (t.world.clock t.world.ticks) t.state)
          (IsValid-stamped (t.world.clock t.world.ticks) t.state v) in
      rw (read, e, save_valid path t valid) refl

  pub saving-Leaves :
      (w : World) (st : MigrationState)
      → Written P path w st
      → w.temp_name path ≢ path
      → ((start : Phase) → Keeps (Follows start w) body)
      → ((now : String) (st : MigrationState) → Q st → Q (stamped now st))
      → Succeeds Q body w st
      → Leaves Q path w (saving path body w).1
  saving-Leaves w st h apart keeps stamped_keeps (t, e, v, q) =
      let works =
        (keeps st.phase).at (loaded w st) (record {
          same = record { files = refl; clock = refl; temp_name = refl };
          kept = stay;
        }) in
      let same = subst (λ out. SameFiles w out.1.world) e works.same in
      subst (λ out. Leaves Q path w out.1) (sym (saving_runs w st t h e v))
        (saved-Leaves Q path w t same apart stamped_keeps v q)
