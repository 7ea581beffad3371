-- ===== src/Controller/Work/Runs.antt =====
-- A command that loads the state file, works on it within an invariant, and saves it.
use hv2pve.Prelude.{◌+◌, String, ◌≡◌, refl, ◌∙◌, inl, inr, none, arith}
use hv2pve.Json.{obj}
use hv2pve.Exec.{file_not_found, Result, ok, err, Exec, Done, continue, ◌>>=◌, ◌>>◌}
use hv2pve.Exec.Keeps.{Keeps}
use hv2pve.World.{json, World}
use hv2pve.State.Record.{MigrationState, Session}
use hv2pve.State.Validate.Laws.{validate-IsValid}
use hv2pve.State.Payload.{as_dict}
use hv2pve.State.Payload.Laws.{filled, from_dict-as_dict}
use hv2pve.State.Storage.{save, read_json, load}
use hv2pve.State.Storage.Laws.{run_save_steps, load_json, stamped, save-ok, save_err}
use hv2pve.Controller.{on_state, saving}
use hv2pve.Controller.Work.{Works}
use hv2pve.Controller.Work.Stored.{IsTicking, Holding, Holding-same}

save_outside :
    (path : String) (s : Session)
    → ((save path s).1.world.clock ≡ s.world.clock)
      × ((save path s).1.world.temp_name ≡ s.world.temp_name)
unfolding save ◌>>=◌
save_outside path s = ground arith

load_missing :
    (path : String) (w : World) → w.files path ≡ none → load path w ≡ (err (file_not_found path), w)
unfolding load ◌>>=◌
load_missing path w e = rw (e, read_json) (ground arith)

-- An invariant that defaults and the stamp of a save keep.
module _ (Missing : Type 0) (P : MigrationState → Type 0)
    (filled_keeps : (st : MigrationState) → P st → P (filled st))
    (stamped_keeps : (now : String) (st : MigrationState) → P st → P (stamped now st)) where
  -- Work on an object within the invariant that leaves such a file.
  pub record Leads {A : Type 0} (path : String) (m : Exec Session A) : Type 0 where
    pub at :
        (w₀ : World)
        → Holding Missing P path w₀
        → (s : Session) → Works P w₀ s
        → Holding Missing P path (m s).1.world

  save-Holding :
      (path : String) (w₀ : World) (s : Session)
      → Holding Missing P path w₀
      → Works P w₀ s
      → Holding Missing P path (save path s).1.world
  save-Holding path w₀ s u h = go (save path s).0 refl
    where
      before : Holding Missing P path s.world
      before = Holding-same Missing P path w₀ s.world h.same u

      go : (r : Result Done) → (save path s).0 ≡ r → Holding Missing P path (save path s).1.world
      go (err e) f =
          let out = save_outside path s in
          Holding-same Missing P path s.world (save path s).1.world
            (record { files = (save_err path s e f).1; clock = out.0; temp_name = out.1 }) before
      go (ok u) f =
          let v = save-ok path s f in
          let st = stamped (s.world.clock s.world.ticks) s.state in
          rw v.1 (record {
            ticking = before.ticking;
            apart = before.apart;
            stored = inr (
              st,
              record {
                found =
                    (run_save_steps (s.world.temp_name path) path (json (obj (as_dict st)))
                      s.world.files before.apart).0;
                valid = validate-IsValid st v.0;
                current = refl;
                kept = stamped_keeps (s.world.clock s.world.ticks) s.state h.kept;
              },
            );
          })

  pub save-Leads : (path : String) → Leads path (save path)
  save-Leads path = record { at = λ w₀ u s h. save-Holding path w₀ s u h }

  pub Leads-bind :
      {A B : Type 0} (path : String) (m : Exec Session A) (f : A → Exec Session B)
      → ((w₀ : World) → IsTicking w₀ → Keeps (Works P w₀) m)
      → ((a : A) → Leads path (f a))
      → Leads path (m >>= f)
  unfolding ◌>>=◌
  Leads-bind {A} {B} path m f k l = record {
    at = λ w₀ u s h. go w₀ u (m s).0 (m s).1 ((k w₀ u.ticking).at s h);
  }
    where
      go :
          (w₀ : World)
          → Holding Missing P path w₀
          → (r : Result A) (t : Session) → Works P w₀ t
          → Holding Missing P path (continue r f t).1.world
      go w₀ u (ok a) t h = (l a).at w₀ u t h
      go w₀ u (err e) t h = Holding-same Missing P path w₀ t.world h.same u

  module _ (path : String) (body : Exec Session Done) where
    pub on_state-Holding : Leads path body → Keeps (Holding Missing P path) (on_state path body)
    unfolding on_state ◌>>=◌
    on_state-Holding k = record {
      at = λ w u. elim u.stored [
        | inl (m, e) ↦ rw (load_missing path w e) u
        | inr (st, h) ↦
            let w' : World = record w { ticks = w.ticks + 1 + 1 } in
            let read : load path w ≡ (ok (filled st), w') =
              load_json path w (as_dict st) h.found ∙ from_dict-as_dict st w h.valid h.current in
            let s : Session = record { world = w'; state = filled st } in
            rw read (
              k.at w u s (record {
                same = record { files = refl; clock = refl; temp_name = refl };
                kept = filled_keeps st h.kept;
              }))
      ];
    }

  -- A command that works on the state and saves it keeps the file within the invariant, if its work
  -- does.
  pub saving-Holding :
      (path : String) (body : Exec Session Done)
      → ((w₀ : World) → IsTicking w₀ → Keeps (Works P w₀) body)
      → Keeps (Holding Missing P path) (saving path body)
  saving-Holding path body k =
      on_state-Holding path (do body; save path)
        (Leads-bind path body (λ x. save path) k (λ x. save-Leads path))
