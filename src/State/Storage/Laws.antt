-- ===== src/State/Storage/Laws.antt =====
-- controller/state.py: the file calls of `save`, and `load` behind it.
use hv2pve.Prelude.{
  ℕ, zero, suc, ◌+◌, String, ◌≡◌, refl, ap, ◌∙◌, ◌≢◌, ◌⊎◌, inl, inr, none, some, arith, eq_iff,
}
use hv2pve.Prelude.Lists.{take}
use hv2pve.Exec.{Error, Result, ok, err, Done, ◌>>=◌}
use hv2pve.World.{Document, json, FileSystem, World}
use hv2pve.State.Record.{schema_version_supported, MigrationState, Session}
use hv2pve.State.Payload.Laws.{filled, from_dict-as_dict}
use hv2pve.State.Storage.{run_steps, save_steps, save, read_json, load}
use hv2pve.Json.{obj, str, Fields}
use hv2pve.State.Validate.{validate}
use hv2pve.State.Payload.{from_dict, as_dict}
use hv2pve.State.Validate.Laws.{validate-IsValid}

module _ (temp target : String) (payload : Document) (files : FileSystem) where
  abbrev after : ℕ → FileSystem
  after n = run_steps (take n (save_steps temp target payload)) files

  -- Wherever the file calls of `save` are cut short, if the temporary file is not the target, the
  -- target holds its old text or the whole new one, and no file but the target and the temporary
  -- one has changed.
  pub save_steps_atomic :
      temp ≢ target
      → (n : ℕ)
      → ((after n target ≡ files target) ⊎ (after n target ≡ some payload))
        × ((p : String) → p ≢ temp → p ≢ target → after n p ≡ files p)
  unfolding run_steps
  save_steps_atomic ne zero = ground (arith, eq_iff temp target)
  save_steps_atomic ne (suc zero) = (
    ground (arith, eq_iff temp target, eq_iff target target, eq_iff temp temp),
    λ p pt pq. ground (arith, eq_iff temp p, eq_iff target p, eq_iff temp temp),
  )
  save_steps_atomic ne (suc (suc zero)) = (
    ground (arith, eq_iff temp target, eq_iff target target, eq_iff temp temp),
    λ p pt pq. ground (arith, eq_iff temp p, eq_iff target p, eq_iff temp temp),
  )
  save_steps_atomic ne (suc (suc (suc zero))) = (
    ground (arith, eq_iff temp target, eq_iff target target, eq_iff temp temp),
    λ p pt pq. ground (arith, eq_iff temp p, eq_iff target p, eq_iff temp temp),
  )
  save_steps_atomic ne (suc (suc (suc (suc zero)))) = (
    ground (arith, eq_iff temp target, eq_iff target target, eq_iff temp temp),
    λ p pt pq. ground (arith, eq_iff temp p, eq_iff target p, eq_iff temp temp),
  )
  save_steps_atomic ne (suc (suc (suc (suc (suc n))))) = (
    ground (arith, eq_iff temp target, eq_iff target target, eq_iff temp temp),
    λ p pt pq. ground (arith, eq_iff temp p, eq_iff target p, eq_iff temp temp),
  )

  pub run_save_steps :
      temp ≢ target
      → let done = run_steps (save_steps temp target payload) files in
        (done target ≡ some payload) × (done temp ≡ none)
  unfolding run_steps
  run_save_steps ne =
      ground (arith, eq_iff temp target, eq_iff temp temp, eq_iff target target, eq_iff target temp)

-- A file that holds a JSON object is read as `from_dict` of it.
pub load_json :
    (path : String) (w : World) (d : Fields)
    → w.files path ≡ some (json (obj d))
    → load path w ≡ from_dict d w
unfolding load ◌>>=◌
load_json path w d e = rw (e, read_json) (ground arith)

-- The state that `save` renders at a time.
abbrev pub stamped : String → MigrationState → MigrationState
stamped now st = record st { updated_at_utc = str now; schema_version = schema_version_supported }

-- The world and the object after a `save` that returns.
abbrev pub saved : String → Session → Session
saved path s =
    let st = stamped (s.world.clock s.world.ticks) s.state in
    record {
      world = record (s.world) {
        ticks = s.world.ticks + 1;
        files =
            run_steps (save_steps (s.world.temp_name path) path (json (obj (as_dict st))))
              s.world.files;
      };
      state = st;
    }

module _ (path : String) (s : Session) where
  abbrev st : MigrationState
  st = stamped (s.world.clock s.world.ticks) s.state

  pub save_valid : validate st ≡ ok tt → save path s ≡ (ok tt, saved path s)
  unfolding save ◌>>=◌
  save_valid valid = rw valid

  -- `save` returns only where the stamped state is valid, and then has written exactly that state.
  pub save-ok :
      (save path s).0 ≡ ok tt → (validate st ≡ ok tt) × (save path s ≡ (ok tt, saved path s))
  save-ok done =
      let v : validate st ≡ ok tt = unfold save ◌>>=◌ in ground arith in (v, save_valid v)

  pub save_err :
      (e : Error)
      → (save path s).0 ≡ err e
      → (validate st ≡ err e) × ((save path s).1.world.files ≡ s.world.files)
  unfolding save ◌>>=◌
  save_err e h = ground arith

  -- A `save` either returns, and then the stamped state passes `validate` and the files are those that
  -- the file calls for that state leave; or it raises, and then what `validate` raises for the stamped
  -- state, and has written no file.
  pub save_lem :
      ((validate st ≡ ok tt)
        × ((save path s).0 ≡ ok tt)
        × ((save path s).1.world.files
            ≡ run_steps
                (save_steps (s.world.temp_name path) path (json (obj (as_dict st))))
                s.world.files))
      ⊎ ((e : Error) × (validate st ≡ err e)
          × ((save path s).0 ≡ err e)
          × ((save path s).1.world.files ≡ s.world.files))
  save_lem = go (save path s).0 refl
    where
      go :
          (r : Result Done)
          → (save path s).0 ≡ r
          → ((validate st ≡ ok tt)
              × ((save path s).0 ≡ ok tt)
              × ((save path s).1.world.files
                  ≡ run_steps
                      (save_steps (s.world.temp_name path) path (json (obj (as_dict st))))
                      s.world.files))
            ⊎ ((e : Error) × (validate st ≡ err e)
                × ((save path s).0 ≡ err e)
                × ((save path s).1.world.files ≡ s.world.files))
      go (ok u) h = let v = save-ok h in inl (v.0, h, ap (λ x. x.1.world.files) v.1)
      go (err e) h = let v = save_err e h in inr (e, v.0, h, v.1)

  -- Behind a `save` that returns, `load` returns the saved state, stamped with the time and the
  -- supported schema and with the defaults filled in, if the temporary file is not the target.
  pub load-save :
      s.world.temp_name path ≢ path
      → (save path s).0 ≡ ok tt
      → load path (save path s).1.world
        ≡ (ok (filled st), record (saved path s).world { ticks = s.world.ticks + 1 + 1 + 1 })
  load-save ne done =
      let v = save-ok done in
      let written =
        (run_save_steps (s.world.temp_name path) path (json (obj (as_dict st))) s.world.files
          ne).0 in
      rw v.1 (
        load_json path (saved path s).world (as_dict st) written
        ∙ from_dict-as_dict st (saved path s).world (validate-IsValid st v.0) refl)
