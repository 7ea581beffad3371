-- ===== src/State/Storage.antt =====
-- controller/state.py: `save` and `load`, the atomic store of the state file.
pub mod Laws
use hv2pve.Prelude.{String, not, Option, none, some, List, [], ◌∷◌, if◌then◌else◌}
use hv2pve.Json.{
  Value, obj, arr, str, int, bool, null, Fields, end, field, Items, nil, cons, put, update,
}
use hv2pve.Exec.{
  value_error, type_error, file_not_found, Result, ok, err, and_then, Exec, Done, lift, modify,
  ◌>>=◌, ◌>>◌,
}
use hv2pve.World.{Document, json, malformed, FileSystem, World, write, unlink}
use hv2pve.State.Record.{MigrationState, Session, in_world}
use hv2pve.State.Payload.{from_dict, to_dict}
use hv2pve.Text.{glue, is_empty}

-- What `save` does to the file system, call by call.
pub data FileStep : Type 0 where
  create_empty : String → FileStep
  write_text : String → Document → FileStep
  replace : String → String → FileStep
  unlink_if_exists : String → FileStep

-- `os.replace(from, to)`
abbrev pub moved : String → String → Option Document → FileSystem → FileSystem
moved from to none files = files
moved from to (some d) files = write to d (unlink from files)

unfoldable pub run_step : FileStep → FileSystem → FileSystem
run_step (create_empty path) files = write path malformed files
run_step (write_text path d) files = write path d files
run_step (replace from to) files = moved from to (files from) files
run_step (unlink_if_exists path) files = unlink path files

unfoldable pub run_steps : List FileStep → FileSystem → FileSystem
unfolding run_step
run_steps [] files = files
run_steps (f ∷ fs) files = run_steps fs (run_step f files)

-- The calls of `save` once the payload is rendered.
abbrev pub save_steps : String → String → Document → List FileStep
save_steps temp target payload =
    create_empty temp ∷ write_text temp payload ∷ replace temp target ∷ unlink_if_exists temp ∷ []

unfoldable pub save : String → Exec Session Done
unfolding to_dict
save path = do
  payload ← to_dict
  in_world (
      modify (λ w. record w {
        files = run_steps (save_steps (w.temp_name path) path (json (obj payload))) w.files;
      }))

-- `json.loads(path.read_text())`
unfoldable pub read_json : String → Exec World Value
read_json path w = elim (w.files path) [
  | none ↦ (err (file_not_found path), w)
  | some d ↦ elim d [ malformed ↦ (err (value_error "JSONDecodeError"), w) | json v ↦ (ok v, w) ]
]

-- What `dict` takes from one element of a list: a list, a dict or a text with two elements.
unfoldable pub key_value : Value → Result (Value × Value)
key_value (arr (cons k (cons v nil))) = ok (k, v)
key_value (obj (field j v (field k w end))) = ok (str j, str k)
key_value (str (glue c (glue d String.[]))) = ok (str (glue c String.[]), str (glue d String.[]))
key_value null = err (type_error "cannot convert dictionary update sequence element")
key_value (bool b) = err (type_error "cannot convert dictionary update sequence element")
key_value (int n) = err (type_error "cannot convert dictionary update sequence element")
key_value v = err (value_error "dictionary update sequence element has the wrong length")

-- `d[k] = v`. An entry under a key that is no text is never looked up, and is left out.
unfoldable pub put_key : Value → Value → Fields → Result Fields
unfolding put
put_key (str k) v d = ok (put k v d)
put_key (arr vs) v d = err (type_error "unhashable type")
put_key (obj x) v d = err (type_error "unhashable type")
put_key k v d = ok d

unfoldable pub dict_of : Items → Fields → Result Fields
unfolding key_value put_key
dict_of nil d = ok d
dict_of (cons x xs) d =
    and_then (key_value x) λ (k, v). and_then (put_key k v d) λ more. dict_of xs more

-- `dict(payload)`
unfoldable pub as_dict_argument : Value → Result Fields
unfolding dict_of
as_dict_argument (obj d) = ok d
as_dict_argument null = err (type_error "not a dict")
as_dict_argument (bool b) = err (type_error "not a dict")
as_dict_argument (int n) = err (type_error "not a dict")
as_dict_argument (str s) =
    if is_empty s
    then ok end
    else err (value_error "dictionary update sequence element has the wrong length")
as_dict_argument (arr vs) = dict_of vs end

unfoldable pub load : String → Exec World MigrationState
unfolding read_json as_dict_argument
load path = do payload ← read_json path; d ← lift (as_dict_argument payload); from_dict d
