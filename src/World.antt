-- ===== src/World.antt =====
-- What the controller's process reads and writes outside itself: the clock, the files of the
-- appliance, the commands that it runs and their answers, and its standard output.
pub mod Outside
use hv2pve.Prelude.{
  ℕ, ◌+◌, String, Bool, Option, none, some, List, [], ◌∷◌, ◌++◌, str_eq, if◌then◌else◌,
}
use hv2pve.Prelude.Int.{ℤ}
use hv2pve.Json.{Value}
use hv2pve.Delta.Bytes.{Bytes}
use hv2pve.Exec.{ok, Exec, Done}

-- The text of a file, as `json.loads` sees it.
pub data Document : Type 0 where
  json : Value → Document
  malformed : Document

abbrev pub FileSystem : Type 0
FileSystem = String → Option Document

-- controller/process.py, `CommandResult` less the `argv` it repeats.
pub record CommandResult : Type 0 where
  pub stdout : String
  pub stderr : String
  pub returncode : ℤ

-- What `subprocess.run` does: it returns, finds no such program, or its timeout passes.
pub data Answer : Type 0 where
  finished : CommandResult → Answer
  missing timed_out : Answer

-- `clock n` is the time that the n-th look at the clock reads. `remote` is what lies outside the
-- program: the answer to a command, given the commands that were run before it, the oldest first.
-- `uuid4` is a fresh identifier, `has_rsync` is `shutil.which("rsync")`, `json_loads` reads a text
-- as JSON, `tree` lists the regular files below a directory, if there is one, `script_path` is
-- `remote_apply_delta.py` beside the controller, and `temp_name` is the name that `mkstemp` makes
-- for a target. `disks` are the binary files, apart from the JSON ones, and `sha256` is the digest
-- of `hashlib`, on which nothing is assumed.
pub record World : Type 0 where
  pub clock : ℕ → String
  pub ticks : ℕ
  pub files : FileSystem
  pub disks : String → Option Bytes
  pub sha256 : Bytes → String
  pub temp_name : String → String
  pub remote : List (List String) → List String → Answer
  pub uuid4 : String
  pub has_rsync : Bool
  pub json_loads : String → Option Value
  pub tree : String → Option (List String)
  pub script_path : String
  pub ran : List (List String)
  pub printed : List Value

-- A file system with one file written.
abbrev pub write : String → Document → FileSystem → FileSystem
write path d files p = if str_eq path p then some d else files p

-- A file system with one file removed.
abbrev pub unlink : String → FileSystem → FileSystem
unlink path files p = if str_eq path p then none else files p

-- controller/state.py, `utc_now`.
unfoldable pub utc_now : Exec World String
utc_now w = (ok (w.clock w.ticks), record w { ticks = w.ticks + 1 })

-- `print`
abbrev pub print : Value → Exec World Done
print v w = (ok tt, record w { printed = w.printed ++ v ∷ [] })
