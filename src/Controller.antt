-- ===== src/Controller.antt =====
-- controller/hv2pve.py: the commands of the controller. A command loads the state file into an
-- object of its own, works on that, and saves it; what it raises before the save leaves the file.
pub mod Ingest
pub mod Stages
pub mod Cutover
pub mod Remote
pub mod Seeding
pub mod Bundles
pub mod Work
pub mod Order
pub mod Phases
pub mod Command
pub mod Options
pub mod Subparsers
pub mod Parser
pub mod Main
pub mod Gates
pub mod Rollback
pub mod Sequence
pub mod SyncRound
pub mod CutoverRun
use hv2pve.Prelude.{String, Bool}
use hv2pve.Json.{Value, str, put, pop, get, value_eq}
use hv2pve.Exec.{ok, Exec, Done, pure, ◌>>=◌, ◌>>◌}
use hv2pve.World.{World, utc_now}
use hv2pve.State.Record.{MigrationState, Session, in_world, with_state, set_state}
use hv2pve.State.Storage.{save, load}

-- `state = MigrationState.load(args.state)`, and the rest of the command on it.
unfoldable pub on_state : {A : Type 0} → String → Exec Session A → Exec World A
on_state path body = do st ← load path; with_state st body

abbrev pub the_state : Exec Session MigrationState
the_state s = (ok s.state, s)

-- `state.destination[k] = v`, and the same for the other sections.
abbrev pub set_destination : String → Value → Exec Session Done
set_destination k v = set_state (λ st. record st { destination = put k v st.destination })

abbrev pub set_source : String → Value → Exec Session Done
set_source k v = set_state (λ st. record st { source = put k v st.source })

abbrev pub set_sync : String → Value → Exec Session Done
set_sync k v = set_state (λ st. record st { sync = put k v st.sync })

abbrev pub pop_sync : String → Exec Session Done
pop_sync k = set_state (λ st. record st { sync = pop k st.sync })

abbrev pub set_validation : String → Value → Exec Session Done
set_validation k v = set_state (λ st. record st { validation = put k v st.validation })

abbrev pub set_cutover : String → Value → Exec Session Done
set_cutover k v = set_state (λ st. record st { cutover = put k v st.cutover })

-- `utc_now()` as a JSON text, inside a command.
abbrev pub now : Exec Session Value
now = do t ← in_world utc_now; pure (str t)

-- `args.confirm != state.source.get("vm_name")` raises.
abbrev pub confirmed : String → MigrationState → Bool
confirmed confirm st = value_eq (str confirm) (get "vm_name" st.source)

-- A command that works on the state and saves it.
abbrev pub saving : String → Exec Session Done → Exec World Done
saving path body = on_state path (do body; save path)
