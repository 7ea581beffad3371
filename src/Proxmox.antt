-- ===== src/Proxmox.antt =====
-- controller/proxmox.py: the SSH backend of the Proxmox host.
pub mod Bridge
pub mod Disk
pub mod Volume
pub mod Answers
pub mod Obeys
use hv2pve.Prelude.{String, Option, none, some, List, [], ◌∷◌, ◌++◌, map, str_eq, if◌then◌else◌}
use hv2pve.Prelude.Int.{ℤ}
use hv2pve.Exec.{
  runtime_error, index_error, Result, ok, err, Exec, Done, pure, lift, require, unless, ◌>>=◌, ◌>>◌,
}
use hv2pve.World.{World}
use hv2pve.Process.{run}
use hv2pve.Text.{
  is_empty, cat, cat_all, split, split_once, join, starts_with, left_strip, right_strip, strip,
  lines, words, show, quote,
}

pub record ProxmoxSsh : Type 0 where
  pub host : String
  pub user : String
  pub identity_file : Option String
  pub strict_host_key_checking : String

-- `if self.identity_file: argv += ["-i", …]`
identity_args : Option String → List String
identity_args none = []
identity_args (some file) = if is_empty file then [] else "-i" ∷ file ∷ []

unfoldable pub ssh_base : ProxmoxSsh → List String
unfolding identity_args cat
ssh_base pve =
    "ssh"
    ∷ (identity_args pve.identity_file
        ++ "-o" ∷ cat "StrictHostKeyChecking=" pve.strict_host_key_checking ∷ [])

unfoldable pub ssh_argv : ProxmoxSsh → List String → List String
unfolding ssh_base cat_all join quote
ssh_argv pve remote =
    ssh_base pve ++ cat_all (pve.user ∷ "@" ∷ pve.host ∷ []) ∷ join " " (map quote remote) ∷ []

unfoldable pub command : ProxmoxSsh → List String → Exec World String
unfolding run
command pve remote = run (ssh_argv pve remote)

unfoldable pub shell : ProxmoxSsh → String → Exec World String
unfolding run
shell pve script = run (ssh_argv pve ("bash" ∷ "-lc" ∷ script ∷ []))

-- A remote call whose output is not read.
abbrev pub call : ProxmoxSsh → List String → Exec World Done
call pve remote = do command pve remote; pure tt

-- A dict of texts.
abbrev pub Config : Type 0
Config = List (String × String)

unfoldable pub config_get : String → Config → Option String
config_get k [] = none
config_get k ((j, v) ∷ c) = if str_eq j k then some v else config_get k c

unfoldable pub config_put : String → String → Config → Config
config_put k v [] = (k, v) ∷ []
config_put k v ((j, w) ∷ c) = if str_eq j k then (k, v) ∷ c else (j, w) ∷ config_put k v c

-- The loop of `config`: lines with no colon are passed over, a later key replaces an earlier one.
unfoldable pub parse_config : Config → List String → Config
unfolding config_put split_once left_strip right_strip
parse_config result [] = result
parse_config result (line ∷ rest) =
    parse_config
      (elim (split_once b':' line) [
        | none ↦ result
        | some (key, value) ↦ config_put (strip key) (strip value) result
      ])
      rest

unfoldable pub config : ProxmoxSsh → ℤ → Exec World Config
unfolding parse_config lines show
config pve vmid = do
  text ← command pve ("qm" ∷ "config" ∷ show vmid ∷ [])
  pure (parse_config [] (lines text))

-- `xs[-1]`
abbrev pub last : List String → Result String
last [] = err (index_error "list index out of range")
last (x ∷ []) = ok x
last (x ∷ y ∷ xs) = last (y ∷ xs)

unfoldable pub status : ProxmoxSsh → ℤ → Exec World String
unfolding words show left_strip right_strip
status pve vmid = do
  text ← command pve ("qm" ∷ "status" ∷ show vmid ∷ [])
  lift (last (words (strip text)))

unfoldable pub require_stopped : ProxmoxSsh → ℤ → Exec World Done
require_stopped pve vmid = do
  state ← status pve vmid
  require (str_eq state "stopped") (runtime_error "VM must be stopped")

unfoldable pub stop : ProxmoxSsh → ℤ → ℤ → Exec World Done
unfolding show
stop pve vmid timeout = do
  state ← status pve vmid
  unless (str_eq state "stopped") (do
    command pve ("qm" ∷ "shutdown" ∷ show vmid ∷ "--timeout" ∷ show timeout ∷ [])
    require_stopped pve vmid)

unfoldable pub start : ProxmoxSsh → ℤ → Exec World Done
unfolding show
start pve vmid = do
  state ← status pve vmid
  unless (str_eq state "running") (call pve ("qm" ∷ "start" ∷ show vmid ∷ []))

unfoldable pub mkdir : ProxmoxSsh → String → Exec World Done
mkdir pve path = call pve ("mkdir" ∷ "-p" ∷ path ∷ [])

unfoldable pub remove : ProxmoxSsh → String → Exec World Done
remove pve path = call pve ("rm" ∷ "-f" ∷ path ∷ [])

unfoldable pub set_network : ProxmoxSsh → ℤ → String → String → Exec World Done
unfolding show cat
set_network pve vmid net_key value =
    call pve ("qm" ∷ "set" ∷ show vmid ∷ cat "--" net_key ∷ value ∷ [])

-- `with_bridge`: the `bridge=` parts go, and the new one comes last.
unfoldable pub without_bridges : List String → List String
unfolding starts_with
without_bridges [] = []
without_bridges (p ∷ ps) =
    let rest = without_bridges ps in if starts_with p "bridge=" then rest else p ∷ rest

unfoldable pub with_bridge : String → String → String
unfolding without_bridges join split cat
with_bridge net_value bridge =
    join "," (without_bridges (split b',' net_value) ++ cat "bridge=" bridge ∷ [])
