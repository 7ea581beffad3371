-- ===== src/Proxmox/Disk.antt =====
-- controller/proxmox.py: the calls that create a destination VM and copy disks to it.
use hv2pve.Prelude.{
  String, Bool, false, not, Option, none, some, List, [], ◌∷◌, ◌++◌, map, ◌==◌, str_eq,
  if◌then◌else◌,
}
use hv2pve.Prelude.Int.{ℤ, pos, negsuc}
use hv2pve.Exec.{
  value_error, runtime_error, type_error, Result, ok, err, Exec, Done, pure, lift, gets, raise_if,
  unless, ◌>>=◌, ◌>>◌,
}
use hv2pve.World.{World}
use hv2pve.Process.{run}
use hv2pve.Text.{
  is_empty, cat, cat_all, join, starts_with, left_strip, right_strip, strip, show, quote,
}
use hv2pve.Json.{Value, arr, Items, nil, cons}
use hv2pve.Json.Number.{to_int}
use hv2pve.Proxmox.{ProxmoxSsh, ssh_base, command, call, Config, config_get, config, status, stop}

-- `json.loads` of a command's output.
parsed : Option Value → Result Value
parsed none = err (value_error "JSONDecodeError")
parsed (some v) = ok v

unfoldable pub loads : String → Exec World Value
unfolding parsed
loads raw = do found ← gets (λ w. w.json_loads raw); lift (parsed found)

unfoldable pub next_vmid : ProxmoxSsh → Exec World ℤ
unfolding loads to_int
next_vmid pve = do
  raw ← command pve ("pvesh" ∷ "get" ∷ "/cluster/nextid" ∷ "--output-format" ∷ "json" ∷ [])
  v ← loads raw
  lift (to_int v)

unfoldable pub item_list : Items → List Value
item_list nil = []
item_list (cons v vs) = v ∷ item_list vs

-- `list(json.loads(…))`
list_of : Value → Result (List Value)
list_of (arr vs) = ok (item_list vs)
list_of _ = err (type_error "not a list of VMs")

unfoldable pub cluster_vms : ProxmoxSsh → Exec World (List Value)
unfolding loads list_of item_list
cluster_vms pve = do
  raw ←
      command pve
        ("pvesh" ∷ "get" ∷ "/cluster/resources" ∷ "--type" ∷ "vm" ∷ "--output-format" ∷ "json" ∷ [])
  v ← loads raw
  lift (list_of v)

-- The entries of the new configuration whose key begins with `unused` and was not there before.
unfoldable pub new_unused : Config → Config → Config
unfolding config_get starts_with
new_unused before [] = []
new_unused before ((k, v) ∷ cfg) =
    let rest = new_unused before cfg in
    if starts_with k "unused"
    then elim (config_get k before) [ none ↦ (k, v) ∷ rest | some old ↦ rest ]
    else rest

-- `len(unused) != 1` raises.
abbrev pub only : Config → Result String
only ((k, v) ∷ []) = ok v
only [] = err (runtime_error "expected exactly one new unused disk after import")
only (x ∷ y ∷ xs) = err (runtime_error "expected exactly one new unused disk after import")

unfoldable pub import_disk : ProxmoxSsh → ℤ → String → String → Exec World String
unfolding new_unused show
import_disk pve vmid source_path storage = do
  before ← config pve vmid
  command pve ("qm" ∷ "disk" ∷ "import" ∷ show vmid ∷ source_path ∷ storage ∷ [])
  cfg ← config pve vmid
  lift (only (new_unused before cfg))

-- `if mac_address: net += f"={mac_address}"`
net_value : String → Option String → String → String
net_value model none bridge = cat_all (model ∷ ",bridge=" ∷ bridge ∷ [])
net_value model (some mac) bridge =
    if is_empty mac
    then cat_all (model ∷ ",bridge=" ∷ bridge ∷ [])
    else cat_all (model ∷ "=" ∷ mac ∷ ",bridge=" ∷ bridge ∷ [])

abbrev pub is_two : ℤ → Bool
is_two (pos n) = n == 2
is_two (negsuc n) = false

unfoldable pub create_destination :
    ProxmoxSsh → ℤ → String → ℤ → ℤ → ℤ → String → Option String → String → String → Exec World Done
unfolding net_value show cat_all
create_destination pve vmid name generation cores memory_mb test_bridge mac nic_model efi_storage =
    do
      command pve (
          "qm"
          ∷ "create"
          ∷ show vmid
          ∷ "--name"
          ∷ name
          ∷ "--machine"
          ∷ (if is_two generation then "q35" else "pc")
          ∷ "--bios"
          ∷ (if is_two generation then "ovmf" else "seabios")
          ∷ "--cores"
          ∷ show cores
          ∷ "--memory"
          ∷ show memory_mb
          ∷ "--scsihw"
          ∷ "virtio-scsi-single"
          ∷ "--net0"
          ∷ net_value nic_model mac test_bridge
          ∷ "--agent"
          ∷ "1"
          ∷ "--onboot"
          ∷ "0"
          ∷ [])
      unless (not (is_two generation)) (do
        raise_if (is_empty efi_storage)
            (value_error "generation 2 destination requires efi_storage")
        call pve (
            "qm"
            ∷ "set"
            ∷ show vmid
            ∷ "--efidisk0"
            ∷ cat efi_storage ":0,efitype=4m,pre-enrolled-keys=1"
            ∷ []))

unfoldable pub attach_disk : ProxmoxSsh → ℤ → String → String → Exec World Done
unfolding show cat
attach_disk pve vmid slot volume = call pve ("qm" ∷ "set" ∷ show vmid ∷ cat "--" slot ∷ volume ∷ [])

unfoldable pub set_boot_order : ProxmoxSsh → ℤ → String → Exec World Done
unfolding show cat
set_boot_order pve vmid slot =
    call pve ("qm" ∷ "set" ∷ show vmid ∷ "--boot" ∷ cat "order=" slot ∷ [])

unfoldable pub destroy : ProxmoxSsh → ℤ → Exec World Done
unfolding show
destroy pve vmid = do
  state ← status pve vmid
  unless (not (str_eq state "running")) (stop pve vmid (pos 120))
  call pve ("qm" ∷ "destroy" ∷ show vmid ∷ "--purge" ∷ "1" ∷ [])

unfoldable pub storage_path : ProxmoxSsh → String → Exec World String
unfolding left_strip right_strip
storage_path pve volume = do text ← command pve ("pvesm" ∷ "path" ∷ volume ∷ []); pure (strip text)

-- `scp` takes its `-i` and `-o` as `ssh` does.
scp_argv : ProxmoxSsh → String → String → List String
unfolding ssh_base
scp_argv pve source target =
    "scp" ∷ (elim (ssh_base pve) [ [] ↦ [] | x ∷ options ↦ options ] ++ source ∷ target ∷ [])

unfoldable pub copy_to_host : ProxmoxSsh → String → String → Exec World Done
unfolding scp_argv join quote cat_all
copy_to_host pve source remote_path = do
  let target = cat_all (pve.user ∷ "@" ∷ pve.host ∷ ":" ∷ remote_path ∷ [])
  let ssh_command = join " " (map quote (ssh_base pve))
  rsync ← gets (λ w. w.has_rsync)
  run (
      if rsync
      then "rsync" ∷ "--partial" ∷ "--inplace" ∷ "--human-readable" ∷ "--progress" ∷ "-e"
        ∷ ssh_command ∷ source ∷ target ∷ []
      else scp_argv pve source target)
  pure tt
