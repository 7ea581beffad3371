-- ===== src/Proxmox/Volume.antt =====
-- controller/proxmox.py: mapping a volume to a block device, and applying a delta to it.
pub mod Laws
pub mod CleanUp
use hv2pve.Prelude.{String, Bool, ◌||◌, not, none, some, List, [], ◌∷◌, str_eq, if◌then◌else◌}
use hv2pve.Prelude.Int.{ℤ}
use hv2pve.Exec.{
  value_error, runtime_error, Result, ok, err, Exec, Done, pure, lift, unless, ◌>>=◌, ◌>>◌, finally,
  ignoring_errors,
}
use hv2pve.World.{World}
use hv2pve.Text.{
  cat, cat_all, split_once, join, starts_with, left_strip, right_strip, strip, lines, show, quote,
}
use hv2pve.Proxmox.{ProxmoxSsh, command, shell, call, last, require_stopped, mkdir, remove}
use hv2pve.Proxmox.Disk.{copy_to_host}

-- The shell script of `_rbd_map_script`, line by line, with the three texts quoted.
script_text : String → String → String → String
script_text volume storage image = join "\n" (
    ""
    ∷ "set -euo pipefail"
    ∷ cat "VOL=" (quote volume)
    ∷ cat "STORAGE=" (quote storage)
    ∷ cat "IMAGE=" (quote image)
    ∷ "PATH_VALUE=$(pvesm path \"$VOL\" 2>/dev/null || true)"
    ∷ "if [ -n \"$PATH_VALUE\" ] && [ -b \"$PATH_VALUE\" ]; then"
    ∷ "    printf 'EXISTING\\t%s\\n' \"$PATH_VALUE\""
    ∷ "    exit 0"
    ∷ "fi"
    ∷ "CFG=$(pvesm config \"$STORAGE\")"
    ∷ "TYPE=$(printf '%s\\n' \"$CFG\" | awk 'NR==1 {gsub(\":\", \"\", $1); print $1}')"
    ∷ "[ \"$TYPE\" = \"rbd\" ] || { echo \"storage $STORAGE is not an already-addressable block device and is not RBD\" >&2; exit 40; }"
    ∷ "POOL=$(printf '%s\\n' \"$CFG\" | awk '$1==\"pool\" {print $2; exit}')"
    ∷ "NAMESPACE=$(printf '%s\\n' \"$CFG\" | awk '$1==\"namespace\" {print $2; exit}')"
    ∷ "[ -n \"$POOL\" ] || POOL=rbd"
    ∷ "ARGS=(map \"$IMAGE\" -p \"$POOL\")"
    ∷ "if [ -n \"$NAMESPACE\" ]; then ARGS+=(--namespace \"$NAMESPACE\"); fi"
    ∷ "DEVICE=$(rbd \"${ARGS[@]}\")"
    ∷ "printf 'CREATED\\t%s\\n' \"$DEVICE\""
    ∷ ""
    ∷ [])

unfoldable pub rbd_map_script : String → Result String
unfolding script_text split_once join quote cat
rbd_map_script volume = elim (split_once b':' volume) [
  | none ↦ err (value_error "invalid Proxmox volume ID")
  | some (storage, image) ↦ ok (script_text volume storage image)
]

-- `mode, device = line.split("\t", 1)` and the test on the mode.
unfoldable pub read_mapping : String → Result (String × Bool)
unfolding split_once
read_mapping line = elim (split_once 9 line) [
  | none ↦ err (value_error "not enough values to unpack")
  | some (mode, device) ↦
      if str_eq mode "EXISTING" || str_eq mode "CREATED"
      then ok (device, str_eq mode "CREATED")
      else err (runtime_error "unexpected volume mapping response")
]

unfoldable pub map_volume : ProxmoxSsh → String → Exec World (String × Bool)
unfolding left_strip right_strip lines
map_volume pve volume = do
  script ← lift (rbd_map_script volume)
  text ← shell pve script
  line ← lift (last (lines (strip text)))
  lift (read_mapping line)

unfoldable pub unmap_device : ProxmoxSsh → String → Exec World Done
unfolding starts_with
unmap_device pve device =
    if starts_with device "/dev/rbd" then call pve ("rbd" ∷ "unmap" ∷ device ∷ []) else pure tt

-- The three files that `apply_delta_to_volume` puts in its directory on the host.
unfoldable pub remote_file : ℤ → String → String
unfolding cat_all show
remote_file vmid name = cat_all ("/var/lib/vz/hv2pve-delta/" ∷ show vmid ∷ "/" ∷ name ∷ [])

unfoldable pub work_directory : ℤ → String
unfolding cat show
work_directory vmid = cat "/var/lib/vz/hv2pve-delta/" (show vmid)

-- The call that writes the delta to the device.
abbrev pub apply_argv : ℤ → String → List String
apply_argv vmid device =
    "python3"
    ∷ remote_file vmid "remote_apply_delta.py"
    ∷ "--metadata"
    ∷ remote_file vmid "delta.json"
    ∷ "--payload"
    ∷ remote_file vmid "delta.bin"
    ∷ "--target"
    ∷ device
    ∷ []

-- The `finally` block.
unfoldable pub clean_up : ProxmoxSsh → ℤ → String × Bool → Exec World Done
unfolding remove
clean_up pve vmid (device, created_mapping) = do
  unless (not created_mapping) (ignoring_errors (unmap_device pve device))
  remove pve (remote_file vmid "delta.json")
  remove pve (remote_file vmid "delta.bin")
  remove pve (remote_file vmid "remote_apply_delta.py")

unfoldable pub apply_mapped : ProxmoxSsh → ℤ → String × Bool → Exec World String
apply_mapped pve vmid (device, created_mapping) =
    finally (command pve (apply_argv vmid device)) (clean_up pve vmid (device, created_mapping))

unfoldable pub apply_delta_to_volume :
    ProxmoxSsh → ℤ → String → String → String → String → Exec World String
unfolding mkdir apply_mapped
apply_delta_to_volume pve vmid volume metadata_path payload_path remote_script_path = do
  require_stopped pve vmid
  mkdir pve (work_directory vmid)
  copy_to_host pve metadata_path (remote_file vmid "delta.json")
  copy_to_host pve payload_path (remote_file vmid "delta.bin")
  copy_to_host pve remote_script_path (remote_file vmid "remote_apply_delta.py")
  mapping ← map_volume pve volume
  apply_mapped pve vmid mapping
