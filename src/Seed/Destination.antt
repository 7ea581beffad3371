-- ===== src/Seed/Destination.antt =====
-- controller/seed.py: `seed_destination`, which creates the destination VM and imports its disks.
use hv2pve.Prelude.{
  ℕ, suc, String, Bool, true, false, ◌&&◌, ◌||◌, Option, none, some, List, [], ◌∷◌, ltb, str_eq,
  if◌then◌else◌,
}
use hv2pve.Prelude.Lists.{length}
use hv2pve.Prelude.Int.{ℤ, pos, negsuc}
use hv2pve.Json.{Value, int, str, obj, Fields, end, field, find, or_else, get, int_eq, value_eq}
use hv2pve.Json.Number.{to_int}
use hv2pve.Json.Render.{to_text}
use hv2pve.Exec.{
  value_error, index_error, Result, ok, err, and_then, Exec, Done, pure, raise, lift, raise_if,
  require, ◌>>=◌, ◌>>◌,
}
use hv2pve.World.{World}
use hv2pve.Text.{cat, cat_all, show_nat, lower}
use hv2pve.Text.Path.{name, suffix}
use hv2pve.State.Record.{MigrationState}
use hv2pve.State.Payload.{as_fields}
use hv2pve.Proxmox.{ProxmoxSsh, mkdir, remove}
use hv2pve.Proxmox.Disk.{
  next_vmid, cluster_vms, import_disk, create_destination, attach_disk, set_boot_order, destroy,
  copy_to_host,
}
use hv2pve.Seed.{ExportedDisk, resolve_exported_disks}
use hv2pve.Seed.Guest.{inspect_guest_os, Guest, guest_of, nic_model_of, disk_bus_of}

-- `any(int(x.get("vmid", -1)) == vmid for x in existing)`
unfoldable pub vmid_taken : ℤ → List Value → Result Bool
unfolding as_fields
vmid_taken vmid [] = ok false
vmid_taken vmid (v ∷ vs) =
    let rest = vmid_taken vmid vs in
    and_then (as_fields v) λ x.
      and_then (to_int (or_else (find "vmid" x) (int (negsuc 0))))
        λ id. if int_eq id vmid then ok true else rest

-- `any(x.get("name") == name for x in existing)`
unfoldable pub name_taken : String → List Value → Result Bool
unfolding as_fields
name_taken name [] = ok false
name_taken name (v ∷ vs) =
    let rest = name_taken name vs in
    and_then (as_fields v) λ x. if value_eq (get "name" x) (str name) then ok true else rest

-- `vmid or pve.next_vmid()`
abbrev pub chosen_vmid : ProxmoxSsh → Option ℤ → Exec World ℤ
chosen_vmid pve none = next_vmid pve
chosen_vmid pve (some n) = if int_eq n (pos 0) then next_vmid pve else pure n

abbrev pub guest_os_of : String → List ExportedDisk → Exec World String
guest_os_of guest_os [] = raise (index_error "list index out of range")
guest_os_of guest_os (d ∷ ds) =
    if str_eq guest_os "auto" then inspect_guest_os d.exported_path else pure guest_os

-- One round of the loop: copy, import, attach, note, remove.
unfoldable pub seed_disk :
    ProxmoxSsh → ℤ → String → String → String → ℕ → ExportedDisk → Exec World Value
unfolding cat_all show_nat lower suffix
seed_disk pve vmid remote_dir storage bus index disk = do
  let remote_path =
      cat_all (remote_dir ∷ "/disk-" ∷ show_nat index ∷ lower (suffix disk.exported_path) ∷ [])
  let slot = cat bus (show_nat index)
  copy_to_host pve disk.exported_path remote_path
  volume ← import_disk pve vmid remote_path storage
  attach_disk pve vmid slot volume
  remove pve remote_path
  pure (
      obj (
        field "source_path" (str disk.source_path) (
          field "exported_path" (str disk.exported_path) (
            field "volume" (str volume)
              (field "slot" (str slot) (field "virtual_size" disk.virtual_size end))))))

unfoldable pub seed_disks :
    ProxmoxSsh → ℤ → String → String → String → ℕ → List ExportedDisk → Exec World Fields
unfolding show_nat
seed_disks pve vmid remote_dir storage bus index [] = pure end
seed_disks pve vmid remote_dir storage bus index (disk ∷ disks) = do
  entry ← seed_disk pve vmid remote_dir storage bus index disk
  more ← seed_disks pve vmid remote_dir storage bus (suc index) disks
  pure (field (show_nat index) entry more)

-- `except Exception: if created and cleanup_on_failure: try destroy …; raise`
abbrev pub settled : {A : Type 0} → Bool → Exec World Done → Result A → World → Result A × World
settled wanted cleanup (ok a) w = (ok a, w)
settled true cleanup (err e) w = (err e, (cleanup w).1)
settled false cleanup (err e) w = (err e, w)

unfoldable pub cleaning_up : {A : Type 0} → Bool → Exec World Done → Exec World A → Exec World A
cleaning_up wanted cleanup m w = let (r, w') = m w in settled wanted cleanup r w'

pub record SeedRequest : Type 0 where
  pub storage : String
  pub test_vnet : String
  pub production_vnet : String
  pub export_root : Option String
  pub vmid : Option ℤ
  pub guest_os : String
  pub cleanup_on_failure : Bool

-- The plan that the first half of `seed_destination` has made.
pub record SeedPlan : Type 0 where
  pub guest : Guest
  pub disks : List ExportedDisk
  pub guest_os : String
  pub vmid : ℤ

unfoldable pub plan_seed : MigrationState → ProxmoxSsh → SeedRequest → Exec World SeedPlan
plan_seed st pve q = do
  raise_if (str_eq q.test_vnet q.production_vnet)
      (value_error "test_vnet and production_vnet must be different")
  disks ← resolve_exported_disks st q.export_root
  guest ← lift (guest_of st)
  guest_os ← guest_os_of q.guest_os disks
  require (str_eq guest_os "windows" || str_eq guest_os "linux" || str_eq guest_os "unknown")
      (value_error "guest_os must be auto, windows, linux, or unknown")
  raise_if (str_eq (disk_bus_of guest_os) "sata" && ltb 6 (length disks))
      (value_error "compatibility SATA seed supports at most 6 disks")
  vmid ← chosen_vmid pve q.vmid
  existing ← cluster_vms pve
  same_id ← lift (vmid_taken vmid existing)
  raise_if same_id (value_error "destination VMID already exists")
  same_name ← lift (name_taken guest.name existing)
  raise_if same_name (value_error "destination VM name already exists")
  pure (record { guest = guest; disks = disks; guest_os = guest_os; vmid = vmid })

unfoldable pub remote_directory : MigrationState → String
unfolding cat to_text
remote_directory st = cat "/var/lib/vz/hv2pve/" (to_text st.migration_id)

-- What is returned once the VM is there with its disks.
unfoldable pub fill_destination :
    MigrationState → ProxmoxSsh → SeedRequest → SeedPlan → Exec World Fields
unfolding cat
fill_destination st pve q p = do
  disk_map ←
      seed_disks pve p.vmid (remote_directory st) q.storage (disk_bus_of p.guest_os) 0 p.disks
  set_boot_order pve p.vmid (cat (disk_bus_of p.guest_os) "0")
  pure (
      field "proxmox_node" (str pve.host) (
        field "proxmox_vmid" (int p.vmid) (
          field "guest_os" (str p.guest_os) (
            field "disk_bus" (str (disk_bus_of p.guest_os)) (
              field "nic_model" (str (nic_model_of p.guest_os)) (
                field "test_vnet" (str q.test_vnet) (
                  field "production_vnet" (str q.production_vnet)
                    (field "disk_map" (obj disk_map) end))))))))

-- The exception of `create_destination` finds `created` still false.
unfoldable pub seed_destination : MigrationState → ProxmoxSsh → SeedRequest → Exec World Fields
seed_destination st pve q = do
  p ← plan_seed st pve q
  mkdir pve (remote_directory st)
  create_destination pve p.vmid p.guest.name p.guest.generation p.guest.cores p.guest.memory_mb
      q.test_vnet p.guest.mac (nic_model_of p.guest_os) q.storage
  cleaning_up q.cleanup_on_failure (destroy pve p.vmid) (fill_destination st pve q p)
