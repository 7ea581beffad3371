-- ===== src/Seed/Outside.antt =====
-- controller/seed.py: `seed_destination` beside the files of the appliance.
use hv2pve.Prelude.{
  ℕ, suc, String, inl, inr, Bool, true, false, Option, none, some, List, [], ◌∷◌, str_eq,
  Bool-cases,
}
use hv2pve.Prelude.Int.{ℤ, pos}
use hv2pve.Json.{int_eq}
use hv2pve.Exec.{Result, ok, err, Exec, Done}
use hv2pve.Exec.Keeps.{Keeps, Keeps-pure, Keeps-bind, keeps_rules}
use hv2pve.World.{World}
use hv2pve.World.Outside.{
  SameFiles, run-SameFiles, command-SameFiles, config-SameFiles, status-SameFiles, stop-SameFiles,
  remove-SameFiles, copy_to_host-SameFiles, mkdir-SameFiles,
}
use hv2pve.State.Record.{MigrationState}
use hv2pve.Proxmox.{ProxmoxSsh}
use hv2pve.Proxmox.Disk.{
  loads, next_vmid, cluster_vms, import_disk, create_destination, attach_disk, set_boot_order,
  destroy,
}
use hv2pve.Seed.{ExportedDisk, exported_disk_candidates, resolve_exported_disks}
use hv2pve.Seed.Guest.{inspect_guest_os}
use hv2pve.Seed.Destination.{
  chosen_vmid, guest_os_of, seed_disk, seed_disks, settled, cleaning_up, SeedRequest, SeedPlan,
  plan_seed, fill_destination, seed_destination,
}

module _ (w₀ : World) where
  ruleset basic = (
    keeps_rules, command-SameFiles, config-SameFiles, status-SameFiles, stop-SameFiles,
    copy_to_host-SameFiles, remove-SameFiles, mkdir-SameFiles,
  )

  loads-SameFiles : (raw : String) → Keeps (SameFiles w₀) (loads raw)
  unfolding loads
  loads-SameFiles raw = search basic

  next_vmid-SameFiles : (pve : ProxmoxSsh) → Keeps (SameFiles w₀) (next_vmid pve)
  unfolding next_vmid
  next_vmid-SameFiles pve = search (basic, loads-SameFiles)

  cluster_vms-SameFiles : (pve : ProxmoxSsh) → Keeps (SameFiles w₀) (cluster_vms pve)
  unfolding cluster_vms
  cluster_vms-SameFiles pve = search (basic, loads-SameFiles)

  candidates-SameFiles : (root : String) → Keeps (SameFiles w₀) (exported_disk_candidates root)
  unfolding exported_disk_candidates
  candidates-SameFiles root = search basic

  resolve-SameFiles :
      (st : MigrationState) (root : Option String)
      → Keeps (SameFiles w₀) (resolve_exported_disks st root)
  unfolding resolve_exported_disks
  resolve-SameFiles st root = search (basic, candidates-SameFiles) depth 12

  inspect-SameFiles : (path : String) → Keeps (SameFiles w₀) (inspect_guest_os path)
  unfolding inspect_guest_os
  inspect-SameFiles path = record {
    at = (run-SameFiles w₀ ("virt-inspector" ∷ "-a" ∷ path ∷ [])).at;
  }

  guest_os-SameFiles :
      (guest_os : String) (disks : List ExportedDisk)
      → Keeps (SameFiles w₀) (guest_os_of guest_os disks)
  guest_os-SameFiles guest_os [] = search basic
  guest_os-SameFiles guest_os (d ∷ ds) = elim (Bool-cases (str_eq guest_os "auto")) [
    | inl e ↦ rw e (search inspect-SameFiles)
    | inr e ↦ rw e (search basic)
  ]

  vmid-SameFiles : (pve : ProxmoxSsh) (n : Option ℤ) → Keeps (SameFiles w₀) (chosen_vmid pve n)
  vmid-SameFiles pve none = next_vmid-SameFiles pve
  vmid-SameFiles pve (some n) = elim (Bool-cases (int_eq n (pos 0))) [
    | inl e ↦ rw e (next_vmid-SameFiles pve)
    | inr e ↦ rw e (search basic)
  ]

  plan_seed-SameFiles :
      (st : MigrationState) (pve : ProxmoxSsh) (q : SeedRequest)
      → Keeps (SameFiles w₀) (plan_seed st pve q)
  unfolding plan_seed
  plan_seed-SameFiles st pve q =
      search (basic, resolve-SameFiles, guest_os-SameFiles, vmid-SameFiles, cluster_vms-SameFiles)
        depth 30

  import_disk-SameFiles :
      (pve : ProxmoxSsh) (vmid : ℤ) (source storage : String)
      → Keeps (SameFiles w₀) (import_disk pve vmid source storage)
  unfolding import_disk
  import_disk-SameFiles pve vmid source storage = search basic depth 12

  attach_disk-SameFiles :
      (pve : ProxmoxSsh) (vmid : ℤ) (slot volume : String)
      → Keeps (SameFiles w₀) (attach_disk pve vmid slot volume)
  unfolding attach_disk
  attach_disk-SameFiles pve vmid slot volume = search basic

  boot_order-SameFiles :
      (pve : ProxmoxSsh) (vmid : ℤ) (slot : String)
      → Keeps (SameFiles w₀) (set_boot_order pve vmid slot)
  unfolding set_boot_order
  boot_order-SameFiles pve vmid slot = search basic

  destroy-SameFiles : (pve : ProxmoxSsh) (vmid : ℤ) → Keeps (SameFiles w₀) (destroy pve vmid)
  unfolding destroy
  destroy-SameFiles pve vmid = search basic depth 12

  create-SameFiles :
      (pve : ProxmoxSsh) (vmid : ℤ) (name : String) (generation cores memory : ℤ) (bridge : String)
      (mac : Option String) (nic efi : String)
      → Keeps
          (SameFiles w₀)
          (create_destination pve vmid name generation cores memory bridge mac nic efi)
  unfolding create_destination
  create-SameFiles pve vmid name generation cores memory bridge mac nic efi = search basic depth 12

  seed_disk-SameFiles :
      (pve : ProxmoxSsh) (vmid : ℤ) (dir storage bus : String) (index : ℕ) (disk : ExportedDisk)
      → Keeps (SameFiles w₀) (seed_disk pve vmid dir storage bus index disk)
  unfolding seed_disk
  seed_disk-SameFiles pve vmid dir storage bus index disk =
      search (basic, import_disk-SameFiles, attach_disk-SameFiles) depth 14

  seed_disks-SameFiles :
      (pve : ProxmoxSsh) (vmid : ℤ) (dir storage bus : String) (index : ℕ)
      (disks : List ExportedDisk)
      → Keeps (SameFiles w₀) (seed_disks pve vmid dir storage bus index disks)
  unfolding seed_disks
  seed_disks-SameFiles pve vmid dir storage bus index [] = search basic
  seed_disks-SameFiles pve vmid dir storage bus index (disk ∷ disks) =
      Keeps-bind _ _ (seed_disk-SameFiles pve vmid dir storage bus index disk) λ entry.
        Keeps-bind _ _ (seed_disks-SameFiles pve vmid dir storage bus (suc index) disks)
          λ more. Keeps-pure _

  fill-SameFiles :
      (st : MigrationState) (pve : ProxmoxSsh) (q : SeedRequest) (p : SeedPlan)
      → Keeps (SameFiles w₀) (fill_destination st pve q p)
  unfolding fill_destination
  fill-SameFiles st pve q p = search (basic, seed_disks-SameFiles, boot_order-SameFiles) depth 8

  cleaning_up-SameFiles :
      {A : Type 0} (wanted : Bool) (cleanup : Exec World Done) (m : Exec World A)
      → Keeps (SameFiles w₀) cleanup
      → Keeps (SameFiles w₀) m
      → Keeps (SameFiles w₀) (cleaning_up wanted cleanup m)
  unfolding cleaning_up
  cleaning_up-SameFiles {A} wanted cleanup m kc km = record {
    at = λ w h. go wanted (m w).0 (m w).1 (km.at w h);
  }
    where
      go :
          (wanted : Bool) (r : Result A) (w : World)
          → SameFiles w₀ w
          → SameFiles w₀ (settled wanted cleanup r w).1
      go wanted (ok a) w h = h
      go true (err e) w h = kc.at w h
      go false (err e) w h = h

  pub seed_destination-SameFiles :
      (st : MigrationState) (pve : ProxmoxSsh) (q : SeedRequest)
      → Keeps (SameFiles w₀) (seed_destination st pve q)
  unfolding seed_destination
  seed_destination-SameFiles st pve q =
      search
        (
          basic, plan_seed-SameFiles, create-SameFiles, cleaning_up-SameFiles, destroy-SameFiles,
          fill-SameFiles,
        )
        depth 12
