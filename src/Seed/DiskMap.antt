-- ===== src/Seed/DiskMap.antt =====
-- The `disk_map` that `seed_destination` returns: one entry for each disk, under its number.
use hv2pve.Prelude.{
  ℕ, zero, suc, ◌+◌, String, ◌≡◌, sym, ap, ◌≢◌, Option, some, List, [], ◌∷◌, arith, eq_iff,
}
use hv2pve.Prelude.Lists.{get_elem?}
use hv2pve.Prelude.Int.{ℤ}
use hv2pve.Json.{Value, obj, str, Fields, end, field, find}
use hv2pve.Text.{cat, cat_all, show_nat, lower}
use hv2pve.Text.Path.{suffix}
use hv2pve.Exec.{ok}
use hv2pve.Exec.Laws.{bind-ok, ok_inj}
use hv2pve.World.{World}
use hv2pve.Proxmox.{ProxmoxSsh, remove}
use hv2pve.Proxmox.Disk.{import_disk, attach_disk, copy_to_host}
use hv2pve.Seed.{ExportedDisk}
use hv2pve.Seed.Destination.{seed_disk, seed_disks}
use hv2pve.Json.Number.Laws.{show_nat_injective}
use mathlib.Core.Path.{subst}

-- The entry of a disk whose volume has a name.
abbrev pub disk_entry : ExportedDisk → String → String → Value
disk_entry disk volume slot = obj (
    field "source_path" (str disk.source_path) (
      field "exported_path" (str disk.exported_path) (
        field "volume" (str volume)
          (field "slot" (str slot) (field "virtual_size" disk.virtual_size end)))))

find_first :
    (k j : ℕ) (v : Value) (more m : Fields)
    → k ≡ j
    → field (show_nat j) v more ≡ m
    → find (show_nat k) m ≡ some v
unfolding find
find_first k j v more m e h =
    rw (← h) (ground (arith, eq_iff (show_nat j) (show_nat k), ap show_nat e))

find_later :
    (k j : ℕ) (v : Value) (more m : Fields) (o : Option Value)
    → k ≢ j
    → field (show_nat j) v more ≡ m
    → find (show_nat k) more ≡ o
    → find (show_nat k) m ≡ o
unfolding find
find_later k j v more m o ne h f =
    rw (← h) (ground (arith, eq_iff (show_nat j) (show_nat k), show_nat_injective j k))

module _ (pve : ProxmoxSsh) (vmid : ℤ) (dir storage bus : String) where
  -- The copy of a disk's file on the host.
  abbrev pub remote_copy : ℕ → ExportedDisk → String
  unfolding cat_all show_nat lower suffix
  remote_copy index disk =
      cat_all (dir ∷ "/disk-" ∷ show_nat index ∷ lower (suffix disk.exported_path) ∷ [])

  -- The volume is the one that the import gives once the disk's file is copied from `w` on.
  abbrev pub IsImported : World → ℕ → ExportedDisk → String → Type 0
  IsImported w index disk volume =
      (import_disk pve vmid (remote_copy index disk) storage
        (copy_to_host pve disk.exported_path (remote_copy index disk) w).1).0
      ≡ ok volume

  -- The world in which the loop comes to the disk `i`.
  abbrev pub world_at : ℕ → List ExportedDisk → ℕ → World → World
  world_at index [] i w = w
  world_at index (d ∷ disks) zero w = w
  world_at index (d ∷ disks) (suc i) w =
      world_at (suc index) disks i (seed_disk pve vmid dir storage bus index d w).1

  abbrev pub IsEntry : World → ℕ → ExportedDisk → Value → Type 0
  IsEntry w index disk v =
      (volume : String) × IsImported w index disk volume
      × (v ≡ disk_entry disk volume (cat bus (show_nat index)))

  seed_disk-IsEntry :
      (index : ℕ) (disk : ExportedDisk) (w : World) (v : Value)
      → (seed_disk pve vmid dir storage bus index disk w).0 ≡ ok v
      → IsEntry w index disk v
  unfolding seed_disk
  seed_disk-IsEntry index disk w v h =
      let (a, e1, h1) =
        bind-ok (copy_to_host pve disk.exported_path (remote_copy index disk)) _ w v h in
      let (volume, e2, h2) =
        bind-ok (import_disk pve vmid (remote_copy index disk) storage) _ _ v h1 in
      let (b, e3, h3) = bind-ok (attach_disk pve vmid (cat bus (show_nat index)) volume) _ _ v h2 in
      let (c, e4, h4) = bind-ok (remove pve (remote_copy index disk)) _ _ v h3 in
      (volume, e2, sym (ok_inj _ v h4))

  pub seed_disks-find :
      (disks : List ExportedDisk) (index i k : ℕ) (disk : ExportedDisk) (w : World) (m : Fields)
      → k ≡ index + i
      → (seed_disks pve vmid dir storage bus index disks w).0 ≡ ok m
      → get_elem? disks i ≡ some disk
      → (v : Value) × (find (show_nat k) m ≡ some v) × IsEntry (world_at index disks i w) k disk v
  unfolding seed_disks
  seed_disks-find [] index i k disk w m e h g = absurd (ground arith)
  seed_disks-find (d ∷ disks) index zero k disk w m e h g =
      let (v, e1, h1) = bind-ok (seed_disk pve vmid dir storage bus index d) _ w m h in
      let (more, e2, h2) =
        bind-ok (seed_disks pve vmid dir storage bus (suc index) disks) _ _ m h1 in
      let same : k ≡ index = omega arith in
      let whole = ok_inj _ m h2 in
      let seen = seed_disk-IsEntry index d w v e1 in
      let disk_is : d ≡ disk = ground arith in
      (
        v,
        find_first k index v more m same whole,
        subst (λ n. IsEntry w n disk v) (sym same) (subst (λ x. IsEntry w index x v) disk_is seen),
      )
  seed_disks-find (d ∷ disks) index (suc i) k disk w m e h g =
      let (v, e1, h1) = bind-ok (seed_disk pve vmid dir storage bus index d) _ w m h in
      let (more, e2, h2) =
        bind-ok (seed_disks pve vmid dir storage bus (suc index) disks) _ _ m h1 in
      let (u, found, seen) =
        seed_disks-find disks (suc index) i k disk _ more (omega arith) e2 (ground arith) in
      let other : k ≢ index = λ same. omega arith in
      (u, find_later k index v more m (some u) other (ok_inj _ m h2) found, seen)
