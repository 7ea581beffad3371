-- ===== src/Controller/Seeding/Made.antt =====
-- controller/seed.py: the `disk_map` in what `seed_destination` returns.
use hv2pve.Prelude.{◌≡◌, sym, ◌∙◌, Bool, true, false, some}
use hv2pve.Json.{obj, Fields, find, update}
use hv2pve.Json.Laws.{find-put}
use hv2pve.Text.{cat}
use hv2pve.Exec.{Result, ok, err, Exec, Done}
use hv2pve.Exec.Laws.{bind-ok, ok_inj}
use hv2pve.World.{World}
use hv2pve.State.Record.{MigrationState}
use hv2pve.Proxmox.{ProxmoxSsh, mkdir}
use hv2pve.Proxmox.Disk.{create_destination, set_boot_order, destroy}
use hv2pve.Seed.Guest.{nic_model_of, disk_bus_of}
use hv2pve.Seed.Destination.{
  seed_disks, settled, cleaning_up, SeedRequest, SeedPlan, plan_seed, remote_directory,
  fill_destination, seed_destination,
}
use mathlib.Core.Path.{subst}

cleaning_up-ok :
    {A : Type 0} (wanted : Bool) (cleanup : Exec World Done) (m : Exec World A) (w : World) (a : A)
    → (cleaning_up wanted cleanup m w).0 ≡ ok a
    → (m w).0 ≡ ok a
unfolding cleaning_up
cleaning_up-ok {A} wanted cleanup m w a = go wanted (m w).0 (m w).1
  where
    go :
        (wanted : Bool) (r : Result A) (v : World)
        → (settled wanted cleanup r v).0 ≡ ok a
        → r ≡ ok a
    go wanted (ok b) v h = h
    go true (err e) v h = h
    go false (err e) v h = h

-- A dict with a map as its `disk_map`.
abbrev pub HasMap : Fields → Fields → Type 0
HasMap m d = find "disk_map" d ≡ some (obj m)

module _ (st : MigrationState) (pve : ProxmoxSsh) (q : SeedRequest) (p : SeedPlan) where
  -- The world in which the loop over the disks begins: the plan is made, and so are the directory
  -- and the VM.
  abbrev pub loop_begins : World → World
  loop_begins w =
      (create_destination pve p.vmid p.guest.name p.guest.generation p.guest.cores p.guest.memory_mb
        q.test_vnet p.guest.mac (nic_model_of p.guest_os) q.storage
        (mkdir pve (remote_directory st) (plan_seed st pve q w).1).1).1

  -- The loop over the disks of a plan has returned this map.
  abbrev pub IsMap : World → Fields → Type 0
  IsMap w m =
      (seed_disks pve p.vmid (remote_directory st) q.storage (disk_bus_of p.guest_os) 0 p.disks w).0
      ≡ ok m

  fill-IsMap :
      (w : World) (r d : Fields)
      → (fill_destination st pve q p w).0 ≡ ok r
      → (m : Fields) × IsMap w m × HasMap m (update d r)
  unfolding fill_destination update
  fill-IsMap w r d h =
      let (m, e1, h1) =
        bind-ok
          (seed_disks pve p.vmid (remote_directory st) q.storage (disk_bus_of p.guest_os) 0 p.disks)
          _ w r h in
      let (a, e2, h2) =
        bind-ok (set_boot_order pve p.vmid (cat (disk_bus_of p.guest_os) "0")) _ _ r h1 in
      (m, e1, subst (λ x. HasMap m (update d x)) (ok_inj _ r h2) (simp find-put))

  same_fill :
      (p' : SeedPlan)
      → p' ≡ p
      → (begins : SeedPlan → World) (r d : Fields)
      → (fill_destination st pve q p' (begins p')).0 ≡ ok r
      → (m : Fields) × IsMap (begins p) m × HasMap m (update d r)
  same_fill p' same begins r d h =
      fill-IsMap (begins p) r d
        (subst (λ x. (fill_destination st pve q x (begins x)).0 ≡ ok r) same h)

  pub seed_destination-IsMap :
      (w : World) (r d : Fields)
      → (plan_seed st pve q w).0 ≡ ok p
      → (seed_destination st pve q w).0 ≡ ok r
      → (m : Fields) × IsMap (loop_begins w) m × HasMap m (update d r)
  unfolding seed_destination
  seed_destination-IsMap w r d planned h =
      let (p', e1, h1) = bind-ok (plan_seed st pve q) _ w r h in
      let (a, e2, h2) = bind-ok (mkdir pve (remote_directory st)) _ _ r h1 in
      let (b, e3, h3) =
        bind-ok
          (create_destination pve p'.vmid p'.guest.name p'.guest.generation p'.guest.cores
            p'.guest.memory_mb q.test_vnet p'.guest.mac (nic_model_of p'.guest_os) q.storage)
          _ _ r h2 in
      let same = ok_inj p' p (sym e1 ∙ planned) in
      let filled =
        cleaning_up-ok q.cleanup_on_failure (destroy pve p'.vmid) (fill_destination st pve q p') _ r
          h3 in
      same_fill p' same
        (λ x.
          (create_destination pve x.vmid x.guest.name x.guest.generation x.guest.cores
            x.guest.memory_mb q.test_vnet x.guest.mac (nic_model_of x.guest_os) q.storage
            (mkdir pve (remote_directory st) (plan_seed st pve q w).1).1).1)
        r d filled
