-- ===== src/Seed/Planned.antt =====
-- controller/seed.py: the tests of `seed_destination` before it changes anything on the host.
use mathlib.Core.Path.{subst}
use hv2pve.Prelude.{
  ℕ, ◌≤◌, String, ◌≡◌, refl, sym, ap, ◌∙◌, ◌≢◌, ◌⊎◌, Bool, true, false, ◌&&◌, ◌||◌, List, [], ◌∷◌,
  arith, eq_iff, ltb, str_eq, if◌then◌else◌,
}
use hv2pve.Prelude.Lists.{length}
use hv2pve.Prelude.Int.{ℤ, pos, negsuc, ◌≤ℤ◌}
use hv2pve.Json.{Value, str, int, Fields, find, or_else, get, or_value, int_eq, value_eq}
use hv2pve.Json.Number.{to_int}
use hv2pve.Exec.{value_error, Result, ok, err, Exec, pure, lift, raise_if, continue, ◌>>=◌, ◌>>◌}
use hv2pve.Exec.Laws.{bind-returns, ok_inj, raise_if-returns, require-returns, and_then-ok}
use hv2pve.World.{World}
use hv2pve.State.Record.{MigrationState}
use hv2pve.State.Payload.{as_fields}
use hv2pve.Proxmox.{ProxmoxSsh}
use hv2pve.Proxmox.Disk.{cluster_vms}
use hv2pve.Seed.Guest.{Guest, memory_mb_of, first_network, guest_of, disk_bus_of}
use hv2pve.Seed.Destination.{
  vmid_taken, name_taken, chosen_vmid, guest_os_of, SeedRequest, SeedPlan, plan_seed,
  seed_destination,
}
use hv2pve.Seed.{ExportedDisk, resolve_exported_disks}

-- A VM of the cluster has another number and another name.
abbrev pub IsOther : ℤ → String → Value → Type 0
IsOther vmid name v =
    (x : Fields) × (id : ℤ) × (as_fields v ≡ ok x)
    × (to_int (or_else (find "vmid" x) (int (negsuc 0))) ≡ ok id)
    × (int_eq id vmid ≡ false)
    × (value_eq (get "name" x) (str name) ≡ false)

abbrev pub AllOther : ℤ → String → List Value → Type 0
AllOther vmid name [] = Unit
AllOther vmid name (v ∷ vs) = IsOther vmid name v × AllOther vmid name vs

and_then_false :
    (c : Bool) (r : Result Bool)
    → (if c then ok true else r) ≡ ok false
    → (c ≡ false) × (r ≡ ok false)
and_then_false true r h = absurd (ground arith)
and_then_false false r h = (refl, h)

not_taken :
    (vmid : ℤ) (name : String) (vs : List Value)
    → vmid_taken vmid vs ≡ ok false
    → name_taken name vs ≡ ok false
    → AllOther vmid name vs
unfolding vmid_taken name_taken
not_taken vmid name [] h k = tt
not_taken vmid name (v ∷ vs) h k =
    let (x, e, h1) = and_then-ok (as_fields v) _ false h in
    let (id, e2, h2) = and_then-ok (to_int (or_else (find "vmid" x) (int (negsuc 0)))) _ false h1 in
    let (y, e3, k1) = and_then-ok (as_fields v) _ false k in
    let same : y ≡ x = cc in
    let id_free = and_then_false (int_eq id vmid) (vmid_taken vmid vs) h2 in
    let name_free = and_then_false (value_eq (get "name" y) (str name)) (name_taken name vs) k1 in
    let free = subst (λ z. value_eq (get "name" z) (str name) ≡ false) same name_free.0 in
    ((x, id, e, e2, id_free.0, free), not_taken vmid name vs id_free.1 name_free.1)

memory_mb_of-le : (n : ℤ) → pos 512 ≤ℤ memory_mb_of n
unfolding memory_mb_of
memory_mb_of-le n = ground arith

guest_of-memory : (st : MigrationState) (g : Guest) → guest_of st ≡ ok g → pos 512 ≤ℤ g.memory_mb
unfolding guest_of
guest_of-memory st g h =
    let source = st.source in
    let (generation, e1, h1) =
      and_then-ok (to_int (or_value (get "generation" source) (int (pos 2)))) _ g h in
    let (cores, e2, h2) =
      and_then-ok
        (to_int (
          or_value (get "processor_count" source)
            (or_value (get "ProcessorCount" source) (int (pos 2)))))
        _ g h1 in
    let (memory, e3, h3) =
      and_then-ok
        (to_int (
          or_value (get "memory_startup_bytes" source) (
            or_value (get "MemoryStartupBytes" source)
              (or_value (get "memory_assigned_bytes" source) (int (pos 4294967296))))))
        _ g h2 in
    let (network, e4, h4) = and_then-ok (first_network source) _ g h3 in
    let same : memory_mb_of memory ≡ g.memory_mb = ground arith in
    rw (← same) (memory_mb_of-le memory)

-- The plan of a destination that nothing stands in the way of, by what the host has answered from
-- the world `w` on; in `t`, nothing but its looks at the host has been run.
pub record IsPlanned (st : MigrationState) (pve : ProxmoxSsh) (q : SeedRequest) (w t : World)
    (p : SeedPlan) : Type 0 where
  pub apart : q.test_vnet ≢ q.production_vnet
  pub found : World
  pub inspected : World
  pub numbered : World
  pub disks : resolve_exported_disks st q.export_root w ≡ (ok p.disks, found)
  pub guest : guest_of st ≡ ok p.guest
  pub system : guest_os_of q.guest_os p.disks found ≡ (ok p.guest_os, inspected)
  pub number : chosen_vmid pve q.vmid inspected ≡ (ok p.vmid, numbered)
  pub known_system : (p.guest_os ≡ "windows") ⊎ (p.guest_os ≡ "linux") ⊎ (p.guest_os ≡ "unknown")
  pub few_disks : disk_bus_of p.guest_os ≡ "sata" → length p.disks ≤ 6
  pub memory : pos 512 ≤ℤ p.guest.memory_mb
  pub existing : List Value
  pub listed : cluster_vms pve numbered ≡ (ok existing, t)
  pub free : AllOther p.vmid p.guest.name existing

at_most_six : (sata : Bool) (n : ℕ) → (sata && ltb 6 n) ≡ false → sata ≡ true → n ≤ 6
at_most_six sata n h e = ground arith

not_same : (s t : String) → str_eq s t ≡ false → s ≢ t
not_same s t h e = ground (arith, eq_iff s t)

one_of_three :
    (s : String)
    → (str_eq s "windows" || str_eq s "linux" || str_eq s "unknown") ≡ true
    → (s ≡ "windows") ⊎ (s ≡ "linux") ⊎ (s ≡ "unknown")
one_of_three s h = ground (arith, eq_iff s "windows", eq_iff s "linux", eq_iff s "unknown")

same_text : (s t : String) → s ≡ t → str_eq s t ≡ true
same_text s t e = ground (arith, eq_iff s t)

both : {A B : Type 0} (x : A × B) (a : A) → x.0 ≡ a → x ≡ (a, x.1)
both x a e i = (e i, x.1)

module _ (st : MigrationState) (pve : ProxmoxSsh) (q : SeedRequest) (w t : World) (p : SeedPlan)
    (guest : Guest) (disks : List ExportedDisk) (system : String) where
  -- The rest of `plan_seed` behind the cluster's list.
  abbrev by_list : ℤ → List Value → Exec World SeedPlan
  by_list vmid existing = do
    same_id ← lift (vmid_taken vmid existing)
    raise_if same_id (value_error "destination VMID already exists")
    same_name ← lift (name_taken guest.name existing)
    raise_if same_name (value_error "destination VM name already exists")
    pure (record { guest = guest; disks = disks; guest_os = system; vmid = vmid })

  by_list-AllOther :
      (vmid : ℤ) (existing : List Value) (v : World)
      → by_list vmid existing v ≡ (ok p, t)
      → AllOther vmid guest.name existing
        × (record { guest = guest; disks = disks; guest_os = system; vmid = vmid } ≡ p)
        × (v ≡ t)
  by_list-AllOther vmid existing v h =
      let (same_id, v1, e1, h1) = bind-returns (lift (vmid_taken vmid existing)) _ v t p h in
      let (e2, h2) = raise_if-returns same_id _ _ v1 t p h1 in
      let (same_name, v2, e3, h3) =
        bind-returns (lift (name_taken guest.name existing)) _ v1 t p h2 in
      let (e4, h4) = raise_if-returns same_name _ _ v2 t p h3 in
      (
        not_taken vmid guest.name existing (ap (λ x. x.0) e1 ∙ ap ok e2)
            (ap (λ x. x.0) e3 ∙ ap ok e4),
        ok_inj _ p (ap (λ x. x.0) h4),
        ap (λ x. x.1) e1 ∙ ap (λ x. x.1) e3 ∙ ap (λ x. x.1) h4,
      )

  numbered-IsPlanned :
      (found inspected : World)
      → q.test_vnet ≢ q.production_vnet
      → resolve_exported_disks st q.export_root w ≡ (ok disks, found)
      → guest_of st ≡ ok guest
      → guest_os_of q.guest_os disks found ≡ (ok system, inspected)
      → (system ≡ "windows") ⊎ (system ≡ "linux") ⊎ (system ≡ "unknown")
      → (disk_bus_of system ≡ "sata" → length disks ≤ 6)
      → (chosen_vmid pve q.vmid >>= λ vmid. cluster_vms pve >>= by_list vmid) inspected ≡ (ok p, t)
      → IsPlanned st pve q w t p
  numbered-IsPlanned found inspected apart e1 e2 e3 known few h =
      let (vmid, v1, e4, h1) = bind-returns (chosen_vmid pve q.vmid) _ inspected t p h in
      let (existing, v2, e5, h2) = bind-returns (cluster_vms pve) _ v1 t p h1 in
      let (free, whole, after) = by_list-AllOther vmid existing v2 h2 in
      subst (IsPlanned st pve q w t) whole (record {
        apart = apart;
        found = found;
        inspected = inspected;
        numbered = v1;
        disks = e1;
        guest = e2;
        system = e3;
        number = e4;
        known_system = known;
        few_disks = few;
        memory = guest_of-memory st guest e2;
        existing = existing;
        listed = e5 ∙ ap (λ x. (ok existing, x)) after;
        free = free;
      })

plan_seed-IsPlanned :
    (st : MigrationState) (pve : ProxmoxSsh) (q : SeedRequest) (w t : World) (p : SeedPlan)
    → plan_seed st pve q w ≡ (ok p, t)
    → IsPlanned st pve q w t p
unfolding plan_seed
plan_seed-IsPlanned st pve q w t p h =
    let (e1, h1) = raise_if-returns _ _ _ w t p h in
    let (disks, w1, e2, h2) = bind-returns (resolve_exported_disks st q.export_root) _ w t p h1 in
    let (guest, w2, e3, h3) = bind-returns (lift (guest_of st)) _ w1 t p h2 in
    let (system, w3, e4, h4) = bind-returns (guest_os_of q.guest_os disks) _ w2 t p h3 in
    let (e5, h5) = require-returns _ _ _ w3 t p h4 in
    let (e6, h6) = raise_if-returns _ _ _ w3 t p h5 in
    numbered-IsPlanned st pve q w t p guest disks system w1 w3 (not_same _ _ e1) e2
      (ap (λ x. x.0) e3)
      (subst (λ v. guest_os_of q.guest_os disks v ≡ (ok system, w3)) (sym (ap (λ x. x.1) e3)) e4)
      (one_of_three system e5) (λ sata. at_most_six _ (length disks) e6 (same_text _ _ sata)) h6

planned_first :
    {A : Type 0} (st : MigrationState) (pve : ProxmoxSsh) (q : SeedRequest)
    (rest : SeedPlan → Exec World A) (w : World)
    → ((plan_seed st pve q >>= rest) w).1.ran ≢ (plan_seed st pve q w).1.ran
    → (p : SeedPlan) × ((plan_seed st pve q w).0 ≡ ok p)
unfolding ◌>>=◌
planned_first {A} st pve q rest w = go (plan_seed st pve q w).0
  where
    go :
        (r : Result SeedPlan)
        → (continue r rest (plan_seed st pve q w).1).1.ran ≢ (plan_seed st pve q w).1.ran
        → (p : SeedPlan) × (r ≡ ok p)
    go (err e) ne = absurd (ne refl)
    go (ok p) ne = (p, refl)

-- If `seed_destination` runs anything behind its looks at the host, whether it returns or raises,
-- then it has a plan, by what the host answered to these looks in their order: the test and the
-- production network differ; the disks are those that the export was resolved to, and SATA gets at
-- most six of them; the guest's system is windows, linux or unknown; the VM gets at least 512 MB of
-- memory; and the last look was the cluster's list of its VMs, none of which has the new VM's number
-- or name.
pub seed_destination-IsPlanned :
    (st : MigrationState) (pve : ProxmoxSsh) (q : SeedRequest) (w : World)
    → (seed_destination st pve q w).1.ran ≢ (plan_seed st pve q w).1.ran
    → (p : SeedPlan) × ((plan_seed st pve q w).0 ≡ ok p)
      × IsPlanned st pve q w (plan_seed st pve q w).1 p
unfolding seed_destination
seed_destination-IsPlanned st pve q w ne =
    let (p, e) = planned_first st pve q _ w ne in
    (
      p,
      e,
      plan_seed-IsPlanned st pve q w (plan_seed st pve q w).1 p
          (both (plan_seed st pve q w) (ok p) e),
    )
