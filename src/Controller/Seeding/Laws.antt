-- ===== src/Controller/Seeding/Laws.antt =====
-- What a seed leaves for the deltas that follow: the volume of each disk.
use hv2pve.Prelude.{ℕ, String, ◌≡◌, refl, Bool, true, false, some, arith, str_eq, if◌then◌else◌}
use hv2pve.Json.{Value, str, bool, Fields, end, field, find, update, truthy}
use hv2pve.Json.Laws.{find-put}
use hv2pve.Text.{cat, show_nat, show}
use hv2pve.Exec.{
  value_error, safety_error, Result, ok, err, Exec, Done, require, continue, ◌>>=◌, ◌>>◌,
}
use hv2pve.World.{World}
use hv2pve.State.Record.{MigrationState, Session, in_world, record_event}
use hv2pve.Proxmox.{ProxmoxSsh}
use hv2pve.Seed.Guest.{disk_bus_of}
use hv2pve.Seed.Destination.{SeedRequest, SeedPlan, plan_seed, remote_directory, seed_destination}
use hv2pve.Exec.Keeps.{Keeps, keeps_rules}
use hv2pve.State.Phase.{Phase, baseline_ready, seeded, phase_eq}
use hv2pve.State.Transition.{set_phase}
use hv2pve.State.Transition.Laws.{PhaseSet, set_phase-PhaseSet}
use hv2pve.Controller.{set_destination, set_validation}
use hv2pve.Controller.Seeding.{record_seed, seed}
use hv2pve.Controller.Remote.{volume_at, recorded_volume}
use hv2pve.Json.Render.{to_text}
use hv2pve.Seed.{ExportedDisk}
use hv2pve.Seed.DiskMap.{disk_entry, IsImported, world_at, seed_disks-find}
use hv2pve.Prelude.Lists.{get_elem?}
use hv2pve.Prelude.Int.{pos}
use hv2pve.Controller.Seeding.Made.{HasMap, loop_begins, seed_destination-IsMap}

no_entry : (k : String) (v : Value) → find k end ≡ some v → ⊥
unfolding find
no_entry k v h = ground arith

module _ (m : Fields) where
  abbrev Mapped : Session → Type 0
  Mapped s = HasMap m s.state.destination

  powered-Mapped : (v : Value) → Keeps Mapped (set_destination "powered_on" v)
  powered-Mapped v = record { at = λ s h. simp find-put h }

  validation-Mapped : (k : String) (v : Value) → Keeps Mapped (set_validation k v)
  validation-Mapped k v = record { at = λ s h. h }

  event-Mapped : (event : String) (details : Fields) → Keeps Mapped (record_event event details)
  unfolding record_event ◌>>=◌
  event-Mapped event details = record { at = λ s h. h }

  phase-Mapped :
      (phase : Phase) (reason : Value) (force : Bool) → Keeps Mapped (set_phase phase reason force)
  phase-Mapped phase reason force = record {
    at =
        λ s h. after s h (set_phase phase reason force s) (set_phase-PhaseSet phase reason force s);
  }
    where
      after :
          (s : Session)
          → Mapped s
          → (out : Result Done × Session) → PhaseSet phase reason force s out
          → Mapped out.1
      after s h (ok u, t) p = rw (p.0) h
      after s h (err e, t) p = rw (p.0) h

  -- The update is kept by the rest of what `seed` writes.
  record_seed-map :
      (r : Fields) (s : Session)
      → HasMap m (update s.state.destination r)
      → HasMap m (record_seed r s).1.state.destination
  unfolding record_seed ◌>>=◌
  record_seed-map r s h =
      (rest-Mapped r).at
        (record s { state = record (s.state) { destination = update s.state.destination r } }) h
    where
      rest-Mapped :
          (r : Fields)
          → Keeps Mapped (do
            set_destination "powered_on" (bool false)
            set_validation "baseline_verified" (bool true)
            set_phase seeded (str "baseline imported into Proxmox") false
            record_event "destination_seeded" r)
      rest-Mapped r =
          search (keeps_rules, powered-Mapped, validation-Mapped, phase-Mapped, event-Mapped) depth
            12

volume_at_entry :
    (st : MigrationState) (m : Fields) (k : String) (disk : ExportedDisk) (volume slot : String)
    → HasMap m st.destination
    → find k m ≡ some (disk_entry disk volume slot)
    → volume_at k st ≡ (
        if str_eq volume ""
        then err (value_error "destination disk volume is missing")
        else ok volume)
unfolding volume_at truthy to_text find
volume_at_entry st end k disk volume slot h f = absurd (no_entry k _ f)
volume_at_entry st (field j v d) k disk volume slot h f = ground (arith, h, f)

module _ (pve : ProxmoxSsh) (q : SeedRequest) (s : Session) where
  -- The object and the world once the destination is made.
  abbrev made : Session
  made = record s { world = (seed_destination s.state pve q s.world).1 }

  -- A seed that returns has made the destination, and then written it down.
  seed-record :
      (seed pve q s).0 ≡ ok tt
      → (r : Fields) × ((seed_destination s.state pve q s.world).0 ≡ ok r)
        × (seed pve q s ≡ record_seed r made)
  unfolding seed ◌>>=◌
  seed-record h = from_require (phase_eq s.state.phase baseline_ready) h
    where
      rest : Exec Session Done
      rest = in_world (seed_destination s.state pve q) >>= record_seed

      from_made :
          (out : Result Fields × World)
          → (continue out.0 record_seed (record s { world = out.1 })).0 ≡ ok tt
          → (r : Fields) × (out.0 ≡ ok r)
            × (continue out.0 record_seed (record s { world = out.1 })
                ≡ record_seed r (record s { world = out.1 }))
      from_made (ok r, w) h = (r, refl, refl)
      from_made (err e, w) h = absurd (ground arith)

      from_require :
          (c : Bool)
          → ((require c (safety_error "seed requires BASELINE_READY") >> rest) s).0 ≡ ok tt
          → (r : Fields) × ((seed_destination s.state pve q s.world).0 ≡ ok r)
            × ((require c (safety_error "seed requires BASELINE_READY") >> rest) s
                ≡ record_seed r made)
      from_require true h = from_made (seed_destination s.state pve q s.world) h
      from_require false h = absurd (ground arith)

-- Where `seed` returns, a delta finds the volume of each of its disks: for the number of a disk of
-- its plan, the recorded volume is the one that this run's import gave, once the VM was made, the
-- disks before it were seeded and the disk's file was copied; or the error of a missing volume, if
-- that was an empty text.
pub seed-recorded_volume :
    (pve : ProxmoxSsh) (q : SeedRequest) (s : Session) (p : SeedPlan) (i : ℕ) (disk : ExportedDisk)
    → (plan_seed s.state pve q s.world).0 ≡ ok p
    → get_elem? p.disks i ≡ some disk
    → (seed pve q s).0 ≡ ok tt
    → (volume : String) × IsImported pve p.vmid
        (remote_directory s.state)
        q.storage
        (disk_bus_of p.guest_os)
        (world_at pve p.vmid
          (remote_directory s.state)
          q.storage
          (disk_bus_of p.guest_os)
          0
          p.disks
          i
          (loop_begins s.state pve q p s.world))
        i
        disk
        volume
      × (recorded_volume (pos i) (seed pve q s).1.state ≡ (
          if str_eq volume ""
          then err (value_error "destination disk volume is missing")
          else ok volume))
unfolding recorded_volume show
seed-recorded_volume pve q s p i disk planned at h =
    let (r, returned, done) = seed-record pve q s h in
    let (m, looped, has) =
      seed_destination-IsMap s.state pve q p s.world r s.state.destination planned returned in
    let kept = record_seed-map m r (made pve q s) has in
    let (v, found, (volume, imported, is_entry)) =
      seed_disks-find pve p.vmid (remote_directory s.state) q.storage (disk_bus_of p.guest_os)
        p.disks 0 i i disk (loop_begins s.state pve q p s.world) m (omega arith) looped at in
    (
      volume,
      imported,
      volume_at_entry (seed pve q s).1.state m (show_nat i) disk volume
          (cat (disk_bus_of p.guest_os) (show_nat i)) (rw done kept) (rw (← is_entry) found),
    )
