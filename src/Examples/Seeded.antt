-- ===== src/Examples/Seeded.antt =====
-- A seed that returns: the host shows one new unused disk once the import has been run.
use hv2pve.Seed.{
  ExportedDisk, field_of, exported_disk_candidates, is_used, unused_where, chosen_path,
  resolve_loop, resolve_exported_disks,
}
use hv2pve.Seed.Destination.{
  vmid_taken, name_taken, seed_disk, seed_disks, cleaning_up, SeedPlan, plan_seed, remote_directory,
  fill_destination, seed_destination,
}
use hv2pve.State.Record.{Session}
use hv2pve.Controller.Seeding.{seed}
use hv2pve.Controller.Seeding.Laws.{seed-recorded_volume}
use hv2pve.Controller.Remote.{recorded_volume}
use hv2pve.Exec.{value_error, ok, err, ◌>>=◌}
use hv2pve.World.{Answer, finished, World}
use hv2pve.Examples.Fixtures.{a_host}
use hv2pve.Examples.Seeding.{exported_state, seed_request, export_world}
use hv2pve.Prelude.{String, ◌≡◌, refl, none, List, [], ◌∷◌, ltb, str_eq, if◌then◌else◌}
use hv2pve.Prelude.Lists.{length}
use hv2pve.Prelude.Int.{pos}
use hv2pve.Json.{null, find, put, update, truthy, value_eq}
use hv2pve.Seed.Guest.{guest_of_report, inspect_guest_os, memory_mb_of, mac_of, guest_of}
use hv2pve.Text.{
  cat, cat_all, add_first, split, join, starts_with, digit, show_digits, show_nat, show, lower,
  contains, char_count, prefix, replace_char, quote,
}
use hv2pve.Proxmox.{ssh_base, ssh_argv, command, config, mkdir, remove}
use hv2pve.State.Payload.{as_fields, as_items}
use hv2pve.Text.Path.{last_part, name, stem, suffix}
use hv2pve.Json.Number.{parse_int, to_int}
use hv2pve.Process.{check_answer, run}
use hv2pve.Json.Render.{to_text}
use hv2pve.Proxmox.Disk.{
  loads, next_vmid, item_list, cluster_vms, import_disk, create_destination, attach_disk,
  set_boot_order, copy_to_host,
}
use hv2pve.State.Phase.{phase_eq, phase_in, allowed_transitions}
use hv2pve.State.Transition.{check_transition, enter_phase, set_phase}
use hv2pve.State.Validate.{validate}
use hv2pve.Seed.DiskMap.{IsImported, world_at}
use hv2pve.Controller.Seeding.Made.{loop_begins}

abbrev imported_answer : List (List String) → List String → Answer
imported_answer ran argv = finished (record {
  stdout = if ltb 6 (length ran) then "unused0: ceph:vm-105-disk-0" else "";
  stderr = "";
  returncode = pos 0;
})

abbrev import_world : World
import_world = record export_world { remote = imported_answer }

abbrev exported_disk : ExportedDisk
exported_disk = record {
  source_path = "C:\\vm\\a.vhdx";
  exported_path = "/export/a.vhdx";
  virtual_size = null;
  controller_type = null;
  controller_number = null;
  controller_location = null;
}

abbrev export_plan : SeedPlan
export_plan = record {
  guest = record {
    name = "vm";
    generation = pos 2;
    cores = pos 2;
    memory_mb = pos 4096;
    mac = none;
  };
  disks = exported_disk ∷ [];
  guest_os = "linux";
  vmid = pos 105;
}

abbrev seeding : Session
seeding = record { state = exported_state; world = import_world }

plan_found : (plan_seed exported_state a_host seed_request import_world).0 ≡ ok export_plan
unfolding plan_seed command resolve_exported_disks find ssh_argv lower as_items as_fields contains
    memory_mb_of stem suffix split add_first is_used join to_int value_eq show guest_of
    guest_of_report replace_char mac_of cat show_digits vmid_taken char_count check_answer cat_all
    field_of quote unused_where resolve_loop to_text name next_vmid starts_with chosen_path ssh_base
    digit show_nat run inspect_guest_os item_list parse_int exported_disk_candidates prefix loads
    truthy ◌>>=◌ name_taken cluster_vms last_part
plan_found = refl

seed_returns : (seed a_host seed_request seeding).0 ≡ ok tt
unfolding seed is_used resolve_exported_disks find field_of to_text as_items as_fields guest_of
    chosen_path truthy replace_char ◌>>=◌ seed_destination cluster_vms phase_eq seed_disks
    create_destination seed_disk config fill_destination set_boot_order remove cleaning_up
    copy_to_host import_disk attach_disk mkdir command vmid_taken phase_in value_eq check_transition
    set_phase plan_seed validate put enter_phase allowed_transitions name_taken update
seed_returns = refl

seed-recorded_volume_example :
    (volume : String) × IsImported a_host
      (pos 105)
      (remote_directory exported_state)
      "ceph"
      "scsi"
      (world_at a_host
        (pos 105)
        (remote_directory exported_state)
        "ceph"
        "scsi"
        0
        (exported_disk ∷ [])
        0
        (loop_begins exported_state a_host seed_request export_plan import_world))
      0
      exported_disk
      volume
    × (recorded_volume (pos 0) (seed a_host seed_request seeding).1.state ≡ (
        if str_eq volume ""
        then err (value_error "destination disk volume is missing")
        else ok volume))
seed-recorded_volume_example =
    seed-recorded_volume a_host seed_request seeding export_plan 0 exported_disk plan_found refl
      seed_returns
