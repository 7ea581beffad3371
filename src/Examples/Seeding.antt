-- ===== src/Examples/Seeding.antt =====
-- A destination that is planned and created.
use hv2pve.Prelude.{◌≡◌, refl, ap, ◌≢◌, true, some, [], ◌∷◌, arith}
use hv2pve.Prelude.Lists.{length}
use hv2pve.Prelude.Int.{pos}
use hv2pve.Json.{Value, obj, arr, str, int, end, field, nil, cons, find, truthy, value_eq}
use hv2pve.Exec.{ok, ◌>>=◌}
use hv2pve.World.{World}
use hv2pve.State.Record.{MigrationState}
use hv2pve.State.Phase.{baseline_ready}
use hv2pve.Seed.Destination.{
  vmid_taken, name_taken, seed_disk, seed_disks, cleaning_up, SeedRequest, SeedPlan, plan_seed,
  remote_directory, fill_destination, seed_destination,
}
use hv2pve.Seed.Planned.{IsPlanned, seed_destination-IsPlanned}
use hv2pve.Examples.Fixtures.{ready_state, world_with, no_files, a_host}
use hv2pve.Proxmox.{
  ssh_base, ssh_argv, command, config_get, config_put, parse_config, config, status,
  require_stopped, stop, mkdir, remove,
}
use hv2pve.Json.Number.{parse_int, to_int}
use hv2pve.Seed.Guest.{guest_of_report, inspect_guest_os, memory_mb_of, mac_of, guest_of}
use hv2pve.Text.{
  cat, cat_all, add_first, split, split_once, join, starts_with, left_strip, right_strip, lines,
  words, digit, show_digits, show_nat, show, lower, contains, char_count, prefix, replace_char,
  quote,
}
use hv2pve.Proxmox.Disk.{
  loads, next_vmid, item_list, cluster_vms, new_unused, import_disk, create_destination,
  attach_disk, set_boot_order, destroy, copy_to_host,
}
use hv2pve.Seed.{
  field_of, exported_disk_candidates, is_used, unused_where, chosen_path, resolve_loop,
  resolve_exported_disks,
}
use hv2pve.Text.Path.{last_part, name, stem, suffix}
use hv2pve.State.Payload.{as_fields, as_items}
use hv2pve.Json.Render.{to_text}
use hv2pve.Process.{check_answer, run}

abbrev pub exported_state : MigrationState
exported_state = record ready_state {
  phase = baseline_ready;
  source =
      field "vm_name" (str "vm")
        (field "disks" (arr (cons (obj (field "Path" (str "C:\\vm\\a.vhdx") end)) nil)) end);
}

abbrev pub seed_request : SeedRequest
seed_request = record {
  storage = "ceph";
  test_vnet = "vmbr9";
  production_vnet = "vmbr1";
  export_root = some "/export";
  vmid = some (pos 105);
  guest_os = "linux";
  cleanup_on_failure = true;
}

abbrev pub one_vm : Value
one_vm = arr (cons (obj (field "vmid" (int (pos 100)) (field "name" (str "db") end))) nil)

abbrev pub export_world : World
export_world = record (world_with no_files) {
  tree = λ root. some ("/export/a.vhdx" ∷ []);
  json_loads = λ s. some one_vm;
}

planned_runs : length (plan_seed exported_state a_host seed_request export_world).1.ran ≡ 1
unfolding value_eq plan_seed to_int inspect_guest_os cat mac_of ◌>>=◌ next_vmid digit is_used
    vmid_taken loads exported_disk_candidates name show_digits find quote truthy replace_char
    unused_where as_items cluster_vms guest_of split guest_of_report resolve_exported_disks
    resolve_loop add_first char_count parse_int last_part lower item_list suffix chosen_path
    starts_with to_text ssh_base command stem ssh_argv prefix show_nat as_fields field_of show run
    contains check_answer cat_all memory_mb_of join name_taken
planned_runs = refl

seeded_runs : length (seed_destination exported_state a_host seed_request export_world).1.ran ≡ 10
unfolding plan_seed seed_destination copy_to_host destroy mkdir new_unused fill_destination
    create_destination config split_once import_disk remote_directory set_boot_order words status
    name_taken config_put attach_disk require_stopped seed_disks cleaning_up stop lines seed_disk
    right_strip parse_config remove config_get left_strip as_items is_used ◌>>=◌ guest_of command
    resolve_exported_disks replace_char vmid_taken value_eq truthy field_of cluster_vms chosen_path
    find
seeded_runs = refl

more_runs :
    (seed_destination exported_state a_host seed_request export_world).1.ran
    ≢ (plan_seed exported_state a_host seed_request export_world).1.ran
more_runs h = let same = ap length h in omega (arith, planned_runs, seeded_runs, same)

seed_destination-IsPlanned_example :
    (p : SeedPlan) × ((plan_seed exported_state a_host seed_request export_world).0 ≡ ok p)
    × IsPlanned exported_state a_host seed_request export_world
        (plan_seed exported_state a_host seed_request export_world).1
        p
seed_destination-IsPlanned_example =
    seed_destination-IsPlanned exported_state a_host seed_request export_world more_runs
