-- ===== src/Examples/Volumes.antt =====
-- A delta for a volume on a host that reports its VM stopped.
use hv2pve.Prelude.{String, ◌≡◌, refl, ap, ◌≢◌, true, List, [], ◌∷◌, ◌++◌, arith}
use hv2pve.Prelude.Lists.{length}
use hv2pve.Prelude.Int.{pos}
use hv2pve.Exec.{ok, ◌>>=◌}
use hv2pve.Proxmox.{command, shell, status, require_stopped, with_bridge}
use hv2pve.Proxmox.Volume.{
  rbd_map_script, read_mapping, map_volume, apply_mapped, apply_delta_to_volume,
}
use hv2pve.Proxmox.Volume.Laws.{apply_delta_to_volume-stopped}
use hv2pve.Examples.Fixtures.{host_answer, world_with, no_files, a_host}
use hv2pve.Proxmox.Disk.{copy_to_host}
use hv2pve.Text.{cat, split}
use hv2pve.Process.{check_answer}
use hv2pve.Proxmox.Volume.CleanUp.{Removes, applier, clean_up_runs, apply_mapped-clean_up_runs}
use hv2pve.Proxmox.Bridge.{WithoutBridges, with_bridge-split}

abbrev delta_run : List (List String)
delta_run =
    (apply_delta_to_volume a_host (pos 101) "rbd:vm-101-disk-0" "d.json" "d.bin" "s.py"
      (world_with no_files)).1.ran

abbrev status_run : List (List String)
status_run = (status a_host (pos 101) (world_with no_files)).1.ran

six_commands : length delta_run ≡ 6
unfolding apply_delta_to_volume ◌>>=◌ require_stopped status command copy_to_host map_volume
    rbd_map_script shell read_mapping
six_commands = refl

one_command : length status_run ≡ 1
unfolding status ◌>>=◌ command
one_command = refl

delta_runs_on : delta_run ≢ status_run
delta_runs_on h = let both = ap length h in omega (arith, six_commands, one_command, both)

apply_delta_to_volume-stopped_example :
    (status a_host (pos 101) (world_with no_files)).0 ≡ ok "stopped"
apply_delta_to_volume-stopped_example =
    apply_delta_to_volume-stopped a_host (pos 101) "rbd:vm-101-disk-0" "d.json" "d.bin" "s.py"
      (world_with no_files) delta_runs_on

with_bridge-split_example :
    (others : List String) × WithoutBridges (split b',' "e1000,bridge=vmbr9,tag=5") others
    × (split b',' (with_bridge "e1000,bridge=vmbr9,tag=5" "vmbr1")
        ≡ others ++ cat "bridge=" "vmbr1" ∷ [])
with_bridge-split_example =
    with_bridge-split "e1000,bridge=vmbr9,tag=5" "vmbr1" (refl, (refl, (refl, (refl, (refl, tt)))))

host-Removes : Removes a_host host_answer
unfolding check_answer
host-Removes ran path = ("status: stopped", refl)

apply_mapped-clean_up_runs_example :
    apply_mapped a_host (pos 101) ("/dev/rbd0", true) (world_with no_files) ≡ (
      ok "status: stopped",
      record (world_with no_files) {
        ran =
            applier a_host (pos 101) "/dev/rbd0"
            ∷ clean_up_runs a_host (pos 101) ("/dev/rbd0", true);
      },
    )
unfolding check_answer
apply_mapped-clean_up_runs_example =
    apply_mapped-clean_up_runs a_host (world_with no_files) host-Removes (pos 101) "/dev/rbd0" true
