-- ===== src/World/Outside.antt =====
-- The appliance's files, beside the commands on the Proxmox host and the looks at the clock.
use hv2pve.Prelude.{String, ◌≡◌, refl, inl, inr, Bool, List, [], ◌∷◌, Bool-cases, Option-cases}
use hv2pve.Prelude.Int.{ℤ}
use hv2pve.Exec.Keeps.{Keeps, Keeps-finally, keeps_rules}
use hv2pve.World.{World, utc_now}
use hv2pve.Process.{run}
use hv2pve.Proxmox.{
  ProxmoxSsh, ssh_argv, command, shell, Config, config_get, config, status, require_stopped, stop,
  start, mkdir, remove, set_network,
}
use hv2pve.Controller.Remote.{start_on_bridge, isolate}
use hv2pve.Proxmox.Disk.{copy_to_host}
use hv2pve.Proxmox.Volume.{
  map_volume, unmap_device, apply_argv, clean_up, apply_mapped, apply_delta_to_volume,
}
use hv2pve.Json.{Value}
use hv2pve.Text.{starts_with}

-- The world has the files of another, the same clock, and the same temporary names.
pub record SameFiles (w₀ w : World) : Type 0 where
  pub files : w.files ≡ w₀.files
  pub clock : w.clock ≡ w₀.clock
  pub temp_name : w.temp_name ≡ w₀.temp_name

pub SameFiles-refl : (w : World) → SameFiles w w
SameFiles-refl w = record { files = refl; clock = refl; temp_name = refl }

module _ (w₀ : World) where
  pub utc_now-SameFiles : Keeps (SameFiles w₀) utc_now
  unfolding utc_now
  utc_now-SameFiles = record {
    at = λ s h. record { files = h.files; clock = h.clock; temp_name = h.temp_name };
  }

  pub run-SameFiles : (argv : List String) → Keeps (SameFiles w₀) (run argv)
  unfolding run
  run-SameFiles argv = record {
    at = λ s h. record { files = h.files; clock = h.clock; temp_name = h.temp_name };
  }

  pub command-SameFiles :
      (pve : ProxmoxSsh) (remote : List String) → Keeps (SameFiles w₀) (command pve remote)
  unfolding command
  command-SameFiles pve remote = run-SameFiles (ssh_argv pve remote)

  pub shell-SameFiles :
      (pve : ProxmoxSsh) (script : String) → Keeps (SameFiles w₀) (shell pve script)
  unfolding shell
  shell-SameFiles pve script = run-SameFiles (ssh_argv pve ("bash" ∷ "-lc" ∷ script ∷ []))

  ruleset basic = (keeps_rules, command-SameFiles, shell-SameFiles, run-SameFiles)

  pub config-SameFiles : (pve : ProxmoxSsh) (vmid : ℤ) → Keeps (SameFiles w₀) (config pve vmid)
  unfolding config
  config-SameFiles pve vmid = search basic

  pub status-SameFiles : (pve : ProxmoxSsh) (vmid : ℤ) → Keeps (SameFiles w₀) (status pve vmid)
  unfolding status
  status-SameFiles pve vmid = search basic

  pub require_stopped-SameFiles :
      (pve : ProxmoxSsh) (vmid : ℤ) → Keeps (SameFiles w₀) (require_stopped pve vmid)
  unfolding require_stopped
  require_stopped-SameFiles pve vmid = search (basic, status-SameFiles)

  ruleset host_rules = (basic, config-SameFiles, status-SameFiles, require_stopped-SameFiles)

  pub stop-SameFiles :
      (pve : ProxmoxSsh) (vmid timeout : ℤ) → Keeps (SameFiles w₀) (stop pve vmid timeout)
  unfolding stop
  stop-SameFiles pve vmid timeout = search host_rules

  pub start-SameFiles : (pve : ProxmoxSsh) (vmid : ℤ) → Keeps (SameFiles w₀) (start pve vmid)
  unfolding start
  start-SameFiles pve vmid = search host_rules

  pub remove-SameFiles : (pve : ProxmoxSsh) (path : String) → Keeps (SameFiles w₀) (remove pve path)
  unfolding remove
  remove-SameFiles pve path = search host_rules

  pub set_network-SameFiles :
      (pve : ProxmoxSsh) (vmid : ℤ) (net_key value : String)
      → Keeps (SameFiles w₀) (set_network pve vmid net_key value)
  unfolding set_network
  set_network-SameFiles pve vmid net_key value = search host_rules

  pub copy_to_host-SameFiles :
      (pve : ProxmoxSsh) (source target : String)
      → Keeps (SameFiles w₀) (copy_to_host pve source target)
  unfolding copy_to_host
  copy_to_host-SameFiles pve source target = search host_rules

  pub map_volume-SameFiles :
      (pve : ProxmoxSsh) (volume : String) → Keeps (SameFiles w₀) (map_volume pve volume)
  unfolding map_volume
  map_volume-SameFiles pve volume = search host_rules

  pub unmap_device-SameFiles :
      (pve : ProxmoxSsh) (device : String) → Keeps (SameFiles w₀) (unmap_device pve device)
  unfolding unmap_device
  unmap_device-SameFiles pve device = elim (Bool-cases (starts_with device "/dev/rbd")) [
    | inl e ↦ rw e (search host_rules)
    | inr e ↦ rw e (search host_rules)
  ]

  pub clean_up-SameFiles :
      (pve : ProxmoxSsh) (vmid : ℤ) (mapping : String × Bool)
      → Keeps (SameFiles w₀) (clean_up pve vmid mapping)
  unfolding clean_up
  clean_up-SameFiles pve vmid (device, created) =
      search (host_rules, unmap_device-SameFiles, remove-SameFiles) depth 8

  pub apply_mapped-SameFiles :
      (pve : ProxmoxSsh) (vmid : ℤ) (mapping : String × Bool)
      → Keeps (SameFiles w₀) (apply_mapped pve vmid mapping)
  unfolding apply_mapped
  apply_mapped-SameFiles pve vmid (device, created) =
      Keeps-finally (command pve (apply_argv vmid device)) (clean_up pve vmid (device, created))
        (command-SameFiles pve (apply_argv vmid device))
        (clean_up-SameFiles pve vmid (device, created))

  pub mkdir-SameFiles : (pve : ProxmoxSsh) (path : String) → Keeps (SameFiles w₀) (mkdir pve path)
  unfolding mkdir
  mkdir-SameFiles pve path = search host_rules

  pub apply_delta_to_volume-SameFiles :
      (pve : ProxmoxSsh) (vmid : ℤ) (volume metadata payload script : String)
      → Keeps (SameFiles w₀) (apply_delta_to_volume pve vmid volume metadata payload script)
  unfolding apply_delta_to_volume
  apply_delta_to_volume-SameFiles pve vmid volume metadata payload script =
      search
        (
          host_rules, mkdir-SameFiles, copy_to_host-SameFiles, map_volume-SameFiles,
          apply_mapped-SameFiles,
        )
        depth 14

  pub start_on_bridge-SameFiles :
      (pve : ProxmoxSsh) (vmid : ℤ) (bridge : String)
      → Keeps (SameFiles w₀) (start_on_bridge pve vmid bridge)
  unfolding start_on_bridge
  start_on_bridge-SameFiles pve vmid bridge =
      search (host_rules, set_network-SameFiles, start-SameFiles) depth 8

  pub isolate-SameFiles :
      (pve : ProxmoxSsh) (vmid : ℤ) (cfg : Config) (test : Value)
      → Keeps (SameFiles w₀) (isolate pve vmid cfg test)
  unfolding isolate
  isolate-SameFiles pve vmid cfg test = elim (Option-cases (config_get "net0" cfg)) [
    | inl e ↦ rw (e, isolate) (search host_rules)
    | inr (net0, e) ↦ rw (e, isolate) (search (host_rules, set_network-SameFiles))
  ]
