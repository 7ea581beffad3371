-- ===== src/Proxmox/Volume/Laws.antt =====
-- controller/proxmox.py: `apply_delta_to_volume` and the status of the VM.
use hv2pve.Prelude.{String, ◌≡◌, refl, ◌≢◌, inl, inr, arith, eq_iff, str_eq, Bool-cases}
use hv2pve.Prelude.Int.{ℤ}
use hv2pve.Exec.{runtime_error, Result, ok, err, Exec, require, continue, ◌>>=◌, ◌>>◌}
use hv2pve.World.{World}
use hv2pve.Proxmox.{ProxmoxSsh, status, require_stopped}
use hv2pve.Proxmox.Volume.{apply_delta_to_volume}

stopped_first :
    {A : Type 0} (pve : ProxmoxSsh) (vmid : ℤ) (m : Exec World A) (w : World)
    → ((do require_stopped pve vmid; m) w).1.ran ≢ (status pve vmid w).1.ran
    → (status pve vmid w).0 ≡ ok "stopped"
unfolding require_stopped ◌>>=◌
stopped_first {A} pve vmid m w = go (status pve vmid w).0
  where
    go :
        (r : Result String)
        → (continue
            (continue r
              (λ state. require (str_eq state "stopped") (runtime_error "VM must be stopped"))
              (status pve vmid w).1).0
            (λ x. m)
            (continue r
              (λ state. require (str_eq state "stopped") (runtime_error "VM must be stopped"))
              (status pve vmid w).1).1).1.ran
          ≢ (status pve vmid w).1.ran
        → r ≡ ok "stopped"
    go (err e) ne = absurd (ne refl)
    go (ok state) ne = elim (Bool-cases (str_eq state "stopped")) [
      | inl e ↦ ground (arith, eq_iff state "stopped")
      | inr e ↦ absurd (ne (rw e refl))
    ]

-- If `apply_delta_to_volume` runs anything behind its look at the VM's status, whether it returns
-- or raises, then the host had reported the VM stopped.
pub apply_delta_to_volume-stopped :
    (pve : ProxmoxSsh) (vmid : ℤ) (volume metadata payload script : String) (w : World)
    → (apply_delta_to_volume pve vmid volume metadata payload script w).1.ran
      ≢ (status pve vmid w).1.ran
    → (status pve vmid w).0 ≡ ok "stopped"
unfolding apply_delta_to_volume
apply_delta_to_volume-stopped pve vmid volume metadata payload script w ne =
    stopped_first pve vmid _ w ne
