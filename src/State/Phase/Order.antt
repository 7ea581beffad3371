-- ===== src/State/Phase/Order.antt =====
-- The sets of phases that the code lists, as intervals of the order of phases.
use hv2pve.Prelude.{◌≡◌, refl, ◌&&◌, leb}
use hv2pve.State.Phase.{
  Phase, new, rank, phase_in, valid_phases, vmid_phases, tested_phases, cutover_phases,
}

pub phase_in_valid : (p : Phase) → phase_in p valid_phases ≡ leb (rank p) 12
unfolding phase_in
phase_in_valid new = refl
phase_in_valid p = refl

pub phase_in_vmid : (p : Phase) → phase_in p vmid_phases ≡ (leb 3 (rank p) && leb (rank p) 9)
unfolding phase_in
phase_in_vmid new = refl
phase_in_vmid p = refl

pub phase_in_tested : (p : Phase) → phase_in p tested_phases ≡ (leb 4 (rank p) && leb (rank p) 8)
unfolding phase_in
phase_in_tested new = refl
phase_in_tested p = refl

pub phase_in_cutover : (p : Phase) → phase_in p cutover_phases ≡ (leb 7 (rank p) && leb (rank p) 8)
unfolding phase_in
phase_in_cutover new = refl
phase_in_cutover p = refl
