-- ===== src/Controller/Gates/Guards.antt =====
-- The commands that act on the Proxmox host, and what each tests first.
use hv2pve.Prelude.{String, ◌≡◌, refl, ◌⊎◌, inl, inr, true, false, [], ◌∷◌, arith, Bool-cases}
use hv2pve.Prelude.Int.{ℤ}
use hv2pve.Json.{get, truthy, value_eq}
use hv2pve.Exec.{Exec, Done, ◌>>=◌}
use hv2pve.State.Phase.{
  baseline_ready, seeded, tested, syncing, cutover_ready, cutover_in_progress, cutover_complete,
  phase_eq, phase_in,
}
use hv2pve.State.Record.{MigrationState, Session}
use hv2pve.Controller.{confirmed}
use hv2pve.Controller.Remote.{
  test_start, apply_proxmox_delta, check_activation, activate_production, begin_rollback,
}
use hv2pve.Controller.Seeding.{seed}
use hv2pve.Seed.Destination.{SeedRequest}
use hv2pve.Proxmox.{ProxmoxSsh}

-- Where a test fails, work leaves the host alone.
abbrev pub Guarded : (MigrationState → Type 0) → Exec Session Done → Type 0
Guarded P body = (s : Session) → P s.state ⊎ ((body s).1.world.ran ≡ s.world.ran)

abbrev pub MaySeed : MigrationState → Type 0
MaySeed st = phase_eq st.phase baseline_ready ≡ true

abbrev pub MayTest : MigrationState → Type 0
MayTest st =
    (phase_in st.phase (seeded ∷ tested ∷ syncing ∷ cutover_ready ∷ []) ≡ true)
    × (truthy (get "test_vnet" st.destination) ≡ true)
    × (value_eq (get "test_vnet" st.destination) (get "production_vnet" st.destination) ≡ false)

abbrev pub MayApply : MigrationState → Type 0
MayApply st = truthy (get "powered_on" st.destination) ≡ false

abbrev pub MayActivate : MigrationState → Type 0
MayActivate st =
    (phase_eq st.phase cutover_in_progress ≡ true)
    × (truthy (get "source_stopped_at_utc" st.cutover) ≡ true)
    × (truthy (get "final_sync_completed_at_utc" st.cutover) ≡ true)

abbrev pub MayRollBack : String → MigrationState → Type 0
MayRollBack confirm st =
    (phase_in st.phase (cutover_in_progress ∷ cutover_complete ∷ []) ≡ true)
    × (confirmed confirm st ≡ true)

module _ (pve : ProxmoxSsh) where
  pub seed-Guarded : (q : SeedRequest) → Guarded MaySeed (seed pve q)
  unfolding seed ◌>>=◌
  seed-Guarded q s = elim (Bool-cases (phase_eq s.state.phase baseline_ready)) [
    | inl e ↦ inl e
    | inr e ↦ inr (rw e refl)
  ]

  pub test_start-Guarded : Guarded MayTest (test_start pve)
  unfolding test_start ◌>>=◌
  test_start-Guarded s = ground arith

  pub apply_proxmox_delta-Guarded :
      (index : ℤ) (metadata payload script : String)
      → Guarded MayApply (apply_proxmox_delta pve index metadata payload script)
  unfolding apply_proxmox_delta ◌>>=◌
  apply_proxmox_delta-Guarded index metadata payload script s =
      elim (Bool-cases (truthy (get "powered_on" s.state.destination))) [
        | inl e ↦ inr (rw e refl)
        | inr e ↦ inl e
      ]

  pub activate_production-Guarded : Guarded MayActivate (activate_production pve)
  unfolding activate_production check_activation ◌>>=◌
  activate_production-Guarded s = ground arith

  pub begin_rollback-Guarded :
      (confirm : String) (timeout : ℤ)
      → Guarded (MayRollBack confirm) (begin_rollback pve confirm timeout)
  unfolding begin_rollback ◌>>=◌
  begin_rollback-Guarded confirm timeout s = ground arith
