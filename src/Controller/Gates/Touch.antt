-- ===== src/Controller/Gates/Touch.antt =====
use hv2pve.Prelude.{String, ◌≡◌, refl, ◌∙◌, ◌≢◌, inl, inr}
use hv2pve.Exec.{Result, ok, err, Exec, Done, continue, ◌>>=◌, ◌>>◌}
use hv2pve.World.{World}
use hv2pve.State.Record.{MigrationState, Session, with_state}
use hv2pve.State.Storage.{save, load}
use hv2pve.Controller.{on_state, saving}
use hv2pve.Controller.Gates.{SameRuns, Quiet, save-Quiet, load-Runs}
use hv2pve.Controller.Gates.Guards.{
  Guarded, MaySeed, MayTest, MayApply, MayActivate, MayRollBack, seed-Guarded, test_start-Guarded,
  apply_proxmox_delta-Guarded, activate_production-Guarded, begin_rollback-Guarded,
}
use hv2pve.Prelude.Int.{ℤ}
use hv2pve.Seed.Destination.{SeedRequest}
use hv2pve.Proxmox.{ProxmoxSsh}
use hv2pve.Controller.Remote.{
  test_start, cmd_test_start, test_stop, cmd_test_stop, apply_proxmox_delta,
  cmd_apply_proxmox_delta, activate_production, cmd_activate_production, begin_rollback,
  cmd_begin_rollback,
}
use hv2pve.Controller.Seeding.{seed, cmd_seed}

-- A command that works on the state and saves it touches the host only past its tests.

module _ (w₀ : World) where
  -- The save that follows a piece of work runs nothing.
  saved-Quiet :
      (path : String) (r : Result Done) (t : Session)
      → Quiet w₀ t
      → Quiet w₀ (continue r (λ x. save path) t).1
  saved-Quiet path (ok x) t h = (save-Quiet w₀ path).at t h
  saved-Quiet path (err e) t h = h

pub saving-Guarded :
    (P : MigrationState → Type 0) (path : String) (body : Exec Session Done) (w : World)
    → Guarded P body
    → (saving path body w).1.ran ≢ w.ran
    → (st : MigrationState) × ((load path w).0 ≡ ok st) × P st
unfolding on_state ◌>>=◌
saving-Guarded P path body w g =
    go (load path w).0 (load path w).1 refl ((load-Runs w path).at w refl)
  where
    go :
        (r : Result MigrationState) (w' : World)
        → (load path w).0 ≡ r
        → SameRuns w w'
        → (continue r (λ st. with_state st (do body; save path)) w').1.ran ≢ w.ran
        → (st : MigrationState) × ((load path w).0 ≡ ok st) × P st
    go (err e) w' l same ne = absurd (ne same)
    go (ok st) w' l same ne =
        let s : Session = record { world = w'; state = st } in
        elim (g s) [
          | inl p ↦ (st, l, p)
          | inr quiet ↦ absurd (ne (saved-Quiet w path (body s).0 (body s).1 (quiet ∙ same)))
        ]

module _ (path : String) (w : World) where
  -- The state file was read, and what it holds passes.
  abbrev pub Stored : (MigrationState → Type 0) → Type 0
  Stored P = (st : MigrationState) × ((load path w).0 ≡ ok st) × P st

  module _ (pve : ProxmoxSsh) where
    pub seed-Stored : (q : SeedRequest) → (cmd_seed pve q path w).1.ran ≢ w.ran → Stored MaySeed
    unfolding cmd_seed
    seed-Stored q ne = saving-Guarded MaySeed path (seed pve q) w (seed-Guarded pve q) ne

    pub test_start-Stored : (cmd_test_start pve path w).1.ran ≢ w.ran → Stored MayTest
    unfolding cmd_test_start
    test_start-Stored ne =
        saving-Guarded MayTest path (test_start pve) w (test_start-Guarded pve) ne

    pub test_stop-Stored :
        (timeout : ℤ) → (cmd_test_stop pve timeout path w).1.ran ≢ w.ran → Stored (λ st. Unit)
    unfolding cmd_test_stop
    test_stop-Stored timeout ne =
        saving-Guarded (λ st. Unit) path (test_stop pve timeout) w (λ s. inl tt) ne

    pub apply_proxmox_delta-Stored :
        (index : ℤ) (metadata payload script : String)
        → (cmd_apply_proxmox_delta pve index metadata payload script path w).1.ran ≢ w.ran
        → Stored MayApply
    unfolding cmd_apply_proxmox_delta
    apply_proxmox_delta-Stored index metadata payload script ne =
        saving-Guarded MayApply path (apply_proxmox_delta pve index metadata payload script) w
          (apply_proxmox_delta-Guarded pve index metadata payload script) ne

    pub activate_production-Stored :
        (cmd_activate_production pve path w).1.ran ≢ w.ran → Stored MayActivate
    unfolding cmd_activate_production
    activate_production-Stored ne =
        saving-Guarded MayActivate path (activate_production pve) w
          (activate_production-Guarded pve) ne

    pub begin_rollback-Stored :
        (confirm : String) (timeout : ℤ)
        → (cmd_begin_rollback pve confirm timeout path w).1.ran ≢ w.ran
        → Stored (MayRollBack confirm)
    unfolding cmd_begin_rollback
    begin_rollback-Stored confirm timeout ne =
        saving-Guarded (MayRollBack confirm) path (begin_rollback pve confirm timeout) w
          (begin_rollback-Guarded pve confirm timeout) ne
