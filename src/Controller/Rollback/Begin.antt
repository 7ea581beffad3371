-- ===== src/Controller/Rollback/Begin.antt =====
-- controller/hv2pve.py: `begin-rollback` on a host that answers.
use hv2pve.Prelude.{String, ◌≡◌, refl, true, false, some, List, [], ◌∷◌, ◌++◌, arith}
use hv2pve.Prelude.Int.{ℤ}
use hv2pve.Json.{str, int, bool, end, field, find, put, get}
use hv2pve.Json.Laws.{find-put}
use hv2pve.Exec.{ok, ◌>>=◌}
use hv2pve.State.Record.{MigrationState, Session}
use hv2pve.State.Phase.{
  Phase, cutover_in_progress, cutover_complete, rollback_in_progress, rank, phase_in,
  cutover_phases, allowed_transitions,
}
use hv2pve.State.Phase.Order.{phase_in_cutover}
use hv2pve.State.Transition.Laws.{entered, set_phase_allowed}
use hv2pve.State.Validate.Laws.{IsValid}
use hv2pve.Proxmox.{ProxmoxSsh, ssh_argv}
use hv2pve.Proxmox.Obeys.{Obeys, stop_returns, config_returns, isolate_returns}
use hv2pve.Controller.Remote.{recorded_vmid, begin_rollback}
use hv2pve.Json.Number.{to_int}
use hv2pve.State.Payload.{item}
use hv2pve.Text.{show}
use hv2pve.Controller.Work.Saves.{noted, IsValid-noted}
use hv2pve.Controller.Rollback.{
  UnderWay, RollsBack, RollsBack-noted, RollsBack-entered, confirmed-true,
}

may_roll_back :
    (p : Phase)
    → phase_in p cutover_phases ≡ true
    → phase_in rollback_in_progress (allowed_transitions p) ≡ true
unfolding phase_in allowed_transitions
may_roll_back cutover_in_progress h = refl
may_roll_back cutover_complete h = refl
may_roll_back p h = absurd (ground (arith, h))

module _ (confirm : String) (vmid : ℤ) where
  pub recorded_vmid_is :
      (st : MigrationState)
      → find "proxmox_vmid" st.destination ≡ some (int vmid)
      → recorded_vmid st ≡ ok vmid
  unfolding recorded_vmid to_int
  recorded_vmid_is st h = rw (h, item) refl

  -- The object once the host has stopped and isolated the destination.
  abbrev stopped_off : List (List String) → Session → Session
  stopped_off ran s = record {
    world = record (s.world) { ran = ran };
    state = record (s.state) { destination = put "powered_on" (bool false) s.state.destination };
  }

  IsValid-off :
      (ran : List (List String)) (s : Session)
      → IsValid s.state
      → UnderWay confirm vmid s.state
      → IsValid (entered rollback_in_progress (stopped_off ran s))
  unfolding rank
  IsValid-off ran s v h =
      let range = phase_in_cutover s.state.phase in
      record {
        named = v.named;
        known = omega arith;
        supported = v.supported;
        placed = λ a b. simp find-put (
            v.placed (ground (arith, range, h.cutting_over))
              (ground (arith, range, h.cutting_over)));
        booted = λ a b. absurd (omega arith);
        authorized = λ a b. absurd (omega arith);
        verified = simp find-put v.verified;
        isolated = simp find-put v.isolated;
      }

  -- The destination is stopped and isolated, and the rollback is on record.
  pub begin_rollback_succeeds :
      (pve : ProxmoxSsh) (timeout : ℤ) (s : Session)
      → IsValid s.state
      → UnderWay confirm vmid s.state
      → Obeys pve vmid timeout s.world.remote
      → (t : Session) × (begin_rollback pve confirm timeout s ≡ (ok tt, t))
        × IsValid t.state
        × RollsBack confirm rollback_in_progress t.state
  unfolding begin_rollback ◌>>=◌
  begin_rollback_succeeds pve timeout s v h o =
      let (ran, stopped) = stop_returns pve vmid timeout s.world o s.world.ran in
      let (cfg, looked) = config_returns pve vmid timeout s.world o ran in
      let (more, apart) =
        isolate_returns pve vmid timeout s.world o cfg (get "test_vnet" s.state.destination)
          (ran ++ ssh_argv pve ("qm" ∷ "config" ∷ show vmid ∷ []) ∷ []) in
      let (t, set, facts) =
        set_phase_allowed rollback_in_progress (str "destination stopped and isolated") false
          (stopped_off more s) (may_roll_back s.state.phase h.cutting_over)
          (IsValid-off more s v h) in
      let details =
        field "destination_writes_possible" (get "destination_writes_possible" s.state.cutover)
          end in
      (
        noted "rollback_started" details t,
        rw
            (
              h.cutting_over,
              confirmed-true confirm s.state h.source_vm,
              recorded_vmid_is s.state h.placed_at,
              stopped,
              looked,
              apart,
              set,
            )
            refl,
        IsValid-noted "rollback_started" details t facts.1,
        RollsBack-noted "rollback_started" details t (
            RollsBack-entered confirm rollback_in_progress (str "destination stopped and isolated")
              (stopped_off more s) t facts h.source_vm (simp find-put refl)),
      )
