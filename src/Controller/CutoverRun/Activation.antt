-- ===== src/Controller/CutoverRun/Activation.antt =====
-- controller/hv2pve.py: `activate-production` on a host that serves it.
use hv2pve.Prelude.{
  ◌+◌, String, ◌≡◌, refl, inl, inr, true, false, some, List, [], ◌∷◌, ◌++◌, str_eq, Bool-cases,
}
use hv2pve.Prelude.Int.{ℤ}
use hv2pve.Exec.{ok, ◌>>=◌}
use hv2pve.World.{World}
use hv2pve.Text.{is_empty, cat, lines, show}
use hv2pve.Process.{check_answer, run}
use hv2pve.Proxmox.{
  ProxmoxSsh, ssh_argv, command, config_get, parse_config, config, require_stopped, start,
  set_network, with_bridge,
}
use hv2pve.Proxmox.Answers.{
  Answers, behind, command_answered, status_argv, reported, status-reported,
}
use hv2pve.Controller.Remote.{
  net0_of, start_on_bridge, check_activation, hand_over, activate_production,
}
use hv2pve.Json.{str, int, bool, end, field, put, get, truthy}
use hv2pve.Json.Laws.{find-put}
use hv2pve.Json.Render.{to_text}
use hv2pve.State.Record.{MigrationState, Session, record_event}
use hv2pve.State.Phase.{cutover_in_progress}
use hv2pve.State.Validate.Laws.{IsValid}
use hv2pve.Controller.Work.Saves.{noted, IsValid-noted}
use hv2pve.Controller.Rollback.Begin.{recorded_vmid_is}
use hv2pve.Controller.CutoverRun.{Course, Course-noted}
use hv2pve.Controller.CutoverRun.Source.{authorized_keys, final_keys, in_progress}

module _ (pve : ProxmoxSsh) (vmid : ℤ) where
  abbrev pub config_argv : List String
  config_argv = ssh_argv pve ("qm" ∷ "config" ∷ show vmid ∷ [])

  -- Every command succeeds, the VM is stopped now and its state can always be read, and it has a
  -- network.
  pub record Serves (w : World) : Type 0 where
    pub answers : Answers w.remote
    pub stopped : reported pve vmid w.remote w.ran ≡ ok "stopped"
    pub reports :
        (ran : List (List String)) → (state : String) × (reported pve vmid w.remote ran ≡ ok state)
    pub network :
        (ran : List (List String))
        → (out : String) × (net0 : String) × (check_answer (w.remote ran config_argv) ≡ ok out)
          × (config_get "net0" (parse_config [] (lines out)) ≡ some net0)
          × (is_empty net0 ≡ false)

  module _ (w : World) (o : Serves w) where
    start_returns :
        (ran : List (List String))
        → (more : List (List String)) × (start pve vmid (behind w ran) ≡ (ok tt, behind w more))
    unfolding start ◌>>=◌
    start_returns ran =
        let (state, e) = o.reports ran in
        let ran' = ran ++ status_argv pve vmid ∷ [] in
        let (out, sent) = command_answered pve w o.answers ran' ("qm" ∷ "start" ∷ show vmid ∷ []) in
        elim (Bool-cases (str_eq state "running")) [
          | inl same ↦ (ran', rw (status-reported pve w vmid ran, e, same) refl)
          | inr idle ↦ (
            ran' ++ ssh_argv pve ("qm" ∷ "start" ∷ show vmid ∷ []) ∷ [],
            rw (status-reported pve w vmid ran, e, idle, sent) refl,
          )
        ]

    start_on_bridge_returns :
        (bridge : String) (ran : List (List String))
        → (more : List (List String)) × (start_on_bridge pve vmid bridge (behind w ran)
            ≡ (ok tt, behind w more))
    unfolding start_on_bridge config set_network command run ◌>>=◌
    start_on_bridge_returns bridge ran =
        let (out, net0, given, found, there) = o.network ran in
        let set =
          ssh_argv pve
            ("qm" ∷ "set" ∷ show vmid ∷ cat "--" "net0" ∷ with_bridge net0 bridge ∷ []) in
        let (out', sent) = o.answers (ran ++ config_argv ∷ []) set in
        let (more, started) = start_returns ((ran ++ config_argv ∷ []) ++ set ∷ []) in
        (more, rw (given, net0_of, found, there, sent, started) refl)

-- The destination is on record as running.
abbrev pub Powered : MigrationState → Type 0
Powered st = truthy (get "powered_on" st.destination) ≡ true

module _ (confirm : String) (vmid : ℤ) where
  activation_checked :
      (st : MigrationState)
      → Course confirm vmid cutover_in_progress final_keys st
      → check_activation st ≡ ok tt
  unfolding check_activation
  activation_checked st h = rw (in_progress st.phase h.at_phase, h.done.1.0, h.done.0) refl

  -- The object with the destination started.
  abbrev started : List (List String) → Session → Session
  started ran s = record {
    world = record (s.world) { ran = ran; ticks = s.world.ticks + 1 };
    state = record (s.state) {
      destination = put "powered_on" (bool true) s.state.destination;
      cutover =
          put "destination_writes_possible" (bool true)
            (put "destination_started_at_utc" (str (s.world.clock s.world.ticks)) s.state.cutover);
    };
  }

  IsValid-started :
      (ran : List (List String)) (s : Session)
      → IsValid s.state
      → truthy (get "authorized" s.state.cutover) ≡ true
      → IsValid (started ran s).state
  IsValid-started ran s v a = record {
    named = v.named;
    known = v.known;
    supported = v.supported;
    placed = λ low high. simp find-put (v.placed low high);
    booted = λ low high. simp find-put (v.booted low high);
    authorized = λ low high. simp find-put a;
    verified = simp find-put v.verified;
    isolated = simp find-put v.isolated;
  }

  Course-started :
      (ran : List (List String)) (s : Session)
      → Course confirm vmid cutover_in_progress final_keys s.state
      → Course confirm vmid cutover_in_progress authorized_keys (started ran s).state
  Course-started ran s h = record {
    at_phase = h.at_phase;
    source_vm = h.source_vm;
    placed_at = simp find-put h.placed_at;
    production = simp find-put h.production;
    test = simp find-put h.test;
    apart = simp find-put h.apart;
    done = (simp find-put h.done.1.1.0, tt);
  }

  pub activate_production_succeeds :
      (pve : ProxmoxSsh) (s : Session)
      → IsValid s.state
      → Course confirm vmid cutover_in_progress final_keys s.state
      → Serves pve vmid s.world
      → (t : Session) × (activate_production pve s ≡ (ok tt, t))
        × IsValid t.state
        × (Course confirm vmid cutover_in_progress authorized_keys t.state × Powered t.state)
  unfolding activate_production hand_over require_stopped record_event truthy ◌>>=◌
  activate_production_succeeds pve s v h o =
      let prod = get "production_vnet" s.state.destination in
      let looked = s.world.ran ++ status_argv pve vmid ∷ [] in
      let (more, on) = start_on_bridge_returns pve vmid s.world o (to_text prod) looked in
      let details = field "vmid" (int vmid) (field "production_vnet" prod end) in
      let t = started more s in
      (
        noted "production_destination_started" details t,
        rw
            (
              activation_checked s.state h,
              recorded_vmid_is confirm vmid s.state h.placed_at,
              status-reported pve s.world vmid s.world.ran,
              o.stopped,
              h.production,
              h.apart,
              on,
            )
            refl,
        IsValid-noted "production_destination_started" details t
            (IsValid-started more s v h.done.1.1.0),
        (
          Course-noted cutover_in_progress authorized_keys "production_destination_started" details
              t (Course-started more s h),
          simp find-put refl,
        ),
      )
