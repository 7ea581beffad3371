-- ===== src/Proxmox/Obeys.antt =====
-- A host that answers each command, and on which the destination VM shuts down when it is told to.
use hv2pve.Prelude.{
  String, ◌≡◌, refl, inl, inr, ◌||◌, not, List, [], ◌∷◌, ◌++◌, str_eq, Bool-cases, Option-cases,
}
use hv2pve.Prelude.Int.{ℤ}
use hv2pve.Exec.{ok, ◌>>=◌}
use hv2pve.World.{Answer, World}
use hv2pve.Text.{is_empty, cat, lines, show}
use hv2pve.Proxmox.{
  ProxmoxSsh, ssh_argv, Config, config_get, parse_config, config, require_stopped, stop,
  set_network, with_bridge,
}
use hv2pve.Json.{Value, truthy}
use hv2pve.Json.Render.{to_text}
use hv2pve.Controller.Remote.{isolate}
use hv2pve.Proxmox.Answers.{
  Answers, behind, command_answered, status_argv, reported, status-reported,
}

module _ (pve : ProxmoxSsh) (vmid timeout : ℤ) where
  abbrev pub shutdown_argv : List String
  shutdown_argv = ssh_argv pve ("qm" ∷ "shutdown" ∷ show vmid ∷ "--timeout" ∷ show timeout ∷ [])

  -- Every command succeeds, the state of the VM can be read, and behind the shutdown it is stopped.
  pub record Obeys (remote : List (List String) → List String → Answer) : Type 0 where
    pub answers : Answers remote
    pub reports :
        (ran : List (List String)) → (state : String) × (reported pve vmid remote ran ≡ ok state)
    pub stops :
        (ran : List (List String))
        → reported pve vmid remote (ran ++ shutdown_argv ∷ []) ≡ ok "stopped"

  module _ (w : World) (o : Obeys w.remote) where
    -- `stop` returns, whether the VM ran or not.
    pub stop_returns :
        (ran : List (List String))
        → (more : List (List String)) × (stop pve vmid timeout (behind w ran)
            ≡ (ok tt, behind w more))
    unfolding stop require_stopped ◌>>=◌
    stop_returns ran =
        let (state, e) = o.reports ran in
        let (out, sent) =
          command_answered pve w (o.answers) (ran ++ status_argv pve vmid ∷ [])
            ("qm" ∷ "shutdown" ∷ show vmid ∷ "--timeout" ∷ show timeout ∷ []) in
        elim (Bool-cases (str_eq state "stopped")) [
          | inl same ↦
              (ran ++ status_argv pve vmid ∷ [], rw (status-reported pve w vmid ran, e, same) refl)
          | inr other ↦ (
            (ran ++ status_argv pve vmid ∷ []) ++ shutdown_argv ∷ [] ++ status_argv pve vmid ∷ [],
            rw
                (
                  status-reported pve w vmid ran,
                  e,
                  other,
                  sent,
                  status-reported pve w vmid
                      ((ran ++ status_argv pve vmid ∷ []) ++ shutdown_argv ∷ []),
                  o.stops (ran ++ status_argv pve vmid ∷ []),
                )
                refl,
          )
        ]

    pub config_returns :
        (ran : List (List String))
        → (cfg : Config) × (config pve vmid (behind w ran)
            ≡ (ok cfg, behind w (ran ++ ssh_argv pve ("qm" ∷ "config" ∷ show vmid ∷ []) ∷ [])))
    unfolding config ◌>>=◌
    config_returns ran =
        let (out, e) = command_answered pve w (o.answers) ran ("qm" ∷ "config" ∷ show vmid ∷ []) in
        (parse_config [] (lines out), rw e refl)

    pub isolate_returns :
        (cfg : Config) (test : Value) (ran : List (List String))
        → (more : List (List String)) × (isolate pve vmid cfg test (behind w ran)
            ≡ (ok tt, behind w more))
    unfolding isolate set_network ◌>>=◌
    isolate_returns cfg test ran = elim (Option-cases (config_get "net0" cfg)) [
      | inl e ↦ (ran, rw (e, isolate) refl)
      | inr (net0, e) ↦
          let remote =
            "qm" ∷ "set" ∷ show vmid ∷ cat "--" "net0" ∷ with_bridge net0 (to_text test) ∷ [] in
          let (out, sent) = command_answered pve w (o.answers) ran remote in
          elim (Bool-cases (is_empty net0 || not (truthy test))) [
            | inl skipped ↦ (ran, rw (e, isolate, skipped) refl)
            | inr wanted ↦ (ran ++ ssh_argv pve remote ∷ [], rw (e, isolate, wanted, sent) refl)
          ]
    ]
