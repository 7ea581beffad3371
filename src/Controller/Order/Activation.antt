-- ===== src/Controller/Order/Activation.antt =====
-- controller/hv2pve.py: `activate-production` and the order of a cutover.
use hv2pve.Prelude.{String, ◌≡◌, refl, true, arith}
use hv2pve.Exec.{Result, ok, err, Exec, Done, continue, ◌>>=◌}
use hv2pve.Exec.Keeps.{Keeps, keeps_rules}
use hv2pve.World.{World}
use hv2pve.World.Outside.{
  SameFiles, utc_now-SameFiles, require_stopped-SameFiles, start_on_bridge-SameFiles,
}
use hv2pve.Json.{Value, Fields, get, truthy}
use hv2pve.Json.Laws.{find-put}
use hv2pve.State.Record.{MigrationState, Session, in_world, record_event}
use hv2pve.Proxmox.{ProxmoxSsh}
use hv2pve.Controller.{set_destination, set_cutover}
use hv2pve.Controller.Remote.{check_activation, hand_over, activate_production}
use hv2pve.Controller.Order.{
  Holds, in_world-Holds, set_destination-Holds, record_event-Holds, put_apart, put_writes,
}

-- The object is in order, and its final sync is recorded.
record Ready (w₀ : World) (s : Session) : Type 0 where
  holds : Holds w₀ s
  final : truthy (get "final_sync_completed_at_utc" s.state.cutover) ≡ true

module _ (w₀ : World) where
  in_world-Ready :
      {A : Type 0} (m : Exec World A) → Keeps (SameFiles w₀) m → Keeps (Ready w₀) (in_world m)
  in_world-Ready m k = record {
    at = λ s h. record { holds = (in_world-Holds w₀ m k).at s h.holds; final = h.final };
  }

  set_destination-Ready : (k : String) (v : Value) → Keeps (Ready w₀) (set_destination k v)
  set_destination-Ready k v = record {
    at = λ s h. record { holds = (set_destination-Holds w₀ k v).at s h.holds; final = h.final };
  }

  set_started-Ready : (v : Value) → Keeps (Ready w₀) (set_cutover "destination_started_at_utc" v)
  set_started-Ready v = record {
    at = λ s h. record {
      holds = record {
        same = h.holds.same;
        kept =
            put_apart v s.state.cutover h.holds.kept "destination_started_at_utc"
              (refl, refl, refl, refl);
      };
      final = simp find-put h.final;
    };
  }

  set_writes-Ready : (v : Value) → Keeps (Ready w₀) (set_cutover "destination_writes_possible" v)
  set_writes-Ready v = record {
    at = λ s h. record {
      holds = record {
        same = h.holds.same;
        kept = put_writes v s.state.cutover h.holds.kept h.final;
      };
      final = simp find-put h.final;
    };
  }

  record_event-Ready :
      (event : String) (details : Fields) → Keeps (Ready w₀) (record_event event details)
  unfolding record_event ◌>>=◌
  record_event-Ready event details = record {
    at = λ s h. record {
      holds = (record_event-Holds w₀ event details).at s h.holds;
      final = h.final;
    };
  }

  ruleset ready_rules = (
    keeps_rules, in_world-Ready, set_destination-Ready, set_started-Ready, set_writes-Ready,
    record_event-Ready, utc_now-SameFiles, require_stopped-SameFiles, start_on_bridge-SameFiles,
  )

  hand_over-Ready : (pve : ProxmoxSsh) (st : MigrationState) → Keeps (Ready w₀) (hand_over pve st)
  unfolding hand_over
  hand_over-Ready pve st = search ready_rules depth 30

  check_activation-final :
      (st : MigrationState)
      → check_activation st ≡ ok tt
      → truthy (get "final_sync_completed_at_utc" st.cutover) ≡ true
  unfolding check_activation
  check_activation-final st h = ground arith

  pub activate_production-Holds : (pve : ProxmoxSsh) → Keeps (Holds w₀) (activate_production pve)
  unfolding activate_production ◌>>=◌
  activate_production-Holds pve = record { at = λ s h. go s h (check_activation s.state) refl }
    where
      go :
          (s : Session)
          → Holds w₀ s
          → (r : Result Done) → check_activation s.state ≡ r
          → Holds w₀ (continue r (λ u. hand_over pve s.state) s).1
      go s h (ok u) e =
          ((hand_over-Ready pve s.state).at s
            (record { holds = h; final = check_activation-final s.state e })).holds
      go s h (err x) e = h
