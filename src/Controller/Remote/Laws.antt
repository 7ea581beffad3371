-- ===== src/Controller/Remote/Laws.antt =====
use hv2pve.Prelude.{◌≡◌, ◌∙◌, true, false, arith, eq_iff, str_eq}
use hv2pve.Prelude.Int.{ℤ}
use hv2pve.Json.{get, truthy, value_eq}
use hv2pve.Exec.{ok, lift, raise_if, ◌>>=◌}
use hv2pve.World.{World}
use hv2pve.State.Record.{MigrationState, Session, in_world}
use hv2pve.Proxmox.{ProxmoxSsh, status, require_stopped}
use hv2pve.Controller.Remote.{recorded_vmid, check_activation, hand_over, activate_production}
use hv2pve.Controller.Gates.Guards.{MayActivate}
use hv2pve.Exec.Laws.{bind-ok, require-ok, raise_if-ok}

-- What an activation that succeeds has seen.

require_stopped-status :
    (pve : ProxmoxSsh) (vmid : ℤ) (w : World)
    → (require_stopped pve vmid w).0 ≡ ok tt
    → (status pve vmid w).0 ≡ ok "stopped"
unfolding require_stopped
require_stopped-status pve vmid w h =
    let (state, e, k) = bind-ok (status pve vmid) _ w tt h in
    let same = require-ok (str_eq state "stopped") _ _ k in
    e ∙ ground (arith, eq_iff state "stopped")

hand_over-seen :
    (pve : ProxmoxSsh) (s : Session)
    → (hand_over pve s.state s).0 ≡ ok tt
    → ((vmid : ℤ) × (recorded_vmid s.state ≡ ok vmid)
        × ((status pve vmid s.world).0 ≡ ok "stopped"))
      × (truthy (get "production_vnet" s.state.destination) ≡ true)
      × (value_eq (get "production_vnet" s.state.destination) (get "test_vnet" s.state.destination)
          ≡ false)
unfolding hand_over
hand_over-seen pve s h =
    let (vmid, e, h1) = bind-ok (lift (recorded_vmid s.state)) _ s tt h in
    let (x, e2, h2) = bind-ok (in_world (require_stopped pve vmid)) _ s tt h1 in
    let stopped = require_stopped-status pve vmid s.world e2 in
    let (y, e3, h3) = bind-ok (raise_if _ _) _ _ tt h2 in
    let apart = raise_if-ok _ _ _ e3 in
    ((vmid, e, stopped), ground (arith, apart), ground (arith, apart))

check_activation-parts : (st : MigrationState) → check_activation st ≡ ok tt → MayActivate st
unfolding check_activation
check_activation-parts st h = ground arith

-- Where `activate-production` returns, the cutover was under way with the source's stop and the
-- final sync recorded, the host had reported the destination stopped, and the production network is
-- there and is not the test network.
pub activate_production-seen :
    (pve : ProxmoxSsh) (s : Session)
    → (activate_production pve s).0 ≡ ok tt
    → MayActivate s.state
      × ((vmid : ℤ) × (recorded_vmid s.state ≡ ok vmid)
          × ((status pve vmid s.world).0 ≡ ok "stopped"))
      × (truthy (get "production_vnet" s.state.destination) ≡ true)
      × (value_eq (get "production_vnet" s.state.destination) (get "test_vnet" s.state.destination)
          ≡ false)
unfolding activate_production ◌>>=◌
activate_production-seen pve s h =
    let (x, e, k) = bind-ok (lift (check_activation s.state)) (λ x. hand_over pve s.state) s tt h in
    let seen = hand_over-seen pve s k in (check_activation-parts s.state e, seen.0, seen.1, seen.2)
