-- ===== src/Controller/Parser/Lines.antt =====
-- A command line for each command.
use hv2pve.Prelude.{String, ◌≡◌, true, not, List, [], ◌∷◌}
use hv2pve.Controller.Command.{
  Command, init, ingest_baseline, ingest_sync, status, validate_state, cutover_plan, rollback_plan,
  seed_plan, seed, mark_seeded, apply_delta, test_start, activate_production, test_stop,
  mark_tested, apply_proxmox_delta, register_sync, authorize_cutover, mark_source_stopped,
  mark_rolled_back, close, mark_final_sync, mark_cutover_complete, begin_rollback,
}
use hv2pve.Controller.Options.{mem_text}
use hv2pve.Text.{show}
use hv2pve.Proxmox.{ProxmoxSsh}
use hv2pve.Controller.Parser.Reads.{IsPlain}
use hv2pve.Controller.Parser.Optional.{
  maybe_words, maybe_show, flag_words, IsNatural, MaybePlain, MaybeNatural,
}

unfoldable pub state_words : String → List String → List String
state_words path ss = "--state" ∷ path ∷ ss

unfoldable pub pve_words : ProxmoxSsh → List String
pve_words pve =
    "--pve-host"
    ∷ pve.host
    ∷ "--pve-user"
    ∷ pve.user
    ∷ maybe_words "--identity-file" pve.identity_file []

unfoldable pub confirm_words : String → String → List String
unfolding state_words
confirm_words path confirm = state_words path ("--confirm" ∷ confirm ∷ [])

-- The words that ask for a command.
unfoldable pub argv_of : String → Command → List String
unfolding state_words pve_words confirm_words
argv_of path (init id host vm) =
    "init"
    ∷ state_words path
        ("--hyperv-host" ∷ host ∷ "--vm-name" ∷ vm ∷ maybe_words "--migration-id" id [])
argv_of path (ingest_baseline input) = "ingest-baseline" ∷ state_words path ("--input" ∷ input ∷ [])
argv_of path (ingest_sync input) = "ingest-sync" ∷ state_words path ("--input" ∷ input ∷ [])
argv_of path status = "status" ∷ state_words path []
argv_of path validate_state = "validate-state" ∷ state_words path []
argv_of path cutover_plan = "cutover-plan" ∷ state_words path []
argv_of path rollback_plan = "rollback-plan" ∷ state_words path []
argv_of path (seed_plan storage test_vnet) =
    "seed-plan" ∷ state_words path ("--storage" ∷ storage ∷ "--test-vnet" ∷ test_vnet ∷ [])
argv_of path (seed pve q) =
    "seed"
    ∷ state_words path (
        "--storage"
        ∷ q.storage
        ∷ "--test-vnet"
        ∷ q.test_vnet
        ∷ "--production-vnet"
        ∷ q.production_vnet
        ∷ "--guest-os"
        ∷ q.guest_os
        ∷ maybe_words "--export-root" q.export_root (
            maybe_words "--vmid" (maybe_show q.vmid)
              (flag_words "--keep-failed-vm" (not q.cleanup_on_failure) (pve_words pve))))
argv_of path (mark_seeded node vmid test_vnet production_vnet verified) =
    "mark-seeded"
    ∷ state_words path (
        "--node"
        ∷ node
        ∷ "--vmid"
        ∷ show vmid
        ∷ "--test-vnet"
        ∷ test_vnet
        ∷ "--production-vnet"
        ∷ production_vnet
        ∷ flag_words "--baseline-verified" verified [])
argv_of path (apply_delta metadata payload target) =
    "apply-delta" ∷ "--metadata" ∷ metadata ∷ "--payload" ∷ payload ∷ "--target" ∷ target ∷ []
argv_of path (test_start pve) = "test-start" ∷ state_words path (pve_words pve)
argv_of path (activate_production pve) = "activate-production" ∷ state_words path (pve_words pve)
argv_of path (test_stop pve timeout) =
    "test-stop" ∷ state_words path ("--timeout" ∷ show timeout ∷ pve_words pve)
argv_of path (mark_tested guest application) =
    "mark-tested"
    ∷ state_words path (
        flag_words "--guest-boot-verified" guest
          (flag_words "--application-verified" application []))
argv_of path (apply_proxmox_delta pve index metadata payload) =
    "apply-proxmox-delta"
    ∷ state_words path (
        "--disk-index"
        ∷ show index
        ∷ "--metadata"
        ∷ metadata
        ∷ "--payload"
        ∷ payload
        ∷ pve_words pve)
argv_of path (register_sync sequence reference_point bundle verified ready) =
    "register-sync"
    ∷ state_words path (
        "--sequence"
        ∷ show sequence
        ∷ "--reference-point"
        ∷ reference_point
        ∷ maybe_words "--bundle" bundle
            (flag_words "--verified" verified (flag_words "--cutover-ready" ready [])))
argv_of path (authorize_cutover confirm) = "authorize-cutover" ∷ confirm_words path confirm
argv_of path (mark_source_stopped confirm) = "mark-source-stopped" ∷ confirm_words path confirm
argv_of path (mark_rolled_back confirm) = "mark-rolled-back" ∷ confirm_words path confirm
argv_of path (close confirm) = "close" ∷ confirm_words path confirm
argv_of path (mark_final_sync verified) =
    "mark-final-sync" ∷ state_words path (flag_words "--verified" verified [])
argv_of path (mark_cutover_complete network guest application) =
    "mark-cutover-complete"
    ∷ state_words path (
        flag_words "--network-verified" network (
          flag_words "--guest-verified" guest (flag_words "--application-verified" application [])))
argv_of path (begin_rollback pve confirm timeout) =
    "begin-rollback"
    ∷ state_words path ("--confirm" ∷ confirm ∷ "--timeout" ∷ show timeout ∷ pve_words pve)

abbrev pub PveSayable : ProxmoxSsh → Type 0
PveSayable pve =
    (pve.strict_host_key_checking ≡ "accept-new")
    × IsPlain pve.host
    × IsPlain pve.user
    × MaybePlain pve.identity_file

-- A command line can say the command: its texts begin with no dash, its numbers are not negative,
-- and the host's keys are checked as `_pve` has it.
abbrev pub IsSayable : Command → Type 0
IsSayable (init id host vm) = MaybePlain id × IsPlain host × IsPlain vm
IsSayable (ingest_baseline input) = IsPlain input
IsSayable (ingest_sync input) = IsPlain input
IsSayable status = Unit
IsSayable validate_state = Unit
IsSayable cutover_plan = Unit
IsSayable rollback_plan = Unit
IsSayable (seed_plan storage test_vnet) = IsPlain storage × IsPlain test_vnet
IsSayable (seed pve q) =
    PveSayable pve
    × IsPlain q.storage
    × IsPlain q.test_vnet
    × IsPlain q.production_vnet
    × MaybePlain q.export_root
    × MaybeNatural q.vmid
    × IsPlain q.guest_os
    × (mem_text q.guest_os ("auto" ∷ "windows" ∷ "linux" ∷ "unknown" ∷ []) ≡ true)
IsSayable (mark_seeded node vmid test_vnet production_vnet verified) =
    IsPlain node × IsNatural vmid × IsPlain test_vnet × IsPlain production_vnet
IsSayable (apply_delta metadata payload target) =
    IsPlain metadata × IsPlain payload × IsPlain target
IsSayable (test_start pve) = PveSayable pve
IsSayable (activate_production pve) = PveSayable pve
IsSayable (test_stop pve timeout) = PveSayable pve × IsNatural timeout
IsSayable (mark_tested guest application) = Unit
IsSayable (apply_proxmox_delta pve index metadata payload) =
    PveSayable pve × IsNatural index × IsPlain metadata × IsPlain payload
IsSayable (register_sync sequence reference_point bundle verified ready) =
    IsNatural sequence × IsPlain reference_point × MaybePlain bundle
IsSayable (authorize_cutover confirm) = IsPlain confirm
IsSayable (mark_source_stopped confirm) = IsPlain confirm
IsSayable (mark_rolled_back confirm) = IsPlain confirm
IsSayable (close confirm) = IsPlain confirm
IsSayable (mark_final_sync verified) = Unit
IsSayable (mark_cutover_complete network guest application) = Unit
IsSayable (begin_rollback pve confirm timeout) =
    PveSayable pve × IsPlain confirm × IsNatural timeout

-- The state file that the command works on: `apply-delta` has none.
abbrev pub path_of : String → Command → String
path_of path (apply_delta metadata payload target) = ""
path_of path _ = path
