-- ===== src/Controller/Parser/RoundTrip.antt =====
-- Command lines for the commands, and what they are read as.
use hv2pve.Prelude.{String, ◌≡◌, refl, ap, not}
use hv2pve.Text.{starts_with}
use hv2pve.Controller.Command.{
  Command, init, ingest_baseline, ingest_sync, status, validate_state, cutover_plan, rollback_plan,
  seed_plan, seed, mark_seeded, apply_delta, test_start, activate_production, test_stop,
  mark_tested, apply_proxmox_delta, register_sync, authorize_cutover, mark_source_stopped,
  mark_rolled_back, close, mark_final_sync, mark_cutover_complete, begin_rollback,
}
use hv2pve.Controller.Parser.{run_command, parse_args}
use hv2pve.Controller.Parser.Reads.{IsPlain, Reads-nothing, declared, Reads-text, Reads-choice}
use hv2pve.Controller.Parser.Optional.{
  Reads-integer, Reads-maybe_text, Reads-maybe_flag, Reads-maybe_integer,
}
use hv2pve.Controller.Parser.Lines.{argv_of, IsSayable, path_of}
use hv2pve.Controller.Parser.Laws.{look_up_rules, says, Reads-pve, same_pve, same_seed}

-- Where the state file's name and the texts of a command begin with no dash, its numbers are not
-- negative, the guest's system is one of the four choices, and the host's keys are checked as
-- `_pve` has it, the command line that names the command and its options is read as that command on
-- that state file; `apply-delta` has no state file.
pub parse_args-argv_of :
    (path : String) (c : Command)
    → IsPlain path
    → IsSayable c
    → parse_args (argv_of path c) ≡ run_command (path_of path c) c
unfolding argv_of parse_args starts_with
parse_args-argv_of path (init id host vm) hp h =
    says "init" refl refl refl
      (Reads-text "--state" path (declared refl) hp (
        Reads-text "--hyperv-host" host (declared refl) (h.1) (
          Reads-text "--vm-name" vm (declared refl) (h.2)
            (Reads-maybe_text "--migration-id" id (declared refl) (h.0) Reads-nothing))))
      (simp look_up_rules) (simp look_up_rules)
parse_args-argv_of path (ingest_baseline input) hp h =
    says "ingest-baseline" refl refl refl
      (Reads-text "--state" path (declared refl) hp
        (Reads-text "--input" input (declared refl) h Reads-nothing))
      refl refl
parse_args-argv_of path (ingest_sync input) hp h =
    says "ingest-sync" refl refl refl
      (Reads-text "--state" path (declared refl) hp
        (Reads-text "--input" input (declared refl) h Reads-nothing))
      refl refl
parse_args-argv_of path status hp h =
    says "status" refl refl refl (Reads-text "--state" path (declared refl) hp Reads-nothing) refl
      refl
parse_args-argv_of path validate_state hp h =
    says "validate-state" refl refl refl
      (Reads-text "--state" path (declared refl) hp Reads-nothing) refl refl
parse_args-argv_of path cutover_plan hp h =
    says "cutover-plan" refl refl refl (Reads-text "--state" path (declared refl) hp Reads-nothing)
      refl refl
parse_args-argv_of path rollback_plan hp h =
    says "rollback-plan" refl refl refl (Reads-text "--state" path (declared refl) hp Reads-nothing)
      refl refl
parse_args-argv_of path (seed_plan storage test_vnet) hp h =
    says "seed-plan" refl refl refl
      (Reads-text "--state" path (declared refl) hp (
        Reads-text "--storage" storage (declared refl) (h.0)
          (Reads-text "--test-vnet" test_vnet (declared refl) (h.1) Reads-nothing)))
      refl refl
parse_args-argv_of path (seed pve q) hp h =
    says "seed" refl refl refl
      (Reads-text "--state" path (declared refl) hp (
        Reads-text "--storage" q.storage (declared refl) (h.1) (
          Reads-text "--test-vnet" q.test_vnet (declared refl) (h.2) (
            Reads-text "--production-vnet" q.production_vnet (declared refl) (h.3) (
              Reads-choice "--guest-os" _ q.guest_os (declared refl) (h.7) (h.6) (
                Reads-maybe_text "--export-root" q.export_root (declared refl) (h.4) (
                  Reads-maybe_integer "--vmid" q.vmid (declared refl) (h.5) (
                    Reads-maybe_flag "--keep-failed-vm" (not q.cleanup_on_failure) (declared refl)
                      (Reads-pve pve (declared refl) (declared refl) (declared refl) (h.0))))))))))
      (simp look_up_rules) (simp look_up_rules (same_seed path pve q h.0))
parse_args-argv_of path (mark_seeded node vmid test_vnet production_vnet verified) hp h =
    says "mark-seeded" refl refl refl
      (Reads-text "--state" path (declared refl) hp (
        Reads-text "--node" node (declared refl) (h.0) (
          Reads-integer "--vmid" vmid (declared refl) (h.1) (
            Reads-text "--test-vnet" test_vnet (declared refl) (h.2) (
              Reads-text "--production-vnet" production_vnet (declared refl) (h.3)
                (Reads-maybe_flag "--baseline-verified" verified (declared refl) Reads-nothing))))))
      (simp look_up_rules) (simp look_up_rules)
parse_args-argv_of path (apply_delta metadata payload target) hp h =
    says "apply-delta" refl refl refl
      (Reads-text "--metadata" metadata (declared refl) (h.0) (
        Reads-text "--payload" payload (declared refl) (h.1)
          (Reads-text "--target" target (declared refl) (h.2) Reads-nothing)))
      refl refl
parse_args-argv_of path (test_start pve) hp h =
    says "test-start" refl refl refl
      (Reads-text "--state" path (declared refl) hp
        (Reads-pve pve (declared refl) (declared refl) (declared refl) h))
      (simp look_up_rules)
      (simp look_up_rules (ap (λ x. run_command path (test_start x)) (same_pve pve h)))
parse_args-argv_of path (activate_production pve) hp h =
    says "activate-production" refl refl refl
      (Reads-text "--state" path (declared refl) hp
        (Reads-pve pve (declared refl) (declared refl) (declared refl) h))
      (simp look_up_rules)
      (simp look_up_rules (ap (λ x. run_command path (activate_production x)) (same_pve pve h)))
parse_args-argv_of path (test_stop pve timeout) hp h =
    says "test-stop" refl refl refl
      (Reads-text "--state" path (declared refl) hp (
        Reads-integer "--timeout" timeout (declared refl) (h.1)
          (Reads-pve pve (declared refl) (declared refl) (declared refl) (h.0))))
      (simp look_up_rules)
      (simp look_up_rules (ap (λ x. run_command path (test_stop x timeout)) (same_pve pve (h.0))))
parse_args-argv_of path (mark_tested guest application) hp h =
    says "mark-tested" refl refl refl
      (Reads-text "--state" path (declared refl) hp (
        Reads-maybe_flag "--guest-boot-verified" guest (declared refl)
          (Reads-maybe_flag "--application-verified" application (declared refl) Reads-nothing)))
      (simp look_up_rules) (simp look_up_rules)
parse_args-argv_of path (apply_proxmox_delta pve index metadata payload) hp h =
    says "apply-proxmox-delta" refl refl refl
      (Reads-text "--state" path (declared refl) hp (
        Reads-integer "--disk-index" index (declared refl) (h.1) (
          Reads-text "--metadata" metadata (declared refl) (h.2) (
            Reads-text "--payload" payload (declared refl) (h.3)
              (Reads-pve pve (declared refl) (declared refl) (declared refl) (h.0))))))
      (simp look_up_rules)
      (simp look_up_rules (
        ap (λ x. run_command path (apply_proxmox_delta x index metadata payload))
          (same_pve pve (h.0))))
parse_args-argv_of path (register_sync sequence reference bundle verified ready) hp h =
    says "register-sync" refl refl refl
      (Reads-text "--state" path (declared refl) hp (
        Reads-integer "--sequence" sequence (declared refl) (h.0) (
          Reads-text "--reference-point" reference (declared refl) (h.1) (
            Reads-maybe_text "--bundle" bundle (declared refl) (h.2) (
              Reads-maybe_flag "--verified" verified (declared refl)
                (Reads-maybe_flag "--cutover-ready" ready (declared refl) Reads-nothing))))))
      (simp look_up_rules) (simp look_up_rules)
parse_args-argv_of path (authorize_cutover confirm) hp h =
    says "authorize-cutover" refl refl refl
      (Reads-text "--state" path (declared refl) hp
        (Reads-text "--confirm" confirm (declared refl) h Reads-nothing))
      refl refl
parse_args-argv_of path (mark_source_stopped confirm) hp h =
    says "mark-source-stopped" refl refl refl
      (Reads-text "--state" path (declared refl) hp
        (Reads-text "--confirm" confirm (declared refl) h Reads-nothing))
      refl refl
parse_args-argv_of path (mark_rolled_back confirm) hp h =
    says "mark-rolled-back" refl refl refl
      (Reads-text "--state" path (declared refl) hp
        (Reads-text "--confirm" confirm (declared refl) h Reads-nothing))
      refl refl
parse_args-argv_of path (close confirm) hp h =
    says "close" refl refl refl
      (Reads-text "--state" path (declared refl) hp
        (Reads-text "--confirm" confirm (declared refl) h Reads-nothing))
      refl refl
parse_args-argv_of path (mark_final_sync verified) hp h =
    says "mark-final-sync" refl refl refl
      (Reads-text "--state" path (declared refl) hp
        (Reads-maybe_flag "--verified" verified (declared refl) Reads-nothing))
      (simp look_up_rules) (simp look_up_rules)
parse_args-argv_of path (mark_cutover_complete network guest application) hp h =
    says "mark-cutover-complete" refl refl refl
      (Reads-text "--state" path (declared refl) hp (
        Reads-maybe_flag "--network-verified" network (declared refl) (
          Reads-maybe_flag "--guest-verified" guest (declared refl)
            (Reads-maybe_flag "--application-verified" application (declared refl) Reads-nothing))))
      (simp look_up_rules) (simp look_up_rules)
parse_args-argv_of path (begin_rollback pve confirm timeout) hp h =
    says "begin-rollback" refl refl refl
      (Reads-text "--state" path (declared refl) hp (
        Reads-text "--confirm" confirm (declared refl) (h.1) (
          Reads-integer "--timeout" timeout (declared refl) (h.2)
            (Reads-pve pve (declared refl) (declared refl) (declared refl) (h.0)))))
      (simp look_up_rules)
      (simp look_up_rules
        (ap (λ x. run_command path (begin_rollback x confirm timeout)) (same_pve pve (h.0))))
