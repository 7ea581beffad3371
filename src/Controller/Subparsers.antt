-- ===== src/Controller/Subparsers.antt =====
-- controller/hv2pve.py: the subparsers of `build_parser`.
use hv2pve.Prelude.{String, false, not, none, some, List, [], ◌∷◌}
use hv2pve.Prelude.Int.{pos}
use hv2pve.Controller.Command.{
  Command, init, ingest_baseline, ingest_sync, status, validate_state, cutover_plan, rollback_plan,
  seed_plan, seed, mark_seeded, apply_delta, test_start, activate_production, test_stop,
  mark_tested, apply_proxmox_delta, register_sync, authorize_cutover, mark_source_stopped,
  mark_rolled_back, close, mark_final_sync, mark_cutover_complete, begin_rollback,
}
use hv2pve.Proxmox.{command}
use hv2pve.Controller.Options.{a_number, a_choice, text_value, number_value, OptionSpec, look_up}
use hv2pve.Controller.Options.Declared.{
  option_of, needs, needs_number, may, flag, pve_options, text_of, number_of, maybe_text,
  maybe_number, is_set, pve_of, Subparser,
}

unfoldable pub state_option : OptionSpec
state_option = needs "--state"

unfoldable pub confirming : String → (String → Command) → Subparser
confirming name command = record {
  name = name;
  options = state_option ∷ needs "--confirm" ∷ [];
  make = λ args. command (text_of (look_up "--confirm" args));
}

unfoldable pub reading : String → (String → Command) → Subparser
reading name command = record {
  name = name;
  options = needs "--input" ∷ state_option ∷ [];
  make = λ args. command (text_of (look_up "--input" args));
}

unfoldable pub plain : String → Command → Subparser
plain name command = record { name = name; options = state_option ∷ []; make = λ args. command }

unfoldable pub seed_parser : Subparser
seed_parser = record {
  name = "seed";
  options =
      state_option
      ∷ needs "--storage"
      ∷ needs "--test-vnet"
      ∷ needs "--production-vnet"
      ∷ may "--export-root"
      ∷ option_of "--vmid" a_number false none
      ∷ option_of "--guest-os" (a_choice ("auto" ∷ "windows" ∷ "linux" ∷ "unknown" ∷ [])) false
          (some (text_value "auto"))
      ∷ flag "--keep-failed-vm"
      ∷ pve_options;
  make = λ args. seed (pve_of args) (record {
    storage = text_of (look_up "--storage" args);
    test_vnet = text_of (look_up "--test-vnet" args);
    production_vnet = text_of (look_up "--production-vnet" args);
    export_root = maybe_text (look_up "--export-root" args);
    vmid = maybe_number (look_up "--vmid" args);
    guest_os = text_of (look_up "--guest-os" args);
    cleanup_on_failure = not (is_set (look_up "--keep-failed-vm" args));
  });
}

unfoldable pub timeout_option : OptionSpec
timeout_option = option_of "--timeout" a_number false (some (number_value (pos 120)))

-- The subparsers of `build_parser`, in its order.
unfoldable pub build_parser : List Subparser
build_parser =
    record {
      name = "init";
      options =
          needs "--hyperv-host" ∷ needs "--vm-name" ∷ may "--migration-id" ∷ state_option ∷ [];
      make = λ args.
          init (maybe_text (look_up "--migration-id" args)) (text_of (look_up "--hyperv-host" args))
            (text_of (look_up "--vm-name" args));
    }
    ∷ reading "ingest-baseline" ingest_baseline
    ∷ reading "ingest-sync" ingest_sync
    ∷ plain "status" status
    ∷ plain "validate-state" validate_state
    ∷ record {
      name = "seed-plan";
      options = state_option ∷ needs "--storage" ∷ needs "--test-vnet" ∷ [];
      make = λ args.
          seed_plan (text_of (look_up "--storage" args)) (text_of (look_up "--test-vnet" args));
    }
    ∷ seed_parser
    ∷ record {
      name = "mark-seeded";
      options =
          state_option
          ∷ needs "--node"
          ∷ needs_number "--vmid"
          ∷ needs "--test-vnet"
          ∷ needs "--production-vnet"
          ∷ flag "--baseline-verified"
          ∷ [];
      make = λ args.
          mark_seeded (text_of (look_up "--node" args)) (number_of (look_up "--vmid" args))
            (text_of (look_up "--test-vnet" args)) (text_of (look_up "--production-vnet" args))
            (is_set (look_up "--baseline-verified" args));
    }
    ∷ record {
      name = "test-start";
      options = state_option ∷ pve_options;
      make = λ args. test_start (pve_of args);
    }
    ∷ record {
      name = "test-stop";
      options = state_option ∷ timeout_option ∷ pve_options;
      make = λ args. test_stop (pve_of args) (number_of (look_up "--timeout" args));
    }
    ∷ record {
      name = "mark-tested";
      options = state_option ∷ flag "--guest-boot-verified" ∷ flag "--application-verified" ∷ [];
      make = λ args.
          mark_tested (is_set (look_up "--guest-boot-verified" args))
            (is_set (look_up "--application-verified" args));
    }
    ∷ record {
      name = "apply-delta";
      options = needs "--metadata" ∷ needs "--payload" ∷ needs "--target" ∷ [];
      make = λ args.
          apply_delta (text_of (look_up "--metadata" args)) (text_of (look_up "--payload" args))
            (text_of (look_up "--target" args));
    }
    ∷ record {
      name = "apply-proxmox-delta";
      options =
          state_option
          ∷ needs_number "--disk-index"
          ∷ needs "--metadata"
          ∷ needs "--payload"
          ∷ pve_options;
      make = λ args.
          apply_proxmox_delta (pve_of args) (number_of (look_up "--disk-index" args))
            (text_of (look_up "--metadata" args)) (text_of (look_up "--payload" args));
    }
    ∷ record {
      name = "register-sync";
      options =
          state_option
          ∷ needs_number "--sequence"
          ∷ needs "--reference-point"
          ∷ may "--bundle"
          ∷ flag "--verified"
          ∷ flag "--cutover-ready"
          ∷ [];
      make = λ args.
          register_sync (number_of (look_up "--sequence" args))
            (text_of (look_up "--reference-point" args)) (maybe_text (look_up "--bundle" args))
            (is_set (look_up "--verified" args)) (is_set (look_up "--cutover-ready" args));
    }
    ∷ plain "cutover-plan" cutover_plan
    ∷ confirming "authorize-cutover" authorize_cutover
    ∷ confirming "mark-source-stopped" mark_source_stopped
    ∷ record {
      name = "mark-final-sync";
      options = state_option ∷ flag "--verified" ∷ [];
      make = λ args. mark_final_sync (is_set (look_up "--verified" args));
    }
    ∷ record {
      name = "activate-production";
      options = state_option ∷ pve_options;
      make = λ args. activate_production (pve_of args);
    }
    ∷ record {
      name = "mark-cutover-complete";
      options =
          state_option
          ∷ flag "--network-verified"
          ∷ flag "--guest-verified"
          ∷ flag "--application-verified"
          ∷ [];
      make = λ args.
          mark_cutover_complete (is_set (look_up "--network-verified" args))
            (is_set (look_up "--guest-verified" args))
            (is_set (look_up "--application-verified" args));
    }
    ∷ plain "rollback-plan" rollback_plan
    ∷ record {
      name = "begin-rollback";
      options = state_option ∷ needs "--confirm" ∷ timeout_option ∷ pve_options;
      make = λ args.
          begin_rollback (pve_of args) (text_of (look_up "--confirm" args))
            (number_of (look_up "--timeout" args));
    }
    ∷ confirming "mark-rolled-back" mark_rolled_back
    ∷ confirming "close" close
    ∷ []
