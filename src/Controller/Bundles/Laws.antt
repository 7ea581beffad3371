-- ===== src/Controller/Bundles/Laws.antt =====
-- `apply-delta` beside the JSON files and the host.
use hv2pve.Prelude.{String}
use hv2pve.Json.{Fields}
use hv2pve.Exec.{Exec}
use hv2pve.Exec.Keeps.{Keeps, keeps_rules}
use hv2pve.World.{World}
use hv2pve.Controller.Gates.Quiet.{print-Runs}
use hv2pve.World.Outside.{SameFiles}
use hv2pve.Delta.Bytes.{Bytes}
use hv2pve.Controller.Bundles.{in_disk, apply_files, cmd_apply_delta}
use hv2pve.Controller.Work.Commands.{read_json-SameFiles, print-SameFiles}
use hv2pve.Controller.Gates.{SameRuns, read_json-Runs}

module _ (w₀ : World) where
  in_disk-SameFiles :
      {A : Type 0} (path : String) (bytes : Bytes) (m : Exec Bytes A)
      → Keeps (SameFiles w₀) (in_disk path bytes m)
  unfolding in_disk
  in_disk-SameFiles path bytes m = record {
    at = λ w h. record { files = h.files; clock = h.clock; temp_name = h.temp_name };
  }

  apply_files-SameFiles :
      (meta : Fields) (payload target : String)
      → Keeps (SameFiles w₀) (apply_files meta payload target)
  unfolding apply_files
  apply_files-SameFiles meta payload target = search (keeps_rules, in_disk-SameFiles) depth 20

  pub apply_delta-SameFiles :
      (metadata payload target : String)
      → Keeps (SameFiles w₀) (cmd_apply_delta metadata payload target)
  unfolding cmd_apply_delta
  apply_delta-SameFiles metadata payload target =
      search (keeps_rules, read_json-SameFiles, print-SameFiles, apply_files-SameFiles) depth 12

  in_disk-Runs :
      {A : Type 0} (path : String) (bytes : Bytes) (m : Exec Bytes A)
      → Keeps (SameRuns w₀) (in_disk path bytes m)
  unfolding in_disk
  in_disk-Runs path bytes m = record { at = λ w h. h }

  apply_files-Runs :
      (meta : Fields) (payload target : String)
      → Keeps (SameRuns w₀) (apply_files meta payload target)
  unfolding apply_files
  apply_files-Runs meta payload target = search (keeps_rules, in_disk-Runs) depth 20

  pub apply_delta-Runs :
      (metadata payload target : String)
      → Keeps (SameRuns w₀) (cmd_apply_delta metadata payload target)
  unfolding cmd_apply_delta
  apply_delta-Runs metadata payload target =
      search (keeps_rules, read_json-Runs, print-Runs, apply_files-Runs) depth 12
