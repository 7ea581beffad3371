-- ===== src/Examples/Exports.antt =====
-- Two disks of a source, and the three files of its export.
use hv2pve.Prelude.{String, ◌≡◌, refl, false, List, [], ◌∷◌}
use hv2pve.Json.{Value, obj, str, null, end, field, Items, nil, cons, find}
use hv2pve.Seed.{ExportedDisk, field_of, is_used, chosen_path, resolve_loop}
use hv2pve.Exec.{ok}
use hv2pve.State.Payload.{as_fields}
use hv2pve.Json.Render.{to_text}
use hv2pve.Text.{lower, replace_char}
use hv2pve.Text.Path.{name}
use hv2pve.Seed.Mapping.{AllMapped, resolve_loop-AllMapped}

abbrev export_files : List String
export_files = "/export/a.vhdx" ∷ "/export/b.vhdx" ∷ "/export/c.vhdx" ∷ []

abbrev disk_at : String → Value
disk_at path = obj (field "Path" (str path) end)

abbrev two_disks : Items
two_disks = cons (disk_at "C:\\vm\\B.vhdx") (cons (disk_at "C:\\vm\\a.vhdx") nil)

abbrev exported : String → String → ExportedDisk
exported source_path exported_path = record {
  source_path = source_path;
  exported_path = exported_path;
  virtual_size = null;
  controller_type = null;
  controller_number = null;
  controller_location = null;
}

abbrev two_files : List ExportedDisk
two_files =
    exported "C:\\vm\\B.vhdx" "/export/b.vhdx" ∷ exported "C:\\vm\\a.vhdx" "/export/a.vhdx" ∷ []

two_resolved : resolve_loop false export_files [] two_disks ≡ ok two_files
unfolding resolve_loop as_fields to_text field_of find chosen_path lower name replace_char is_used
two_resolved = refl

resolve_loop-AllMapped_example : AllMapped false export_files [] two_disks two_files
resolve_loop-AllMapped_example =
    resolve_loop-AllMapped false export_files [] two_disks two_files two_resolved
