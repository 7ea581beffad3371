-- ===== src/Examples/Appliance.antt =====
-- A bundle in the files of the appliance, and a disk to apply it to.
use hv2pve.Prelude.{ℕ, String, ◌≡◌, refl, ◌≢◌, ◌⊎◌, none, [], ◌∷◌, arith}
use hv2pve.Controller.Main.{exited, main}
use hv2pve.Delta.Build.{build_bundle_from_raw}
use hv2pve.Delta.Bytes.{Bytes}
use hv2pve.Json.{obj, arr, str, int, Fields, end, field, nil, cons}
use hv2pve.World.{json, World, write}
use hv2pve.Examples.Deltas.{
  no_hash, source_disk, old_disk, a_bundle, two_ranges, in_order, two_ranges_pass, same_elsewhere,
}
use hv2pve.Examples.Fixtures.{state_path, world_with, no_files}
use hv2pve.Prelude.Int.{pos, ◌+ℤ◌}
use hv2pve.Controller.Bundles.{write_disk}
use hv2pve.Controller.Command.{apply_delta}
use hv2pve.Exec.{ok}
use hv2pve.Controller.Bundles.Applied.{main-apply_delta}
use hv2pve.Controller.Bundles.Contained.{IsAccepted, main-apply_delta_contained}

abbrev entry : ℕ → ℕ → ℕ → Fields
entry offset length start = field "offset" (int (pos offset)) (
    field "length" (int (pos length))
      (field "payload_offset" (int (pos start)) (field "sha256" (str "00") end)))

abbrev bundle_metadata : Fields
bundle_metadata = field "format_version" (int (pos 1)) (
    field "migration_id" (str "m1") (
      field "disk_id" (str "d0") (
        field "virtual_size" (int (pos 8)) (
          field "sequence" (int (pos 4)) (
            field "reference_from" (str "rp3") (
              field "reference_to" (str "rp4") (
                field "ranges" (arr (cons (obj (entry 1 2 0)) (cons (obj (entry 6 1 2)) nil))) (
                  field "payload_size" (int (pos 3)) (field "payload_sha256" (str "00") end)))))))))

abbrev bundle_payload : Bytes
bundle_payload = 2 ∷ 3 ∷ 7 ∷ []

the_bundle :
    build_bundle_from_raw no_hash source_disk two_ranges a_bundle
    ≡ ok (bundle_metadata, bundle_payload)
unfolding build_bundle_from_raw ◌+ℤ◌
the_bundle = refl

abbrev appliance : World
appliance = record (world_with (write "delta.json" (json (obj bundle_metadata)) no_files)) {
  sha256 = no_hash;
  disks = write_disk "delta.bin" bundle_payload (write_disk "disk.raw" old_disk (λ p. none));
}

main-apply_delta_example :
    let out = main state_path (apply_delta "delta.json" "delta.bin" "disk.raw") appliance in
    (out.0 ≡ exited 0)
    × (out.1.disks ≡ write_disk "disk.raw" source_disk appliance.disks)
    × (out.1.files ≡ appliance.files)
    × (out.1.ran ≡ appliance.ran)
main-apply_delta_example =
    main-apply_delta state_path "delta.json" "delta.bin" "disk.raw" appliance source_disk old_disk
      two_ranges in_order a_bundle 8 (bundle_metadata, bundle_payload) refl (omega arith)
      (omega arith) two_ranges_pass same_elsewhere the_bundle refl refl refl

main-apply_delta_contained_example :
    let w' = (main state_path (apply_delta "delta.json" "missing.bin" "disk.raw") appliance).1 in
    (w'.files ≡ appliance.files)
    × (w'.ran ≡ appliance.ran)
    × ((p : String) → p ≢ "disk.raw" → w'.disks p ≡ appliance.disks p)
    × ((w'.disks ≡ appliance.disks) ⊎ IsAccepted "delta.json" "missing.bin" appliance)
main-apply_delta_contained_example =
    main-apply_delta_contained state_path "delta.json" "missing.bin" "disk.raw" appliance
