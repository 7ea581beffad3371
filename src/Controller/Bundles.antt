-- ===== src/Controller/Bundles.antt =====
-- controller/hv2pve.py: `cmd_apply_delta`, and the files of `apply_delta_bundle`. The payload is
-- read as it was when it was opened: a payload that is its own target is outside the model.
pub mod Laws
pub mod Applied
pub mod Contained
use hv2pve.Prelude.{ℕ, String, not, Option, none, some, List, [], str_eq, if◌then◌else◌}
use hv2pve.Prelude.Int.{pos}
use hv2pve.Json.{Value, obj, str, int, Fields, end, field, find, or_else, get, truthy, int_eq}
use hv2pve.Json.Number.{to_int}
use hv2pve.Exec.{
  value_error, file_not_found, Result, ok, err, and_then, Exec, Done, pure, lift, gets, ◌>>=◌,
}
use hv2pve.World.{World, print}
use hv2pve.State.Storage.{read_json}
use hv2pve.State.Payload.{as_fields}
use hv2pve.Delta.Range.{ChangedRange}
use hv2pve.Delta.Bytes.{Bytes}
use hv2pve.Delta.Copy.{chunk_size}
use hv2pve.Delta.Apply.{apply_ranges, check_bundle}
use hv2pve.Prelude.Lists.{length}

-- `open(path, "rb")`, and `os.open(path, os.O_RDWR)`.
abbrev pub opened : String → Option Bytes → Result Bytes
opened path none = err (file_not_found path)
opened path (some bytes) = ok bytes

-- The tests before the target is opened. The payload is opened there only where it is to be hashed.
unfoldable pub check_files :
    (Bytes → String) → Fields → String → Option Bytes → Result (List (ChangedRange × Fields))
unfolding check_bundle to_int truthy
check_files sha256 meta path (some payload) = check_bundle sha256 meta payload
check_files sha256 meta path none =
    and_then (to_int (or_else (find "format_version" meta) (int (pos 0)))) λ version.
      if not (int_eq version (pos 1))
      then err (value_error "unsupported delta bundle format")
      else if truthy (get "payload_sha256" meta)
      then err (file_not_found path)
      else check_bundle sha256 meta []

-- A disk of the appliance with what it holds now.
abbrev pub write_disk : String → Bytes → (String → Option Bytes) → String → Option Bytes
write_disk path bytes disks p = if str_eq path p then some bytes else disks p

-- Work on an open file: what it wrote stays, whether it returns or raises.
unfoldable pub in_disk : {A : Type 0} → String → Bytes → Exec Bytes A → Exec World A
in_disk path bytes m w =
    let (r, bytes') = m bytes in (r, record w { disks = write_disk path bytes' w.disks })

-- The dict that `apply_delta_bundle` returns.
unfoldable pub report : String → ℕ → ℕ → Fields → Value
report target ranges written meta = obj (
    field "target" (str target) (
      field "ranges" (int (pos ranges)) (
        field "bytes_written" (int (pos written)) (
          field "sequence" (get "sequence" meta) (
            field "reference_from" (get "reference_from" meta)
              (field "reference_to" (get "reference_to" meta) end))))))

-- The body of `apply_delta_bundle` once its metadata is read.
unfoldable pub apply_files : Fields → String → String → Exec World Value
unfolding check_files in_disk report apply_ranges
apply_files meta payload_path target_path = do
  payload ← gets (λ w. w.disks payload_path)
  target ← gets (λ w. w.disks target_path)
  sha256 ← gets (λ w. w.sha256)
  pairs ← lift (check_files sha256 meta payload_path payload)
  before ← lift (opened target_path target)
  bytes ← lift (opened payload_path payload)
  written ← in_disk target_path before (apply_ranges sha256 chunk_size bytes pairs)
  pure (report target_path (length pairs) written meta)

unfoldable pub cmd_apply_delta : String → String → String → Exec World Done
unfolding read_json as_fields apply_files
cmd_apply_delta metadata payload target = do
  v ← read_json metadata
  meta ← lift (as_fields v)
  result ← apply_files meta payload target
  print result
