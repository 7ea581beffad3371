-- ===== src/Delta/Build.antt =====
-- controller/delta.py: `build_bundle_from_raw`. SHA-256 is a parameter.
use hv2pve.Prelude.{ℕ, ◌+◌, String, some, List, [], ◌∷◌, ◌++◌}
use hv2pve.Prelude.Lists.{length}
use hv2pve.Prelude.Int.{ℤ, pos, pos_part}
use hv2pve.Json.{int, str, arr, obj, Items, nil, cons, Fields, end, field}
use hv2pve.Exec.{Result, ok, and_then}
use hv2pve.Delta.Range.{ChangedRange, validate_ranges}
use hv2pve.Delta.Bytes.{Bytes}
use hv2pve.Delta.Copy.{chunk_size, read_range}

-- What names the bundle.
pub record BundleInfo : Type 0 where
  pub migration_id : String
  pub disk_id : String
  pub virtual_size : ℤ
  pub sequence : ℤ
  pub reference_from : String
  pub reference_to : String

pub record Bundle : Type 0 where
  pub entries : Items
  pub payload : Bytes

module _ (sha256 : Bytes → String) where
  abbrev pub range_fields : ChangedRange → ℕ → Bytes → Fields
  range_fields r start block = field "offset" (int r.offset) (
      field "length" (int r.length)
        (field "payload_offset" (int (pos start)) (field "sha256" (str (sha256 block)) end)))

  -- The loop over the ranges, from a place in the payload on. Offsets and lengths are validated.
  unfoldable pub build_ranges : ℕ → Bytes → ℕ → List ChangedRange → Result Bundle
  build_ranges chunk source start [] = ok (record { entries = nil; payload = [] })
  build_ranges chunk source start (r ∷ rs) =
      and_then
        (read_range (pos_part r.length) chunk source (pos_part r.offset) (pos_part r.length) [])
        λ block. and_then (build_ranges chunk source (start + length block) rs) λ rest. ok (record {
          entries = cons (obj (range_fields r start block)) rest.entries;
          payload = block ++ rest.payload;
        })

  abbrev pub metadata : BundleInfo → Bundle → Fields
  metadata info b = field "format_version" (int (pos 1)) (
      field "migration_id" (str info.migration_id) (
        field "disk_id" (str info.disk_id) (
          field "virtual_size" (int info.virtual_size) (
            field "sequence" (int info.sequence) (
              field "reference_from" (str info.reference_from) (
                field "reference_to" (str info.reference_to) (
                  field "ranges" (arr b.entries) (
                    field "payload_size" (int (pos (length b.payload)))
                      (field "payload_sha256" (str (sha256 b.payload)) end)))))))))

  -- The metadata and the payload.
  unfoldable pub build_bundle_from_raw :
      Bytes → List ChangedRange → BundleInfo → Result (Fields × Bytes)
  unfolding validate_ranges build_ranges read_range
  build_bundle_from_raw source ranges info =
      and_then (validate_ranges ranges (some info.virtual_size)) λ ordered.
        and_then (build_ranges chunk_size source 0 ordered) λ b. ok (metadata info b, b.payload)
