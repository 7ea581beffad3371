-- ===== src/Examples/Deltas.antt =====
-- A disk of eight bytes, two changed ranges of it, and a target.
use hv2pve.Prelude.{
  ℕ, zero, suc, String, ◌≡◌, refl, true, false, some, List, [], ◌∷◌, ◌++◌, arith, if◌then◌else◌,
}
use hv2pve.Prelude.Lists.{length, get_elem?}
use hv2pve.Prelude.Int.{pos, ◌+ℤ◌}
use hv2pve.Json.{obj, arr, str, int, Fields, end, field, nil, cons, find}
use hv2pve.Exec.{value_error, ok, ◌>>=◌}
use hv2pve.Delta.Range.{ChangedRange, zero_ℤ, validate_ranges}
use hv2pve.Delta.Range.Laws.{RangesFit, validate_ranges-ok, validate_ranges_fit}
use hv2pve.Delta.Bytes.{Bytes, read_at, pwrite}
use hv2pve.Delta.Copy.{read_range, copy_range}
use hv2pve.Delta.Copy.Laws.{read_range_lem, copy_range_lem}
use hv2pve.Delta.Patch.{patch, total_size, covered}
use hv2pve.Delta.Build.{BundleInfo, build_bundle_from_raw}
use hv2pve.Delta.Apply.{apply_delta_bundle}
use hv2pve.Delta.RoundTrip.{apply_delta_bundle-build}
use hv2pve.Delta.Applied.{get_elem?-apply_delta_bundle, apply_delta_bundle-source}
use hv2pve.Delta.RemoteApply.{remote_apply}
use hv2pve.Delta.RemoteApply.Laws.{remote_apply-apply_delta_bundle}
use hv2pve.Text.{lower}
use hv2pve.Delta.RemoteApply.Within.{remote_apply-SameFrom}
use hv2pve.Json.Number.{to_int}
use mathlib.Core.List.{Perm}

abbrev pub no_hash : Bytes → String
no_hash bytes = "00"

abbrev pub source_disk : Bytes
source_disk = 1 ∷ 2 ∷ 3 ∷ 4 ∷ 5 ∷ 6 ∷ 7 ∷ 8 ∷ []

abbrev pub old_disk : Bytes
old_disk = 1 ∷ 0 ∷ 0 ∷ 4 ∷ 5 ∷ 6 ∷ 0 ∷ 8 ∷ []

abbrev pub late_range : ChangedRange
late_range = record { offset = pos 6; length = pos 1 }

abbrev pub early_range : ChangedRange
early_range = record { offset = pos 1; length = pos 2 }

abbrev pub a_bundle : BundleInfo
a_bundle = record {
  migration_id = "m1";
  disk_id = "d0";
  virtual_size = pos 8;
  sequence = pos 4;
  reference_from = "rp3";
  reference_to = "rp4";
}

abbrev pub two_ranges : List ChangedRange
two_ranges = late_range ∷ early_range ∷ []

abbrev pub in_order : List ChangedRange
in_order = early_range ∷ late_range ∷ []

pub two_ranges_pass : validate_ranges two_ranges (some (pos 8)) ≡ ok in_order
unfolding validate_ranges ◌+ℤ◌
two_ranges_pass = refl

validate_ranges-ok_example :
    Perm in_order two_ranges × RangesFit true zero_ℤ (some (pos 8)) in_order
validate_ranges-ok_example = validate_ranges-ok two_ranges (some (pos 8)) in_order two_ranges_pass

validate_ranges_fit_example : validate_ranges in_order (some (pos 8)) ≡ ok in_order
validate_ranges_fit_example =
    validate_ranges_fit in_order (some (pos 8)) validate_ranges-ok_example.1

apply_delta_bundle-build_example :
    (b : Fields × Bytes) × (build_bundle_from_raw no_hash source_disk two_ranges a_bundle ≡ ok b)
    × (apply_delta_bundle no_hash b.0 b.1 old_disk
        ≡ (ok (length in_order, total_size in_order), patch source_disk in_order old_disk))
apply_delta_bundle-build_example =
    apply_delta_bundle-build no_hash source_disk old_disk two_ranges in_order a_bundle 8 refl
      (omega arith) two_ranges_pass

get_elem?-apply_delta_bundle_example :
    (b : Fields × Bytes) × (build_bundle_from_raw no_hash source_disk two_ranges a_bundle ≡ ok b)
    × (get_elem? (apply_delta_bundle no_hash b.0 b.1 old_disk).1 2
        ≡ (if covered in_order 2 then get_elem? source_disk 2 else get_elem? old_disk 2))
get_elem?-apply_delta_bundle_example =
    get_elem?-apply_delta_bundle no_hash source_disk old_disk two_ranges in_order a_bundle 8 2 refl
      (omega arith) (omega arith) two_ranges_pass

pub same_elsewhere :
    (i : ℕ) → covered in_order i ≡ false → get_elem? old_disk i ≡ get_elem? source_disk i
same_elsewhere zero h = refl
same_elsewhere (suc zero) h = ground arith
same_elsewhere (suc (suc zero)) h = ground arith
same_elsewhere (suc (suc (suc zero))) h = refl
same_elsewhere (suc (suc (suc (suc zero)))) h = refl
same_elsewhere (suc (suc (suc (suc (suc zero))))) h = refl
same_elsewhere (suc (suc (suc (suc (suc (suc zero)))))) h = ground arith
same_elsewhere (suc (suc (suc (suc (suc (suc (suc i))))))) h = refl

apply_delta_bundle-source_example :
    (b : Fields × Bytes) × (build_bundle_from_raw no_hash source_disk two_ranges a_bundle ≡ ok b)
    × (apply_delta_bundle no_hash b.0 b.1 old_disk
        ≡ (ok (length in_order, total_size in_order), source_disk))
apply_delta_bundle-source_example =
    apply_delta_bundle-source no_hash source_disk old_disk two_ranges in_order a_bundle 8 refl
      (omega arith) (omega arith) two_ranges_pass same_elsewhere

read_range_lem_example : read_range 5 2 source_disk 1 5 [] ≡ ok ([] ++ read_at source_disk 1 5)
read_range_lem_example =
    read_range_lem 2 (omega arith) source_disk 5 1 5 [] (omega arith) (omega arith)

copy_range_lem_example :
    copy_range 5 2 (value_error "ended") source_disk 1 5 3 [] old_disk
    ≡ (ok ([] ++ read_at source_disk 1 5), pwrite old_disk (read_at source_disk 1 5) 3)
copy_range_lem_example =
    copy_range_lem 2 (omega arith) (value_error "ended") source_disk 5 1 5 3 [] old_disk
      (omega arith) (omega arith) (omega arith)

remote_apply-apply_delta_bundle_example :
    (b : Fields × Bytes) × (build_bundle_from_raw no_hash source_disk two_ranges a_bundle ≡ ok b)
    × (remote_apply no_hash b.0 b.1 old_disk ≡ apply_delta_bundle no_hash b.0 b.1 old_disk)
unfolding lower
remote_apply-apply_delta_bundle_example =
    remote_apply-apply_delta_bundle no_hash source_disk old_disk two_ranges in_order a_bundle 8
      (λ bytes. refl) refl (omega arith) two_ranges_pass

-- A bundle of one range for a disk of two bytes.
abbrev small_bundle : Fields
small_bundle = field "format_version" (int (pos 1)) (
    field "payload_sha256" (str "00") (
      field "virtual_size" (int (pos 2)) (
        field "ranges"
          (arr (
            cons
              (obj (
                field "offset" (int (pos 0)) (
                  field "length" (int (pos 2))
                    (field "payload_offset" (int (pos 1)) (field "sha256" (str "00") end)))))
              nil))
          end)))

remote_writes :
    (remote_apply no_hash small_bundle (5 ∷ 6 ∷ 7 ∷ []) (1 ∷ 2 ∷ 3 ∷ []))
    ≡ (ok (1, 2), 6 ∷ 7 ∷ 3 ∷ [])
unfolding lower find ◌>>=◌ pwrite remote_apply ◌+ℤ◌
remote_writes = refl

remote_apply-SameFrom_example :
    get_elem? (remote_apply no_hash small_bundle (5 ∷ 6 ∷ 7 ∷ []) (1 ∷ 2 ∷ 3 ∷ [])).1 2 ≡ some 3
unfolding find to_int
remote_apply-SameFrom_example =
    remote_apply-SameFrom no_hash small_bundle (5 ∷ 6 ∷ 7 ∷ []) (1 ∷ 2 ∷ 3 ∷ []) 2 (omega arith)
