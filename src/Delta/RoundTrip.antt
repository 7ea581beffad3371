-- ===== src/Delta/RoundTrip.antt =====
use hv2pve.Prelude.{
  ℕ, suc, ◌+◌, ◌≤◌, ◌<◌, String, ◌≡◌, refl, sym, ap, ◌∙◌, inl, inr, true, none, some, List, [], ◌∷◌,
  ◌++◌, map, arith, if◌then◌else◌, Bool-cases,
}
use hv2pve.Prelude.Lists.{length, length-append}
use hv2pve.Prelude.Int.{pos}
use hv2pve.Json.{obj, str, int, Fields, Items, nil, cons, find, truthy}
use hv2pve.Exec.{Error, value_error, ok, ◌>>=◌}
use hv2pve.Delta.Range.{ChangedRange, zero_ℤ, start_of, size_of, validate_ranges}
use hv2pve.Delta.Range.Laws.{RangesFit, fit-check_ranges, sort_by-fit, validate_ranges-ok}
use hv2pve.Delta.Bytes.{Bytes, pwrite, length-read_at}
use hv2pve.Delta.Copy.Laws.{read_range_lem, copy_range_lem}
use hv2pve.Delta.Build.{BundleInfo, range_fields, build_ranges, metadata, build_bundle_from_raw}
use hv2pve.Delta.Patch.{block_of, patch, total_size, AllEnd}
use hv2pve.Delta.Apply.{
  iterated, read_ranges, zip_strict, check_hash, apply_range, apply_ranges, check_bundle,
  apply_delta_bundle,
}
use hv2pve.Text.{lower}
use hv2pve.Json.Number.{to_int}
use hv2pve.Delta.Copy.{chunk_size}
use hv2pve.Delta.Readable.{
  payload_of, AllReadable, AllReadable-AllEnd, RangesFit-unbounded, read_at_part,
  RangesFit-AllReadable,
}
-- A bundle that is built from a source and applied to a target patches the target.
use text.Mathlib.TextPositions.{eq_refl}
use mathlib.Core.List.{append_assoc}

module _ (sha256 : Bytes → String) (source : Bytes) where
  -- The entries of a list of ranges, the first at a place in the payload.
  abbrev pub entries_of : ℕ → List ChangedRange → Items
  entries_of start [] = nil
  entries_of start (r ∷ rs) =
      cons (obj (range_fields sha256 r start (block_of source r)))
        (entries_of (start + size_of r) rs)

  build_ranges_lem :
      (chunk : ℕ) (start : ℕ) (rs : List ChangedRange)
      → 0 < chunk
      → AllEnd (length source) rs
      → build_ranges sha256 chunk source start rs
        ≡ ok (record { entries = entries_of start rs; payload = payload_of source rs })
  unfolding build_ranges
  build_ranges_lem chunk start [] hc h = refl
  build_ranges_lem chunk start (r ∷ rs) hc h =
      let block =
        read_range_lem chunk hc source (size_of r) (start_of r) (size_of r) [] (omega arith) h.0 in
      let len = length-read_at source (start_of r) (size_of r) h.0 in
      let ih = build_ranges_lem chunk (start + size_of r) rs hc h.1 in
      rw block (rw len (rw ih refl))

  abbrev pub pairs_of : ℕ → List ChangedRange → List (ChangedRange × Fields)
  pairs_of start [] = []
  pairs_of start (r ∷ rs) =
      (r, range_fields sha256 r start (block_of source r)) ∷ pairs_of (start + size_of r) rs

  read_ranges_lem :
      (start : ℕ) (rs : List ChangedRange)
      → read_ranges (entries_of start rs) ≡ ok (pairs_of start rs)
  unfolding read_ranges find
  read_ranges_lem start [] = refl
  read_ranges_lem start (r ∷ rs) = rw (read_ranges_lem (start + size_of r) rs) refl

  ranges_of_pairs : (start : ℕ) (rs : List ChangedRange) → map (λ p. p.0) (pairs_of start rs) ≡ rs
  ranges_of_pairs start [] = refl
  ranges_of_pairs start (r ∷ rs) = ap (λ t. r ∷ t) (ranges_of_pairs (start + size_of r) rs)

  zip_pairs :
      (start : ℕ) (rs : List ChangedRange)
      → zip_strict rs (map (λ p. p.1) (pairs_of start rs)) ≡ ok (pairs_of start rs)
  unfolding zip_strict
  zip_pairs start [] = refl
  zip_pairs start (r ∷ rs) = rw (zip_pairs (start + size_of r) rs) refl

  length_pairs : (start : ℕ) (rs : List ChangedRange) → length (pairs_of start rs) ≡ length rs
  length_pairs start [] = refl
  length_pairs start (r ∷ rs) = ap suc (length_pairs (start + size_of r) rs)

  check_hash_self :
      (bytes : Bytes) (e : Error) → check_hash sha256 (str (sha256 bytes)) bytes e ≡ ok tt
  unfolding check_hash
  check_hash_self bytes e = ground (arith, eq_refl (lower (sha256 bytes)))

  module _ (chunk : ℕ) (hc : 0 < chunk) where
    apply_range_lem :
        (before after : Bytes) (r : ChangedRange) (target : Bytes)
        → 0 < size_of r
        → start_of r + size_of r ≤ length source
        → apply_range sha256 chunk
            (before ++ block_of source r ++ after)
            (r, range_fields sha256 r (length before) (block_of source r))
            target
          ≡ (ok (size_of r), pwrite target (block_of source r) (start_of r))
    unfolding apply_range find ◌>>=◌
    apply_range_lem before after r target hr h =
        let len = length-read_at source (start_of r) (size_of r) h in
        let part = read_at_part before (block_of source r) after (size_of r) len in
        let copy =
          copy_range_lem chunk hc (value_error "delta payload ended before range data completed")
            (before ++ block_of source r ++ after) (size_of r) (length before) (size_of r)
            (start_of r) [] target hr (omega arith)
            (omega (
              arith,
              len,
              length-append (before ++ block_of source r) after,
              length-append before (block_of source r),
            )) in
        rw copy (rw part (rw check_hash_self (rw len refl)))

    apply_ranges_lem :
        (payload before : Bytes) (rs : List ChangedRange) (target : Bytes)
        → payload ≡ before ++ payload_of source rs
        → AllReadable (length source) rs
        → apply_ranges sha256 chunk payload (pairs_of (length before) rs) target
          ≡ (ok (total_size rs), patch source rs target)
    unfolding apply_ranges ◌>>=◌
    apply_ranges_lem payload before [] target e h = refl
    apply_ranges_lem payload before (r ∷ rs) target e ((hr, he), hs) =
        let block = block_of source r in
        let e' = e ∙ sym (append_assoc before block (payload_of source rs)) in
        let one : apply_range sha256 chunk payload (r, range_fields sha256 r (length before) block)
              target
            ≡ (ok (size_of r), pwrite target block (start_of r)) =
          rw e' (apply_range_lem before (payload_of source rs) r target hr he) in
        let len : length (before ++ block) ≡ length before + size_of r =
          length-append before block
          ∙ ap (λ n. length before + n) (length-read_at source (start_of r) (size_of r) he) in
        let ih =
          apply_ranges_lem payload (before ++ block) rs (pwrite target block (start_of r)) e' hs in
        rw one (rw (← len) (rw ih refl))

  check_bundle_lem :
      (info : BundleInfo) (rs : List ChangedRange)
      → RangesFit true zero_ℤ (some info.virtual_size) rs
      → check_bundle sha256
          (metadata sha256 info
            (record { entries = entries_of 0 rs; payload = payload_of source rs }))
          (payload_of source rs)
        ≡ ok (pairs_of 0 rs)
  unfolding check_bundle find iterated to_int
  check_bundle_lem info rs h =
      let size = if truthy (int info.virtual_size) then some info.virtual_size else none in
      let fit : RangesFit true zero_ℤ size rs = elim (Bool-cases (truthy (int info.virtual_size))) [
        | inl e ↦ rw e h
        | inr e ↦ rw e (RangesFit-unbounded true zero_ℤ (some info.virtual_size) rs h)
      ] in
      rw check_hash_self (
        rw read_ranges_lem (
          rw ranges_of_pairs (
            rw (sort_by-fit true zero_ℤ size rs fit)
              (rw (fit-check_ranges true zero_ℤ size rs fit) (zip_pairs 0 rs)))))

-- The bundle of ranges that are in order.
abbrev pub bundle_of : (Bytes → String) → Bytes → List ChangedRange → BundleInfo → Fields × Bytes
bundle_of sha256 source ordered info = (
  metadata sha256 info (record {
    entries = entries_of sha256 source 0 ordered;
    payload = payload_of source ordered;
  }),
  payload_of source ordered,
)

module _ (sha256 : Bytes → String) (source : Bytes) (ranges ordered : List ChangedRange)
    (info : BundleInfo) (n : ℕ) (hs : info.virtual_size ≡ pos n) (hn : n ≤ length source)
    (hv : validate_ranges ranges (some info.virtual_size) ≡ ok ordered) where
  pub ordered_fit : RangesFit true zero_ℤ (some info.virtual_size) ordered
  ordered_fit = (validate_ranges-ok ranges (some info.virtual_size) ordered hv).1

  readable : AllReadable (length source) ordered
  readable = RangesFit-AllReadable true zero_ℤ n (length source) ordered hn (rw (← hs) ordered_fit)

  pub build_lem :
      build_bundle_from_raw sha256 source ranges info ≡ ok (bundle_of sha256 source ordered info)
  unfolding build_bundle_from_raw
  build_lem =
      let built =
        build_ranges_lem sha256 source chunk_size 0 ordered (omega arith)
          (AllReadable-AllEnd (length source) ordered readable) in
      rw hv (rw built refl)

  pub apply_lem :
      (target : Bytes)
      → let b = bundle_of sha256 source ordered info in
        apply_delta_bundle sha256 b.0 b.1 target
        ≡ (ok (length ordered, total_size ordered), patch source ordered target)
  unfolding apply_delta_bundle ◌>>=◌
  apply_lem target = rw (check_bundle_lem sha256 source info ordered ordered_fit) (
      rw
        (apply_ranges_lem sha256 source chunk_size (omega arith) (payload_of source ordered) []
          ordered target refl readable)
        (rw (length_pairs sha256 source 0 ordered) refl))

-- Where the ranges pass `validate_ranges` for the disk's size and the source has at least that
-- size, `build_bundle_from_raw` returns a bundle, and `apply_delta_bundle` accepts it on every
-- target: it reports the number of ranges and of their bytes, and it leaves the target with the
-- source's bytes written over it range by range.
pub apply_delta_bundle-build :
    (sha256 : Bytes → String) (source target : Bytes) (ranges ordered : List ChangedRange)
    (info : BundleInfo) (n : ℕ)
    → info.virtual_size ≡ pos n
    → n ≤ length source
    → validate_ranges ranges (some info.virtual_size) ≡ ok ordered
    → (b : Fields × Bytes) × (build_bundle_from_raw sha256 source ranges info ≡ ok b)
      × (apply_delta_bundle sha256 b.0 b.1 target
          ≡ (ok (length ordered, total_size ordered), patch source ordered target))
apply_delta_bundle-build sha256 source target ranges ordered info n hs hn hv = (
  bundle_of sha256 source ordered info,
  build_lem sha256 source ranges ordered info n hs hn hv,
  apply_lem sha256 source ranges ordered info n hs hn hv target,
)
