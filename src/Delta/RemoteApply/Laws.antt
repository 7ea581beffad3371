-- ===== src/Delta/RemoteApply/Laws.antt =====
use hv2pve.Prelude.{
  ℕ, suc, ◌+◌, ◌≤◌, ◌<◌, String, ◌≡◌, refl, sym, ap, ◌∙◌, Bool, true, false, some, List, [], ◌∷◌,
  ◌++◌, arith, str_eq,
}
use hv2pve.Prelude.Lists.{length, length-append}
use hv2pve.Prelude.Int.{ℤ, pos, +ℤ_parts, leb_ℤ}
use hv2pve.Json.{Fields, find}
use hv2pve.Exec.{system_exit, Result, ok, ◌>>=◌}
use hv2pve.Text.{lower}
use hv2pve.Delta.Range.{
  ChangedRange, insert_by, sort_by, zero_ℤ, end_of, start_of, size_of, validate_ranges,
}
use hv2pve.Delta.Range.Laws.{RangeFits, RangesFit}
use hv2pve.Delta.Bytes.{Bytes, read_at, pwrite, length-read_at}
use hv2pve.Delta.Copy.Laws.{copy_range_lem}
use hv2pve.Delta.Patch.{block_of, patch, total_size}
use hv2pve.Delta.Build.{BundleInfo, range_fields, metadata, build_bundle_from_raw}
use hv2pve.Delta.Readable.{payload_of, read_at_part, fit_parts}
use hv2pve.Delta.RoundTrip.{entries_of, bundle_of, ordered_fit, build_lem, apply_lem}
use hv2pve.Delta.RemoteApply.{
  keyed, key_of, check_entry, write_place, write_entry, write_entries, check_remote, remote_apply,
}
use hv2pve.Delta.Apply.{iterated, apply_delta_bundle}
use hv2pve.Json.Number.{to_int}
use hv2pve.Delta.Copy.{chunk_size}
use mathlib.Core.List.{append_assoc}
-- The applier on the host does to a built bundle what `apply_delta_bundle` does.
use text.Mathlib.TextPositions.{eq_refl}

check_entry-fit :
    (sha256 : Bytes → String) (first : Bool) (previous total : ℤ) (r : ChangedRange)
    → RangeFits first previous (some total) r
    → check_entry sha256 (ok total) first previous r.offset r.length ≡ ok tt
unfolding check_entry
check_entry-fit sha256 true previous total r h = ground arith
check_entry-fit sha256 false previous total r h = ground arith

write_place_lem :
    (sha256 : Bytes → String) (virtual_size : Result ℤ) (block : Bytes) (z : ℤ) (n : ℕ)
    → z ≡ pos n
    → write_place sha256 virtual_size block z ≡ ok n
write_place_lem sha256 virtual_size block z n e = rw e refl

-- A hash that `hexdigest` has printed is in lower case.
abbrev pub IsLower : (Bytes → String) → Type 0
IsLower sha256 = (bytes : Bytes) → lower (sha256 bytes) ≡ sha256 bytes

module _ (sha256 : Bytes → String) (source : Bytes) where
  -- The entries with their keys.
  abbrev keyed_of : ℕ → List ChangedRange → List (ℤ × Fields)
  keyed_of start [] = []
  keyed_of start (r ∷ rs) =
      (r.offset, range_fields sha256 r start (block_of source r)) ∷ keyed_of (start + size_of r) rs

  keyed_lem :
      (start : ℕ) (rs : List ChangedRange)
      → keyed (entries_of sha256 source start rs) ≡ ok (keyed_of start rs)
  unfolding keyed find
  keyed_lem start [] = refl
  keyed_lem start (r ∷ rs) = rw (keyed_lem (start + size_of r) rs) refl

  length_keyed : (start : ℕ) (rs : List ChangedRange) → length (keyed_of start rs) ≡ length rs
  length_keyed start [] = refl
  length_keyed start (r ∷ rs) = ap suc (length_keyed (start + size_of r) rs)

  sort_keyed :
      (first : Bool) (previous total : ℤ) (start : ℕ) (rs : List ChangedRange)
      → RangesFit first previous (some total) rs
      → sort_by key_of (keyed_of start rs) ≡ keyed_of start rs
  unfolding sort_by
  sort_keyed first previous total start [] h = refl
  sort_keyed first previous total start (r ∷ []) h = unfold insert_by in refl
  sort_keyed first previous total start (r ∷ y ∷ rs) h =
      let e : leb_ℤ r.offset y.offset ≡ true = ground (arith, +ℤ_parts r.offset r.length) in
      rw (sort_keyed false (end_of r) total (start + size_of r) (y ∷ rs) h.1)
        (unfold insert_by in rw e refl)

  module _ (hl : IsLower sha256) (chunk : ℕ) (hc : 0 < chunk) (virtual_size : Result ℤ) where
    write_entry_lem :
        (before after : Bytes) (r : ChangedRange) (target : Bytes)
        → r.offset ≡ pos (start_of r)
        → 0 < size_of r
        → start_of r + size_of r ≤ length source
        → write_entry sha256 virtual_size chunk
            (before ++ block_of source r ++ after)
            r.offset
            r.length
            (range_fields sha256 r (length before) (block_of source r))
            target
          ≡ (ok (size_of r), pwrite target (block_of source r) (start_of r))
    unfolding write_entry find ◌>>=◌
    write_entry_lem before after r target eo hr h =
        let len = length-read_at source (start_of r) (size_of r) h in
        let payload = before ++ block_of source r ++ after in
        let part = read_at_part before (block_of source r) after (size_of r) len in
        let copy =
          copy_range_lem chunk hc (system_exit "payload ended early") payload (size_of r)
            (length before) (size_of r) (start_of r) [] target hr (omega arith)
            (omega (
              arith,
              len,
              length-append (before ++ block_of source r) after,
              length-append before (block_of source r),
            )) in
        let place =
          write_place_lem sha256 virtual_size (read_at payload (length before) 1) r.offset
            (start_of r) eo in
        let same : str_eq (sha256 (block_of source r)) (lower (sha256 (block_of source r))) ≡ true =
          rw (hl (block_of source r)) (eq_refl (sha256 (block_of source r))) in
        rw place (rw copy (rw part (rw same (rw len refl))))

  write_entries_lem :
      (hl : IsLower sha256) (chunk : ℕ) (hc : 0 < chunk) (n : ℕ) (payload before : Bytes)
      (first : Bool) (previous : ℤ) (rs : List ChangedRange) (target : Bytes)
      → n ≤ length source
      → payload ≡ before ++ payload_of source rs
      → RangesFit first previous (some (pos n)) rs
      → write_entries sha256
          (ok (pos n))
          chunk
          payload
          first
          previous
          (keyed_of (length before) rs)
          target
        ≡ (ok (total_size rs), patch source rs target)
  unfolding write_entries find to_int ◌>>=◌
  write_entries_lem hl chunk hc n payload before first previous [] target hn e h = refl
  write_entries_lem hl chunk hc n payload before first previous (r ∷ rs) target hn e (f, h) =
      let block = block_of source r in
      let (eo, el, hr, he) = fit_parts first previous n r f in
      let e' = e ∙ sym (append_assoc before block (payload_of source rs)) in
      let one : write_entry sha256 (ok (pos n)) chunk payload r.offset r.length
            (range_fields sha256 r (length before) block) target
          ≡ (ok (size_of r), pwrite target block (start_of r)) =
        rw e' (
          write_entry_lem hl chunk hc (ok (pos n)) before (payload_of source rs) r target eo hr
            (omega (arith, he, hn))) in
      let len : length (before ++ block) ≡ length before + size_of r =
        length-append before block
        ∙ ap (λ m. length before + m)
            (length-read_at source (start_of r) (size_of r) (omega (arith, he, hn))) in
      let ih =
        write_entries_lem hl chunk hc n payload (before ++ block) false (end_of r) rs
          (pwrite target block (start_of r)) hn e' h in
      rw (check_entry-fit sha256 first previous (pos n) r f) (rw one (rw (← len) (rw ih refl)))

  check_remote_lem :
      (hl : IsLower sha256) (info : BundleInfo) (rs : List ChangedRange)
      → RangesFit true zero_ℤ (some info.virtual_size) rs
      → check_remote sha256
          (metadata sha256 info
            (record { entries = entries_of sha256 source 0 rs; payload = payload_of source rs }))
          (payload_of source rs)
        ≡ ok (keyed_of 0 rs)
  unfolding check_remote find iterated to_int
  check_remote_lem hl info rs h =
      let same : str_eq (sha256 (payload_of source rs)) (lower (sha256 (payload_of source rs)))
          ≡ true =
        rw (hl (payload_of source rs)) (eq_refl (sha256 (payload_of source rs))) in
      rw same (rw (keyed_lem 0 rs) (rw (sort_keyed true zero_ℤ info.virtual_size 0 rs h) refl))

remote_lem :
    (sha256 : Bytes → String) (source : Bytes) (ordered : List ChangedRange) (info : BundleInfo)
    (n : ℕ)
    → IsLower sha256
    → info.virtual_size ≡ pos n
    → n ≤ length source
    → RangesFit true zero_ℤ (some info.virtual_size) ordered
    → (target : Bytes)
    → let b = bundle_of sha256 source ordered info in
      remote_apply sha256 b.0 b.1 target
      ≡ (ok (length ordered, total_size ordered), patch source ordered target)
unfolding remote_apply find to_int ◌>>=◌
remote_lem sha256 source ordered info n hl hs hn fit target =
    let written : write_entries sha256 (ok info.virtual_size) chunk_size (payload_of source ordered)
          true zero_ℤ (keyed_of sha256 source 0 ordered) target
        ≡ (ok (total_size ordered), patch source ordered target) =
      rw hs (
        write_entries_lem sha256 source hl chunk_size (omega arith) n (payload_of source ordered) []
          true zero_ℤ ordered target hn refl (rw (← hs) fit)) in
    rw (check_remote_lem sha256 source hl info ordered fit)
      (rw written (rw (length_keyed sha256 source 0 ordered) refl))

-- Where the ranges pass `validate_ranges` for the disk's size, the source has at least that size,
-- and the hash prints in lower case, `build_bundle_from_raw` returns a bundle, and on it the
-- applier on the host and `apply_delta_bundle` do the same to every target: they report the same
-- counts and leave the same bytes.
pub remote_apply-apply_delta_bundle :
    (sha256 : Bytes → String) (source target : Bytes) (ranges ordered : List ChangedRange)
    (info : BundleInfo) (n : ℕ)
    → IsLower sha256
    → info.virtual_size ≡ pos n
    → n ≤ length source
    → validate_ranges ranges (some info.virtual_size) ≡ ok ordered
    → (b : Fields × Bytes) × (build_bundle_from_raw sha256 source ranges info ≡ ok b)
      × (remote_apply sha256 b.0 b.1 target ≡ apply_delta_bundle sha256 b.0 b.1 target)
remote_apply-apply_delta_bundle sha256 source target ranges ordered info n hl hs hn hv = (
  bundle_of sha256 source ordered info,
  build_lem sha256 source ranges ordered info n hs hn hv,
  remote_lem sha256 source ordered info n hl hs hn
        (ordered_fit sha256 source ranges ordered info n hs hn hv) target
      ∙ sym (apply_lem sha256 source ranges ordered info n hs hn hv target),
)
