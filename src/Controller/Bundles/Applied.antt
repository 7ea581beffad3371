-- ===== src/Controller/Bundles/Applied.antt =====
-- `apply-delta` as a command: what it does to the disks of the appliance.
use hv2pve.Prelude.{ℕ, ◌≤◌, String, ◌≡◌, refl, ◌∙◌, false, some, List, [], ◌∷◌, ◌++◌, arith}
use hv2pve.Prelude.Lists.{length, get_elem?}
use hv2pve.Json.{Value, obj, Fields}
use hv2pve.Exec.{Result, ok, err, pure, lift, continue, ◌>>=◌}
use hv2pve.World.{json, World, print}
use hv2pve.Delta.Bytes.{Bytes}
use hv2pve.Delta.Range.{ChangedRange, validate_ranges}
use hv2pve.Delta.Copy.{chunk_size}
use hv2pve.Delta.Apply.{apply_ranges, check_bundle, apply_delta_bundle}
use hv2pve.Controller.Bundles.{
  check_files, write_disk, in_disk, report, apply_files, cmd_apply_delta,
}
use hv2pve.Exec.Laws.{bind_next}
use hv2pve.State.Storage.{read_json}
use hv2pve.Delta.Build.{BundleInfo, metadata, build_bundle_from_raw}
use hv2pve.Delta.Patch.{total_size, covered}
use hv2pve.Delta.Applied.{apply_delta_bundle-source}
use hv2pve.Controller.Command.{apply_delta}
use hv2pve.Controller.Main.{execute, exited, ending, main}
use hv2pve.Prelude.Int.{pos}
use hv2pve.State.Payload.{as_fields}
use mathlib.Core.Path.{subst}

module _ (sha256 : Bytes → String) (meta : Fields) (payload : Bytes) where
  -- A bundle that is applied has passed its tests, and its ranges were written.
  record Written (old new : Bytes) (n m : ℕ) (pairs : List (ChangedRange × Fields)) : Type 0 where
    pub checked : check_bundle sha256 meta payload ≡ ok pairs
    pub count : length pairs ≡ n
    pub wrote : apply_ranges sha256 chunk_size payload pairs old ≡ (ok m, new)

  counted :
      (n m k : ℕ) (new : Bytes) (r : Result ℕ) (t : Bytes)
      → continue {B = ℕ × ℕ} r (λ written. pure (k, written)) t ≡ (ok (n, m), new)
      → (k ≡ n) × (◌≡◌ {A = Result ℕ × Bytes} (r, t) (ok m, new))
  counted n m k new (ok j) t h = (ground arith, ground arith)
  counted n m k new (err e) t h = absurd (ground arith)

  apply_delta_bundle-Written :
      (old new : Bytes) (n m : ℕ)
      → apply_delta_bundle sha256 meta payload old ≡ (ok (n, m), new)
      → (pairs : List (ChangedRange × Fields)) × Written old new n m pairs
  unfolding apply_delta_bundle ◌>>=◌
  apply_delta_bundle-Written old new n m = go (check_bundle sha256 meta payload) refl
    where
      go :
          (r : Result (List (ChangedRange × Fields)))
          → check_bundle sha256 meta payload ≡ r
          → continue {B = ℕ × ℕ} r
              (λ pairs. do
                written ← apply_ranges sha256 chunk_size payload pairs
                pure (length pairs, written))
              old
            ≡ (ok (n, m), new)
          → (pairs : List (ChangedRange × Fields)) × Written old new n m pairs
      go (err e) c h = absurd (ground arith)
      go (ok pairs) c h =
          let out = apply_ranges sha256 chunk_size payload pairs old in
          let both = counted n m (length pairs) new out.0 out.1 h in
          (pairs, record { checked = c; count = both.0; wrote = both.1 })

-- What the command leaves where its bundle applies.
module _ (payload target : String) (w : World) (meta : Fields) (bytes old new : Bytes) (n m : ℕ)
    (hp : w.disks payload ≡ some bytes) (ht : w.disks target ≡ some old)
    (applied : apply_delta_bundle w.sha256 meta bytes old ≡ (ok (n, m), new)) where
  apply_files-writes :
      apply_files meta payload target w
      ≡ (ok (report target n m meta), record w { disks = write_disk target new w.disks })
  unfolding apply_files check_files in_disk ◌>>=◌
  apply_files-writes =
      let (pairs, p) = apply_delta_bundle-Written w.sha256 meta bytes old new n m applied in
      rw (hp, ht, apply_files) (rw (p.checked) (rw (p.wrote, p.count) refl))

  read_json-found :
      (path : String) (v : Value) → w.files path ≡ some (json v) → read_json path w ≡ (ok v, w)
  unfolding read_json
  read_json-found path v e = rw (e, read_json) refl

  apply_delta-writes :
      (metadata : String)
      → w.files metadata ≡ some (json (obj meta))
      → cmd_apply_delta metadata payload target w ≡ (
        ok tt,
        record w {
          disks = write_disk target new w.disks;
          printed = w.printed ++ report target n m meta ∷ [];
        },
      )
  unfolding cmd_apply_delta as_fields
  apply_delta-writes metadata hm =
      bind_next (read_json metadata) _ w w (obj meta) (read_json-found metadata (obj meta) hm)
      ∙ bind_next (lift (as_fields (obj meta))) _ w w meta refl
      ∙ bind_next (apply_files meta payload target) print w _ _ apply_files-writes

-- Where the ranges pass `validate_ranges` for the disk's size, source and target have at least
-- that size, the target differs from the source in the ranges only, and the appliance holds the
-- metadata and the payload that `build_bundle_from_raw` makes of them, `apply-delta` exits with 0
-- and makes the target the source; it changes no other disk and no JSON file, and runs nothing on
-- the host.
pub main-apply_delta :
    (path metadata payload target : String) (w : World) (source old : Bytes)
    (ranges ordered : List ChangedRange) (info : BundleInfo) (n : ℕ) (b : Fields × Bytes)
    → info.virtual_size ≡ pos n
    → n ≤ length source
    → n ≤ length old
    → validate_ranges ranges (some info.virtual_size) ≡ ok ordered
    → ((i : ℕ) → covered ordered i ≡ false → get_elem? old i ≡ get_elem? source i)
    → build_bundle_from_raw w.sha256 source ranges info ≡ ok b
    → w.files metadata ≡ some (json (obj b.0))
    → w.disks payload ≡ some b.1
    → w.disks target ≡ some old
    → let out = main path (apply_delta metadata payload target) w in
      (out.0 ≡ exited 0)
      × (out.1.disks ≡ write_disk target source w.disks)
      × (out.1.files ≡ w.files)
      × (out.1.ran ≡ w.ran)
unfolding main execute ending
main-apply_delta path metadata payload target w source old ranges ordered info n b hs hn ho hv same
      built hm hp ht =
    let (c, again, applied) =
      apply_delta_bundle-source w.sha256 source old ranges ordered info n hs hn ho hv same in
    let one : c ≡ b = cc in
    let applied_b : apply_delta_bundle w.sha256 b.0 b.1 old
        ≡ (ok (length ordered, total_size ordered), source) =
      subst
        (λ x.
          apply_delta_bundle w.sha256 x.0 x.1 old
          ≡ (ok (length ordered, total_size ordered), source))
        one applied in
    rw
      (apply_delta-writes payload target w b.0 b.1 old source (length ordered) (total_size ordered)
        hp ht applied_b metadata hm)
      (refl, refl, refl, refl)
