-- ===== src/Controller/Bundles/Contained.antt =====
-- What `apply-delta` may change at all.
use hv2pve.Prelude.{
  String, ◌≡◌, refl, sym, ap, ◌∙◌, ◌≢◌, ◌⊎◌, inl, inr, Option, none, some, List, arith, eq_iff,
  Option-cases,
}
use hv2pve.Json.{Value, obj, arr, str, int, bool, null, Fields}
use hv2pve.Exec.{Error, value_error, file_not_found, Result, ok, err, Exec, lift, continue, ◌>>=◌}
use hv2pve.Exec.Laws.{Result-cases, bind_next, bind_raised}
use hv2pve.World.{Document, json, malformed, World, print}
use hv2pve.Delta.Bytes.{Bytes}
use hv2pve.Delta.Range.{ChangedRange}
use hv2pve.Delta.Apply.{check_bundle}
use hv2pve.Controller.Bundles.{check_files, in_disk, apply_files, cmd_apply_delta}
use hv2pve.Exec.Keeps.{Keeps, keeps_rules}
use hv2pve.State.Storage.{read_json}
use hv2pve.State.Payload.{as_fields}
use hv2pve.Controller.Command.{apply_delta}
use hv2pve.Controller.Main.{execute, main}
use hv2pve.Controller.Bundles.Laws.{apply_delta-SameFiles, apply_delta-Runs}
use hv2pve.World.Outside.{SameFiles-refl}
use mathlib.Core.Path.{subst}

-- The payload and the metadata that are there pass every test of `apply_delta_bundle`.
abbrev pub IsAccepted : String → String → World → Type 0
IsAccepted metadata payload w =
    (meta : Fields) × (bytes : Bytes) × (pairs : List (ChangedRange × Fields)) × (w.files metadata
      ≡ some (json (obj meta)))
    × (w.disks payload ≡ some bytes)
    × (check_bundle w.sha256 meta bytes ≡ ok pairs)

-- The disks are those of another world, but one.
abbrev pub SameButOne : String → World → World → Type 0
SameButOne target w₀ w = (p : String) → p ≢ target → w.disks p ≡ w₀.disks p

module _ (payload target : String) (meta : Fields) (w : World) where
  apply_files-cases :
      ((apply_files meta payload target w).1.disks ≡ w.disks)
      ⊎ ((bytes : Bytes) × (pairs : List (ChangedRange × Fields)) × (w.disks payload ≡ some bytes)
          × (check_bundle w.sha256 meta bytes ≡ ok pairs))
  unfolding apply_files ◌>>=◌
  apply_files-cases = elim (Result-cases (check_files w.sha256 meta payload (w.disks payload))) [
    | inr (e, c) ↦ inl (rw c refl)
    | inl (pairs, c) ↦ elim (Option-cases (w.disks target)) [
      | inl n ↦ inl (rw (c, n) refl)
      | inr (old, o) ↦ elim (Option-cases (w.disks payload)) [
        | inl n ↦ inl (rw (c, o, n) refl)
        | inr (bytes, h) ↦
            inr (bytes, pairs, h, subst (λ x. check_files w.sha256 meta payload x ≡ ok pairs) h c)
      ]
    ]
  ]

module _ (target : String) (w₀ : World) where
  in_disk-SameButOne :
      {A : Type 0} (bytes : Bytes) (m : Exec Bytes A)
      → Keeps (SameButOne target w₀) (in_disk target bytes m)
  unfolding in_disk
  in_disk-SameButOne bytes m = record { at = λ w h p ne. ground (arith, eq_iff target p, h p ne) }

  apply_files-SameButOne :
      (meta : Fields) (payload : String)
      → Keeps (SameButOne target w₀) (apply_files meta payload target)
  unfolding apply_files
  apply_files-SameButOne meta payload = search (keeps_rules, in_disk-SameButOne) depth 20

  read_json-SameButOne : (path : String) → Keeps (SameButOne target w₀) (read_json path)
  unfolding read_json
  read_json-SameButOne path = record { at = λ w h p ne. ground (arith, h p ne) }

  print-SameButOne : (v : Value) → Keeps (SameButOne target w₀) (print v)
  print-SameButOne v = record { at = λ w h. h }

  apply_delta-SameButOne :
      (metadata payload : String)
      → Keeps (SameButOne target w₀) (cmd_apply_delta metadata payload target)
  unfolding cmd_apply_delta
  apply_delta-SameButOne metadata payload =
      search (keeps_rules, read_json-SameButOne, print-SameButOne, apply_files-SameButOne) depth 12

module _ (metadata payload target : String) (w : World) where
  -- The disks after the command: those before, or a bundle was accepted.
  abbrev Changed : World → Type 0
  Changed w' = (w'.disks ≡ w.disks) ⊎ IsAccepted metadata payload w

  printed_after : (r : Result Value) (w' : World) → Changed w' → Changed (continue r print w').1
  printed_after (ok v) w' h = h
  printed_after (err e) w' h = h

  printing :
      (meta : Fields)
      → Changed (apply_files meta payload target w).1
      → Changed ((apply_files meta payload target >>= print) w).1
  unfolding ◌>>=◌
  printing meta h =
      printed_after (apply_files meta payload target w).0 (apply_files meta payload target w).1 h

  fields_cases :
      (v : Value) → ((meta : Fields) × (v ≡ obj meta)) ⊎ ((e : Error) × (as_fields v ≡ err e))
  unfolding as_fields
  fields_cases (obj meta) = inl (meta, refl)
  fields_cases (arr vs) = inr (_, refl)
  fields_cases (str s) = inr (_, refl)
  fields_cases (int n) = inr (_, refl)
  fields_cases (bool b) = inr (_, refl)
  fields_cases null = inr (_, refl)

  read_cases :
      (o : Option Document)
      → w.files metadata ≡ o
      → ((v : Value) × (o ≡ some (json v)) × (read_json metadata w ≡ (ok v, w)))
        ⊎ ((e : Error) × (read_json metadata w ≡ (err e, w)))
  unfolding read_json
  read_cases none h = inr (file_not_found metadata, rw (h, read_json) refl)
  read_cases (some malformed) h = inr (value_error "JSONDecodeError", rw (h, read_json) refl)
  read_cases (some (json v)) h = inl (v, refl, rw (h, read_json) refl)

  moved_to : {A : Type 0} (x y : A × World) → x ≡ y → Changed y.1 → Changed x.1
  moved_to x y e h = subst (λ z. Changed z.1) (sym e) h

  applied_or_not :
      (meta : Fields)
      → w.files metadata ≡ some (json (obj meta))
      → Changed (apply_files meta payload target w).1
  applied_or_not meta found = elim (apply_files-cases payload target meta w) [
    | inl same ↦ inl same
    | inr (bytes, pairs, held, passed) ↦ inr (meta, bytes, pairs, found, held, passed)
  ]

  with_fields :
      (v : Value)
      → w.files metadata ≡ some (json v)
      → read_json metadata w ≡ (ok v, w)
      → Changed (cmd_apply_delta metadata payload target w).1
  unfolding cmd_apply_delta
  with_fields v found r =
      let next = bind_next (read_json metadata) _ w w v r in
      elim (fields_cases v) [
        | inr (e, f) ↦
            moved_to _ _ (next ∙ bind_raised (lift (as_fields v)) _ w w e (ap (λ x. (x, w)) f))
              (inl refl)
        | inl (meta, o) ↦
            let is_ok : as_fields v ≡ ok meta = rw o refl in
            moved_to _ _ (next ∙ bind_next (lift (as_fields v)) _ w w meta (ap (λ x. (x, w)) is_ok))
              (printing meta (applied_or_not meta (rw (← o) found)))
      ]

  apply_delta-Changed : Changed (cmd_apply_delta metadata payload target w).1
  unfolding cmd_apply_delta
  apply_delta-Changed = elim (read_cases (w.files metadata) refl) [
    | inr (e, r) ↦ moved_to _ _ (bind_raised (read_json metadata) _ w w e r) (inl refl)
    | inl (v, found, r) ↦ with_fields v found r
  ]

-- Whatever the files hold and however it ends, `apply-delta` changes no JSON file and no disk but
-- its target, runs nothing on the host, and changes a disk only where the metadata is a dict and
-- the payload a file that pass every test together: of the format, the payload's digest, and the
-- ranges.
pub main-apply_delta_contained :
    (path metadata payload target : String) (w : World)
    → let w' = (main path (apply_delta metadata payload target) w).1 in
      (w'.files ≡ w.files)
      × (w'.ran ≡ w.ran)
      × ((p : String) → p ≢ target → w'.disks p ≡ w.disks p)
      × ((w'.disks ≡ w.disks) ⊎ IsAccepted metadata payload w)
unfolding main execute
main-apply_delta_contained path metadata payload target w = (
  ((apply_delta-SameFiles w metadata payload target).at w (SameFiles-refl w)).files,
  (apply_delta-Runs w metadata payload target).at w refl,
  (apply_delta-SameButOne target w metadata payload).at w (λ p ne. refl),
  apply_delta-Changed metadata payload target w,
)
