-- ===== src/Seed/Mapping.antt =====
-- controller/seed.py: the exported files that `resolve_exported_disks` maps the disks to.
use hv2pve.Prelude.{String, ◌≡◌, refl, ap, ◌≢◌, Bool, false, List, [], ◌∷◌, arith}
use hv2pve.Json.{Value, str, null, Fields, Items, nil, cons}
use hv2pve.Seed.{ExportedDisk, field_of, base_name, chosen_path, resolve_loop}
use hv2pve.Seed.Choice.{Matches, chosen_path-Matches}
use hv2pve.Exec.{ok}
use hv2pve.Exec.Laws.{and_then-ok, unless_raised, same_parts}
use hv2pve.Text.{is_empty}
use hv2pve.State.Payload.{as_fields}
use hv2pve.Json.Render.{to_text}
use mathlib.Core.Path.{subst}

-- A record for a disk of the source: its path and what else its entry says, and a file that matches.
pub record IsMapped (single : Bool) (candidates used : List String) (v : Value) (r : ExportedDisk)
    : Type 0 where
  pub entry : Fields
  pub is_entry : as_fields v ≡ ok entry
  pub source_path : r.source_path ≡ to_text (field_of entry "Path" "path" (str ""))
  pub has_path : r.source_path ≢ ""
  pub virtual_size : r.virtual_size ≡ field_of entry "VirtualSizeBytes" "virtual_size_bytes" null
  pub controller_type : r.controller_type ≡ field_of entry "ControllerType" "controller_type" null
  pub controller_number :
      r.controller_number ≡ field_of entry "ControllerNumber" "controller_number" null
  pub controller_location :
      r.controller_location ≡ field_of entry "ControllerLocation" "controller_location" null
  pub matches : Matches single candidates used (base_name r.source_path) r.exported_path

-- A record for each disk, in their order; the file of a disk is used for those behind it.
abbrev pub AllMapped : Bool → List String → List String → Items → List ExportedDisk → Type 0
AllMapped single candidates used nil [] = Unit
AllMapped single candidates used nil (r ∷ rs) = ⊥
AllMapped single candidates used (cons v disks) [] = ⊥
AllMapped single candidates used (cons v disks) (r ∷ rs) =
    IsMapped single candidates used v r
    × AllMapped single candidates (r.exported_path ∷ used) disks rs

not_empty : (s : String) → is_empty s ≡ false → s ≢ ""
not_empty s h e =
    let h' : is_empty "" ≡ false = subst (λ t. is_empty t ≡ false) e h in ground (arith, h')

resolve_loop-cons :
    (single : Bool) (candidates used : List String) (v : Value) (disks : Items) (r : ExportedDisk)
    (rs : List ExportedDisk)
    → resolve_loop single candidates used (cons v disks) ≡ ok (r ∷ rs)
    → IsMapped single candidates used v r
      × (resolve_loop single candidates (r.exported_path ∷ used) disks ≡ ok rs)
unfolding resolve_loop
resolve_loop-cons single candidates used v disks r rs h =
    let (d, e, h1) = and_then-ok (as_fields v) _ (r ∷ rs) h in
    let path = to_text (field_of d "Path" "path" (str "")) in
    let h2 = unless_raised (is_empty path) _ _ (r ∷ rs) h1 in
    let (chosen, ec, h3) = and_then-ok (chosen_path single candidates used path) _ (r ∷ rs) h2.1 in
    let (rest, er, h4) =
      and_then-ok (resolve_loop single candidates (chosen ∷ used) disks) _ (r ∷ rs) h3 in
    let (same, others) = same_parts _ r rest rs h4 in
    (
      subst (IsMapped single candidates used v) same (record {
        entry = d;
        is_entry = e;
        source_path = refl;
        has_path = not_empty path h2.0;
        virtual_size = refl;
        controller_type = refl;
        controller_number = refl;
        controller_location = refl;
        matches = chosen_path-Matches single candidates used path chosen ec;
      }),
      subst (λ x. resolve_loop single candidates (x ∷ used) disks ≡ ok rs)
          (ap (λ x. x.exported_path) same) (rw er (ap ok others)),
    )

-- The loop over the disks, when it returns, has made one record for each disk, in order: with the
-- path of that disk, which is not empty, and the size and the controller that its entry states, and
-- with a candidate that no disk before it has and that matches it: the only one left over with the
-- name of the disk's file; or, where none has that name, the only one left over, if the source has
-- one disk alone, or the only one left over whose stem begins with that of the disk's file.
pub resolve_loop-AllMapped :
    (single : Bool) (candidates used : List String) (disks : Items) (rs : List ExportedDisk)
    → resolve_loop single candidates used disks ≡ ok rs
    → AllMapped single candidates used disks rs
unfolding resolve_loop
resolve_loop-AllMapped single candidates used nil [] h = tt
resolve_loop-AllMapped single candidates used nil (r ∷ rs) h = absurd (ground arith)
resolve_loop-AllMapped single candidates used (cons v disks) [] h = absurd (ground arith)
resolve_loop-AllMapped single candidates used (cons v disks) (r ∷ rs) h =
    let (mine, rest) = resolve_loop-cons single candidates used v disks r rs h in
    (mine, resolve_loop-AllMapped single candidates (r.exported_path ∷ used) disks rs rest)
