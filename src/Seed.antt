-- ===== src/Seed.antt =====
-- controller/seed.py: which exported file belongs to which disk of the source.
pub mod Choice
pub mod Mapping
pub mod Guest
pub mod Destination
pub mod Planned
pub mod Outside
pub mod DiskMap
use hv2pve.Prelude.{
  ◌/◌, String, Bool, true, false, ◌&&◌, ◌||◌, not, Option, none, some, List, [], ◌∷◌, map, str_eq,
  str_lt, if◌then◌else◌,
}
use hv2pve.Json.{
  Value, arr, str, null, Fields, Items, nil, cons, find, or_else, get, truthy, or_value,
}
use hv2pve.Json.Render.{to_text}
use hv2pve.Exec.{
  value_error, file_not_found, Result, ok, err, and_then, Exec, lift, gets, raise_if, ◌>>=◌, ◌>>◌,
}
use hv2pve.World.{World}
use hv2pve.Text.{is_empty, split, starts_with, lower, replace_char}
use hv2pve.Text.Path.{name, stem, suffix}
use hv2pve.State.Record.{MigrationState}
use hv2pve.State.Payload.{as_fields, as_items}

pub record ExportedDisk : Type 0 where
  pub source_path : String
  pub exported_path : String
  pub virtual_size : Value
  pub controller_type : Value
  pub controller_number : Value
  pub controller_location : Value

-- `_field(obj, a, b)`: the first of two keys that is there.
unfoldable pub field_of : Fields → String → String → Value → Value
field_of d a b default = or_else (find a d) (or_else (find b d) default)

-- `p.suffix.lower() in VIRTUAL_DISK_EXTENSIONS`
is_virtual_disk : String → Bool
is_virtual_disk path =
    let s = lower (suffix path) in
    str_eq s ".vhd" || str_eq s ".vhdx" || str_eq s ".avhd" || str_eq s ".avhdx"

virtual_disks : List String → List String
virtual_disks [] = []
virtual_disks (p ∷ ps) = let rest = virtual_disks ps in if is_virtual_disk p then p ∷ rest else rest

-- Paths are ordered by their parts; `true` is at most.
parts_le : List String → List String → Bool
parts_le [] qs = true
parts_le (p ∷ ps) [] = false
parts_le (p ∷ ps) (q ∷ qs) = if str_eq p q then parts_le ps qs else str_lt p q

insert_path : String → List String → List String
insert_path p [] = p ∷ []
insert_path p (q ∷ qs) =
    if parts_le (split b'/' p) (split b'/' q) then p ∷ q ∷ qs else q ∷ insert_path p qs

sort_paths : List String → List String
sort_paths [] = []
sort_paths (p ∷ ps) = insert_path p (sort_paths ps)

-- `root.exists()`, and the files below it.
listed : String → Option (List String) → Result (List String)
listed root none = err (file_not_found root)
listed root (some files) = ok (sort_paths (virtual_disks files))

unfoldable pub exported_disk_candidates : String → Exec World (List String)
unfolding listed is_virtual_disk virtual_disks parts_le insert_path sort_paths lower suffix split
exported_disk_candidates root = do files ← gets (λ w. w.tree root); lift (listed root files)

-- `p in used`
unfoldable pub is_used : String → List String → Bool
is_used p [] = false
is_used p (q ∷ qs) = str_eq p q || is_used p qs

-- The candidates that are not used and pass a test.
unfoldable pub unused_where : (String → Bool) → List String → List String → List String
unused_where test used [] = []
unused_where test used (p ∷ ps) =
    let rest = unused_where test used ps in
    if test p && not (is_used p used) then p ∷ rest else rest

-- The last rule of `resolve_exported_disks`: the only file whose stem begins with the disk's.
abbrev pub by_stem : List String → Result String
by_stem (p ∷ []) = ok p
by_stem [] = err (value_error "could not uniquely map source disk")
by_stem (p ∷ q ∷ ps) = err (value_error "could not uniquely map source disk")

-- One disk alone takes one file alone, whatever its name.
abbrev pub fallback : Bool → List String → String → List String → Result String
fallback single used source_name (p ∷ []) =
    if single
    then ok p
    else by_stem (
        unused_where (λ q. starts_with (lower (stem (name q))) (lower (stem source_name))) used
          (p ∷ []))
fallback single used source_name remaining = by_stem (
    unused_where (λ q. starts_with (lower (stem (name q))) (lower (stem source_name))) used
      remaining)

-- By the result of the exact match.
abbrev pub choose : List String → Bool → List String → List String → String → Result String
choose (p ∷ []) single candidates used source_name = ok p
choose (p ∷ q ∷ ps) single candidates used source_name =
    err (value_error "ambiguous export mapping")
choose [] single candidates used source_name =
    fallback single used source_name (unused_where (λ p. true) used candidates)

abbrev pub base_name : String → String
base_name source_path = lower (name (replace_char b'\\' "/" source_path))

-- The file for one disk.
unfoldable pub chosen_path : Bool → List String → List String → String → Result String
unfolding unused_where
chosen_path single candidates used source_path =
    choose (unused_where (λ p. str_eq (lower (name p)) (base_name source_path)) used candidates)
      single candidates used (base_name source_path)

-- The loop over the disks of the source.
unfoldable pub resolve_loop : Bool → List String → List String → Items → Result (List ExportedDisk)
resolve_loop single candidates used nil = ok []
resolve_loop single candidates used (cons v disks) = and_then (as_fields v) λ disk.
    let source_path = to_text (field_of disk "Path" "path" (str "")) in
    if is_empty source_path
    then err (value_error "source disk has no path")
    else and_then (chosen_path single candidates used source_path) λ chosen.
      and_then (resolve_loop single candidates (chosen ∷ used) disks) λ rest. ok (
        record {
          source_path = source_path;
          exported_path = chosen;
          virtual_size = field_of disk "VirtualSizeBytes" "virtual_size_bytes" null;
          controller_type = field_of disk "ControllerType" "controller_type" null;
          controller_number = field_of disk "ControllerNumber" "controller_number" null;
          controller_location = field_of disk "ControllerLocation" "controller_location" null;
        }
        ∷ rest)

abbrev pub is_single : Items → Bool
is_single nil = false
is_single (cons v nil) = true
is_single (cons v (cons w vs)) = false

-- `list(state.source.get("disks") or [])`
abbrev source_disks : MigrationState → Result Items
source_disks st = as_items (or_value (get "disks" st.source) (arr nil))

-- `export_root or state.baseline.get("export_root")`
abbrev export_root_of : Option String → MigrationState → Value
export_root_of none st = get "export_root" st.baseline
export_root_of (some root) st = or_value (str root) (get "export_root" st.baseline)

abbrev is_nil : Items → Bool
is_nil nil = true
is_nil (cons v vs) = false

abbrev none_found : List String → Bool
none_found [] = true
none_found (p ∷ ps) = false

unfoldable pub resolve_exported_disks :
    MigrationState → Option String → Exec World (List ExportedDisk)
unfolding exported_disk_candidates resolve_loop
resolve_exported_disks st export_root = do
  disks ← lift (source_disks st)
  raise_if (is_nil disks) (value_error "source disk inventory is empty")
  let root = export_root_of export_root st
  raise_if (not (truthy root)) (value_error "baseline export_root is not recorded")
  candidates ← exported_disk_candidates (to_text root)
  raise_if (none_found candidates) (value_error "no exported VHD/VHDX files found")
  lift (resolve_loop (is_single disks) candidates [] disks)
