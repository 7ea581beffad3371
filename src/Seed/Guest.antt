-- ===== src/Seed/Guest.antt =====
-- controller/seed.py: what the destination VM is made like: `inspect_guest_os` and the first half
-- of `seed_destination`.
use hv2pve.Prelude.{
  ℕ, ◌/◌, String, Bool, ◌&&◌, ◌||◌, not, Option, none, some, List, [], ◌∷◌, ◌==◌, str_eq,
  if◌then◌else◌,
}
use hv2pve.Prelude.Int.{ℤ, pos, negsuc, ltb_ℤ}
use hv2pve.Json.{Value, null, int, str, arr, obj, nil, cons, Fields, end, get, truthy, or_value}
use hv2pve.Json.Number.{to_int}
use hv2pve.Json.Render.{to_text}
use hv2pve.Exec.{command_error, index_error, file_not_found, Result, ok, err, and_then, Exec}
use hv2pve.World.{World}
use hv2pve.Process.{run}
use hv2pve.Text.{glue, cat, join, lower, contains, char_count, prefix}
use hv2pve.State.Record.{MigrationState}
use hv2pve.State.Payload.{as_fields, as_items}
use hv2pve.Seed.{field_of}

-- `"<distro>windows</distro>" in text`, and so on.
unfoldable pub guest_of_report : String → String
unfolding contains
guest_of_report text =
    if contains text "<distro>windows</distro>" || contains text "<osinfo>win"
    then "windows"
    else if contains text "<type>linux</type>"
        || contains text "<distro>ubuntu</distro>"
        || contains text "<distro>rhel"
    then "linux"
    else "unknown"

-- A missing program and a failed command count as unknown; a timeout is raised.
inspected : Result String → Result String
inspected (ok stdout) = ok (guest_of_report (lower stdout))
inspected (err (command_error m)) = ok "unknown"
inspected (err (file_not_found m)) = ok "unknown"
inspected (err e) = err e

unfoldable pub inspect_guest_os : String → Exec World String
unfolding inspected run lower guest_of_report
inspect_guest_os disk_path w =
    let (r, w') = run ("virt-inspector" ∷ "-a" ∷ disk_path ∷ []) w in (inspected r, w')

-- `n // d` and `max(m, n)` on integers.
abbrev pub floor_div : ℤ → ℕ → ℤ
floor_div (pos n) d = pos (n / d)
floor_div (negsuc n) d = negsuc (n / d)

abbrev pub max_ℤ : ℤ → ℤ → ℤ
max_ℤ a b = if ltb_ℤ a b then b else a

pub record Guest : Type 0 where
  pub name : String
  pub generation : ℤ
  pub cores : ℤ
  pub memory_mb : ℤ
  pub mac : Option String

unfoldable pub memory_mb_of : ℤ → ℤ
memory_mb_of memory_bytes = max_ℤ (pos 512) (floor_div memory_bytes 1048576)

-- The pairs of a text of twelve characters, joined by colons.
pairs : String → List String
pairs String.[] = []
pairs (glue c String.[]) = glue c String.[] ∷ []
pairs (glue c (glue d s)) = glue c (glue d String.[]) ∷ pairs s

unfoldable pub mac_of : Value → Option String
unfolding pairs to_text join contains char_count
mac_of v =
    let mac = to_text v in
    if not (truthy v)
    then none
    else if char_count mac == 12 && not (contains mac ":")
    then some (join ":" (pairs mac))
    else some mac

-- `(source.get("networks") or [{}])[0]`
pub first_network : Fields → Result Fields
first_network source =
    and_then (as_items (or_value (get "networks" source) (arr (cons (obj end) nil)))) λ networks.
      elim networks [ nil ↦ err (index_error "list index out of range") | cons v vs ↦ as_fields v ]

unfoldable pub guest_of : MigrationState → Result Guest
unfolding first_network to_text cat prefix memory_mb_of mac_of to_int
guest_of st =
    let source = st.source in
    and_then (to_int (or_value (get "generation" source) (int (pos 2)))) λ generation.
      and_then
        (to_int (
          or_value (get "processor_count" source)
            (or_value (get "ProcessorCount" source) (int (pos 2)))))
        λ cores.
          and_then
            (to_int (
              or_value (get "memory_startup_bytes" source) (
                or_value (get "MemoryStartupBytes" source)
                  (or_value (get "memory_assigned_bytes" source) (int (pos 4294967296))))))
            λ memory. and_then (first_network source) λ network. ok (record {
              name = to_text (
                  or_value (get "vm_name" source)
                    (str (cat "hv2pve-" (prefix 8 (to_text st.migration_id)))));
              generation = generation;
              cores = cores;
              memory_mb = memory_mb_of memory;
              mac = mac_of (field_of network "MacAddress" "mac_address" null);
            })

-- `guest_os in {"windows", "unknown"}`, and the models chosen for it.
abbrev pub is_compatible : String → Bool
is_compatible guest_os = str_eq guest_os "windows" || str_eq guest_os "unknown"

abbrev pub nic_model_of : String → String
nic_model_of guest_os = if is_compatible guest_os then "e1000" else "virtio"

abbrev pub disk_bus_of : String → String
disk_bus_of guest_os = if is_compatible guest_os then "sata" else "scsi"
