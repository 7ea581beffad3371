-- ===== src/Text/Path.antt =====
-- The parts of `pathlib.PurePosixPath` that the controller uses, on paths as texts.
use Prim.Native.Char.{code}
use hv2pve.Prelude.{
  String, ◌≡◌, refl, ◌||◌, Option, none, some, List, [], ◌∷◌, ◌==◌, str_eq, if◌then◌else◌,
}
use hv2pve.Text.{glue, is_empty, split}

unfoldable pub last_part : List String → String
last_part [] = ""
last_part (p ∷ ps) = elim ps [ [] ↦ p | q ∷ qs ↦ last_part_of q qs ]
  where
    last_part_of : String → List String → String
    last_part_of p [] = p
    last_part_of p (q ∷ qs) = last_part_of q qs

-- `path.name`
unfoldable pub name : String → String
unfolding last_part split
name path = last_part (split b'/' path)

-- The name up to its last dot, and the rest from that dot.
split_suffix : String → Option (String × String)
split_suffix String.[] = none
split_suffix (glue c s) = elim (split_suffix s) [
  | some (stem, suffix) ↦ some (glue c stem, suffix)
  | none ↦ if code c == b'.' then some ("", glue c s) else none
]

-- A dot that begins or ends the name makes no suffix.
abbrev parts : Option (String × String) → String → String × String
parts none whole = (whole, "")
parts (some (stem, suffix)) whole =
    if is_empty stem || str_eq suffix "." then (whole, "") else (stem, suffix)

unfoldable pub stem : String → String
unfolding name split_suffix
stem path = (parts (split_suffix (name path)) (name path)).0

unfoldable pub suffix : String → String
unfolding name split_suffix
suffix path = (parts (split_suffix (name path)) (name path)).1

paths_run :
    (name "/a/b.c/vm01.vhdx" ≡ "vm01.vhdx")
    × (stem "/a/vm.01.vhdx" ≡ "vm.01")
    × (suffix "/a/vm.01.VHDX" ≡ ".VHDX")
    × (suffix "/a/.hidden" ≡ "")
unfolding name stem suffix
paths_run = (refl, refl, refl, refl)
