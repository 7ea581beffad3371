-- ===== src/State/Payload/Defaults.antt =====
-- controller/state.py: the defaults of a section.
use hv2pve.Prelude.{
  String, ◌≡◌, refl, ◌∙◌, inl, inr, true, false, some, arith, eq_iff, str_eq, if◌then◌else◌,
  Option-cases,
}
use hv2pve.Json.{Value, Fields, end, field, find, or_else, get, set_default, truthy}
use hv2pve.Json.Laws.{find-put}
use hv2pve.State.Payload.{set_defaults}

pub find-set_default :
    (j k : String) (v : Value) (d : Fields)
    → find j (set_default k v d) ≡ (if str_eq k j then some (or_else (find k d) v) else find j d)
find-set_default j k v d = ground (arith, find-put j k v d, eq_iff k j)

-- What a section has is kept.
pub find-set_defaults :
    (j : String) (v : Value) (defaults d : Fields)
    → find j d ≡ some v
    → find j (set_defaults defaults d) ≡ some v
unfolding set_defaults
find-set_defaults j v end d h = h
find-set_defaults j v (field k w defaults) d h =
    find-set_defaults j v defaults (set_default k w d)
      (ground (arith, find-set_default j k w d, eq_iff k j))

-- Every value of a dict counts as false.
abbrev pub AllFalse : Fields → Type 0
AllFalse end = Unit
AllFalse (field k v d) = (truthy v ≡ false) × AllFalse d

-- Defaults that count as false do not change what counts as true.
pub truthy-set_defaults :
    (j : String) (defaults d : Fields)
    → AllFalse defaults
    → truthy (get j (set_defaults defaults d)) ≡ truthy (get j d)
unfolding set_defaults truthy
truthy-set_defaults j end d h = refl
truthy-set_defaults j (field k w defaults) d h =
    truthy-set_defaults j defaults (set_default k w d) h.1
    ∙ ground (arith, find-set_default j k w d, eq_iff k j, h.0)

-- What counts as true is kept.
pub get-set_defaults :
    (j : String) (defaults d : Fields)
    → truthy (get j d) ≡ true
    → get j (set_defaults defaults d) ≡ get j d
unfolding truthy
get-set_defaults j defaults d h = elim (Option-cases (find j d)) [
  | inl e ↦ ground (arith, e)
  | inr (w, e) ↦ rw (e, find-set_defaults j w defaults d e) refl
]

-- Each key of the defaults is there.
abbrev pub HasAll : Fields → Fields → Type 0
HasAll end d = Unit
HasAll (field k v defaults) d = ((w : Value) × (find k d ≡ some w)) × HasAll defaults d

pub set_defaults-HasAll : (defaults d : Fields) → HasAll defaults (set_defaults defaults d)
unfolding set_defaults
set_defaults-HasAll end d = tt
set_defaults-HasAll (field k v defaults) d = (
  (
    or_else (find k d) v,
    find-set_defaults k (or_else (find k d) v) defaults (set_default k v d)
        (ground (arith, find-set_default k k v d, eq_iff k k)),
  ),
  set_defaults-HasAll defaults (set_default k v d),
)

pub set_defaults_full : (defaults d : Fields) → HasAll defaults d → set_defaults defaults d ≡ d
unfolding set_defaults
set_defaults_full end d h = refl
set_defaults_full (field k v defaults) d h =
    let e : set_default k v d ≡ d = rw (h.0.1, set_default) in
    rw e (set_defaults_full defaults d h.1)
