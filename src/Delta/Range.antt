-- ===== src/Delta/Range.antt =====
-- controller/delta.py: `ChangedRange` and `validate_ranges`.
pub mod Laws
use hv2pve.Prelude.{
  ℕ, Bool, true, false, ◌&&◌, not, Option, none, some, List, [], ◌∷◌, if◌then◌else◌,
}
use hv2pve.Prelude.Int.{ℤ, pos, pos_part, ◌+ℤ◌, ltb_ℤ, leb_ℤ}
use hv2pve.Exec.{value_error, Result, ok, err, and_then, Done}

pub record ChangedRange : Type 0 where
  pub offset : ℤ
  pub length : ℤ

-- `sorted(…, key=…)`: an insertion sort, which keeps the order of equal keys as Python's does.
module _ {A : Type 0} (key : A → ℤ) where
  unfoldable pub insert_by : A → List A → List A
  insert_by x [] = x ∷ []
  insert_by x (y ∷ ys) = if leb_ℤ (key x) (key y) then x ∷ y ∷ ys else y ∷ insert_by x ys

  unfoldable pub sort_by : List A → List A
  unfolding insert_by
  sort_by [] = []
  sort_by (x ∷ xs) = insert_by x (sort_by xs)

abbrev pub zero_ℤ : ℤ
zero_ℤ = pos 0

-- The sum of two integers, where the second is positive.
abbrev pub end_of : ChangedRange → ℤ
end_of r = r.offset +ℤ r.length

-- `ChangedRange.validate`
unfoldable pub validate_range : ChangedRange → Result Done
validate_range r =
    if ltb_ℤ r.offset zero_ℤ
    then err (value_error "range offset cannot be negative")
    else if leb_ℤ r.length zero_ℤ
    then err (value_error "range length must be positive")
    else ok tt

-- `virtual_size is not None and end > virtual_size`
abbrev pub beyond : ℤ → Option ℤ → Bool
beyond end none = false
beyond end (some size) = ltb_ℤ size end

-- A range's place and size, where it is validated.
abbrev pub start_of : ChangedRange → ℕ
start_of r = pos_part r.offset

abbrev pub size_of : ChangedRange → ℕ
size_of r = pos_part r.length

-- The loop of `validate_ranges`; `first` is `i == 0`.
unfoldable pub check_ranges : Bool → ℤ → Option ℤ → List ChangedRange → Result Done
unfolding validate_range
check_ranges first previous_end virtual_size [] = ok tt
check_ranges first previous_end virtual_size (r ∷ rs) =
    let rest = check_ranges false (end_of r) virtual_size rs in
    and_then (validate_range r) λ _.
      if not first && ltb_ℤ r.offset previous_end
      then err (value_error "changed ranges overlap")
      else if beyond (end_of r) virtual_size
      then err (value_error "changed range extends beyond virtual disk size")
      else rest

abbrev pub range_offset : ChangedRange → ℤ
range_offset r = r.offset

unfoldable pub validate_ranges : List ChangedRange → Option ℤ → Result (List ChangedRange)
unfolding sort_by check_ranges
validate_ranges ranges virtual_size =
    let ordered = sort_by range_offset ranges in
    and_then (check_ranges true zero_ℤ virtual_size ordered) λ _. ok ordered
