-- ===== src/Delta/Range/Laws.antt =====
-- What `validate_ranges` accepts: ranges that lie in order, apart and within the disk.
use mathlib.Core.List.{Perm}
use mathlib.Core.List.Perm
use hv2pve.Prelude.{
  ◌≡◌, refl, inl, inr, Bool, true, false, Option, none, some, List, [], ◌∷◌, arith, Bool-cases,
}
use hv2pve.Prelude.Int.{ℤ, pos, ◌≤ℤ◌, +ℤ_parts, leb_ℤ}
use hv2pve.Exec.{ok}
use hv2pve.Delta.Range.{
  ChangedRange, insert_by, sort_by, zero_ℤ, end_of, check_ranges, range_offset, validate_ranges,
}

-- Where a range may begin: anywhere for the first one, else behind the range before it.
abbrev pub Behind : Bool → ℤ → ChangedRange → Type 0
Behind true previous_end r = Unit
Behind false previous_end r = previous_end ≤ℤ r.offset

abbrev pub Within : Option ℤ → ℤ → Type 0
Within none end = Unit
Within (some size) end = end ≤ℤ size

-- The ranges are not negative, not empty, within the disk, and each begins behind the one before.
pub record RangeFits (first : Bool) (previous_end : ℤ) (size : Option ℤ) (r : ChangedRange)
    : Type 0 where
  pub not_negative : pos 0 ≤ℤ r.offset
  pub not_empty : pos 1 ≤ℤ r.length
  pub within : Within size (end_of r)
  pub behind : Behind first previous_end r

abbrev pub RangesFit : Bool → ℤ → Option ℤ → List ChangedRange → Type 0
RangesFit first previous_end size [] = Unit
RangesFit first previous_end size (r ∷ rs) =
    RangeFits first previous_end size r × RangesFit false (end_of r) size rs

pub check_ranges-fit :
    (first : Bool) (previous_end : ℤ) (size : Option ℤ) (rs : List ChangedRange)
    → check_ranges first previous_end size rs ≡ ok tt
    → RangesFit first previous_end size rs
unfolding check_ranges
check_ranges-fit first previous_end size [] h = tt
check_ranges-fit true previous_end none (r ∷ rs) h =
    ground (arith, check_ranges-fit false (end_of r) none rs)
check_ranges-fit true previous_end (some size) (r ∷ rs) h =
    ground (arith, check_ranges-fit false (end_of r) (some size) rs)
check_ranges-fit false previous_end none (r ∷ rs) h =
    ground (arith, check_ranges-fit false (end_of r) none rs)
check_ranges-fit false previous_end (some size) (r ∷ rs) h =
    ground (arith, check_ranges-fit false (end_of r) (some size) rs)

pub fit-check_ranges :
    (first : Bool) (previous_end : ℤ) (size : Option ℤ) (rs : List ChangedRange)
    → RangesFit first previous_end size rs
    → check_ranges first previous_end size rs ≡ ok tt
unfolding check_ranges
fit-check_ranges first previous_end size [] h = refl
fit-check_ranges true previous_end none (r ∷ rs) h =
    ground (arith, fit-check_ranges false (end_of r) none rs)
fit-check_ranges true previous_end (some size) (r ∷ rs) h =
    ground (arith, fit-check_ranges false (end_of r) (some size) rs)
fit-check_ranges false previous_end none (r ∷ rs) h =
    ground (arith, fit-check_ranges false (end_of r) none rs)
fit-check_ranges false previous_end (some size) (r ∷ rs) h =
    ground (arith, fit-check_ranges false (end_of r) (some size) rs)

-- A list that fits is in order, so sorting leaves it as it is.
insert_by-fit :
    (first : Bool) (previous_end : ℤ) (size : Option ℤ) (r : ChangedRange) (rs : List ChangedRange)
    → RangesFit first previous_end size (r ∷ rs)
    → insert_by range_offset r rs ≡ r ∷ rs
unfolding insert_by
insert_by-fit first previous_end size r [] h = refl
insert_by-fit first previous_end size r (y ∷ ys) h =
    let e : leb_ℤ r.offset y.offset ≡ true = ground (arith, +ℤ_parts r.offset r.length) in rw e

pub sort_by-fit :
    (first : Bool) (previous_end : ℤ) (size : Option ℤ) (rs : List ChangedRange)
    → RangesFit first previous_end size rs
    → sort_by range_offset rs ≡ rs
unfolding sort_by
sort_by-fit first previous_end size [] h = refl
sort_by-fit first previous_end size (r ∷ rs) h =
    rw (sort_by-fit false (end_of r) size rs h.1) (insert_by-fit first previous_end size r rs h)

insert_by-perm :
    (r : ChangedRange) (rs : List ChangedRange) → Perm (insert_by range_offset r rs) (r ∷ rs)
unfolding insert_by
insert_by-perm r [] = Perm.refl (r ∷ [])
insert_by-perm r (y ∷ ys) = elim (Bool-cases (leb_ℤ r.offset y.offset)) [
  | inl e ↦ rw e (Perm.refl (r ∷ y ∷ ys))
  | inr e ↦ rw e (Perm.trans (Perm.cons y (insert_by-perm r ys)) (Perm.swap r y ys))
]

sort_by-perm : (rs : List ChangedRange) → Perm (sort_by range_offset rs) rs
unfolding sort_by
sort_by-perm [] = Perm.refl []
sort_by-perm (r ∷ rs) =
    Perm.trans (insert_by-perm r (sort_by range_offset rs)) (Perm.cons r (sort_by-perm rs))

validate_ranges-parts :
    (ranges : List ChangedRange) (size : Option ℤ) (ordered : List ChangedRange)
    → validate_ranges ranges size ≡ ok ordered
    → (ordered ≡ sort_by range_offset ranges)
      × (check_ranges true zero_ℤ size (sort_by range_offset ranges) ≡ ok tt)
unfolding validate_ranges
validate_ranges-parts ranges size ordered h = ground arith

-- What `validate_ranges` returns is a rearrangement of what it was given, and it fits the disk: no
-- range is negative or empty, none passes the disk's end, and each begins behind the one before.
pub validate_ranges-ok :
    (ranges : List ChangedRange) (size : Option ℤ) (ordered : List ChangedRange)
    → validate_ranges ranges size ≡ ok ordered
    → Perm ordered ranges × RangesFit true zero_ℤ size ordered
validate_ranges-ok ranges size ordered h =
    let p = validate_ranges-parts ranges size ordered h in
    (
      rw (p.0) (sort_by-perm ranges),
      rw (p.0) (check_ranges-fit true zero_ℤ size (sort_by range_offset ranges) p.1),
    )

-- Ranges that lie in order, apart and within the disk pass `validate_ranges` as they are.
pub validate_ranges_fit :
    (rs : List ChangedRange) (size : Option ℤ)
    → RangesFit true zero_ℤ size rs
    → validate_ranges rs size ≡ ok rs
unfolding validate_ranges
validate_ranges_fit rs size h =
    rw (sort_by-fit true zero_ℤ size rs h) (rw (fit-check_ranges true zero_ℤ size rs h) refl)
