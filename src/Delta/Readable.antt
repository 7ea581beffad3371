-- ===== src/Delta/Readable.antt =====
-- Ranges that can be read from a source, and their payload.
use hv2pve.Prelude.{
  ℕ, ◌+◌, ◌≤◌, ◌<◌, ◌≡◌, refl, ap, Bool, false, Option, none, some, List, [], ◌∷◌, ◌++◌, arith,
}
use hv2pve.Prelude.Lists.{length, take, drop}
use hv2pve.Prelude.Int.{ℤ, pos, +ℤ_parts}
use hv2pve.Delta.Range.{ChangedRange, end_of, start_of, size_of}
use hv2pve.Delta.Range.Laws.{RangeFits, RangesFit}
use hv2pve.Delta.Bytes.{Bytes, read_at}
use hv2pve.Delta.Patch.{block_of, AllEnd}
use mathlib.Core.List.{append_assoc}

-- The payload of a list of ranges.
abbrev pub payload_of : Bytes → List ChangedRange → Bytes
payload_of source [] = []
payload_of source (r ∷ rs) = block_of source r ++ payload_of source rs

-- Ranges that are not empty and end within a number of bytes.
abbrev pub AllReadable : ℕ → List ChangedRange → Type 0
AllReadable n [] = Unit
AllReadable n (r ∷ rs) = ((0 < size_of r) × (start_of r + size_of r ≤ n)) × AllReadable n rs

pub AllReadable-AllEnd : (n : ℕ) (rs : List ChangedRange) → AllReadable n rs → AllEnd n rs
AllReadable-AllEnd n [] h = tt
AllReadable-AllEnd n (r ∷ rs) h = (h.0.1, AllReadable-AllEnd n rs h.1)

-- Ranges that fit a disk fit one of unknown size.
pub RangesFit-unbounded :
    (first : Bool) (previous : ℤ) (size : Option ℤ) (rs : List ChangedRange)
    → RangesFit first previous size rs
    → RangesFit first previous none rs
RangesFit-unbounded first previous size [] h = tt
RangesFit-unbounded first previous size (r ∷ rs) (f, h) = (
  record { not_negative = f.not_negative; not_empty = f.not_empty; within = tt; behind = f.behind },
  RangesFit-unbounded false (end_of r) size rs h,
)

-- Reading behind a first part.
pub drop-append : (a b : Bytes) → drop (length a) (a ++ b) ≡ b
drop-append [] b = refl
drop-append (x ∷ a) b = drop-append a b

pub take-append : (a b : Bytes) → take (length a) (a ++ b) ≡ a
take-append [] b = refl
take-append (x ∷ a) b = ap (λ r. x ∷ r) (take-append a b)

pub read_at_part : (a b c : Bytes) (n : ℕ) → length b ≡ n → read_at (a ++ b ++ c) (length a) n ≡ b
read_at_part a b c n e =
    rw (append_assoc a b c) (rw (drop-append a (b ++ c)) (rw (← e) (take-append b c)))

-- Ranges that fit a disk have natural numbers for their fields.
pub fit_parts :
    (first : Bool) (previous : ℤ) (n : ℕ) (r : ChangedRange)
    → RangeFits first previous (some (pos n)) r
    → (r.offset ≡ pos (start_of r))
      × (r.length ≡ pos (size_of r))
      × (0 < size_of r)
      × (start_of r + size_of r ≤ n)
fit_parts first previous n r h = ground (arith, +ℤ_parts r.offset r.length)

pub RangesFit-AllReadable :
    (first : Bool) (previous : ℤ) (m n : ℕ) (rs : List ChangedRange)
    → m ≤ n
    → RangesFit first previous (some (pos m)) rs
    → AllReadable n rs
RangesFit-AllReadable first previous m n [] hm h = tt
RangesFit-AllReadable first previous m n (r ∷ rs) hm h =
    let (eo, el, hr, he) = fit_parts first previous m r h.0 in
    ((hr, omega arith), RangesFit-AllReadable false (end_of r) m n rs hm h.1)
