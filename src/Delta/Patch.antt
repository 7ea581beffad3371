-- ===== src/Delta/Patch.antt =====
-- What a bundle means: the bytes of the source in the changed ranges, those of the target
-- elsewhere.
use mathlib.Core.Path.{subst}
use hv2pve.Prelude.{
  ℕ, zero, suc, ◌+◌, ◌-◌, ◌≤◌, ◌<◌, ◌≡◌, refl, sym, ap, ◌∙◌, Bool, false, ◌&&◌, ◌||◌, List, [], ◌∷◌,
  arith, zero-add, suc-add, ltb, leb, if◌then◌else◌,
}
use hv2pve.Prelude.Lists.{length, take, drop, get_elem?}
use hv2pve.Delta.Range.{ChangedRange, start_of, size_of}
use hv2pve.Delta.Bytes.{Bytes, read_at, overlay, pwrite, length-read_at}

-- The bytes of a range.
abbrev pub block_of : Bytes → ChangedRange → Bytes
block_of source r = read_at source (start_of r) (size_of r)

-- The target with the ranges of the source written over it.
abbrev pub patch : Bytes → List ChangedRange → Bytes → Bytes
patch source [] target = target
patch source (r ∷ rs) target = patch source rs (pwrite target (block_of source r) (start_of r))

-- The sum of the ranges' sizes.
abbrev pub total_size : List ChangedRange → ℕ
total_size [] = 0
total_size (r ∷ rs) = size_of r + total_size rs

-- Whether a byte lies in a range.
abbrev pub covers : ChangedRange → ℕ → Bool
covers r i = leb (start_of r) i && ltb i (start_of r + size_of r)

abbrev pub covered : List ChangedRange → ℕ → Bool
covered [] i = false
covered (r ∷ rs) i = covers r i || covered rs i

-- Every range ends within a number of bytes.
abbrev pub AllEnd : ℕ → List ChangedRange → Type 0
AllEnd n [] = Unit
AllEnd n (r ∷ rs) = (start_of r + size_of r ≤ n) × AllEnd n rs

get_elem?-overlay :
    (block file : Bytes) (i : ℕ)
    → length block ≤ length file
    → get_elem? (overlay block file) i
      ≡ (if ltb i (length block) then get_elem? block i else get_elem? file i)
unfolding overlay
get_elem?-overlay [] file i h = ground arith
get_elem?-overlay (b ∷ block) [] i h = absurd (omega arith)
get_elem?-overlay (b ∷ block) (x ∷ file) zero h = ground arith
get_elem?-overlay (b ∷ block) (x ∷ file) (suc i) h =
    ground (arith, get_elem?-overlay block file i (omega arith))

-- A write within a file changes its own bytes and no others.
get_elem?-pwrite :
    (file block : Bytes) (offset i : ℕ)
    → offset + length block ≤ length file
    → get_elem? (pwrite file block offset) i ≡ (
        if leb offset i && ltb i (offset + length block)
        then get_elem? block (i - offset)
        else get_elem? file i)
unfolding pwrite
get_elem?-pwrite file block zero i h = ground (arith, get_elem?-overlay block file i (omega arith))
get_elem?-pwrite [] block (suc offset) i h = absurd (omega arith)
get_elem?-pwrite (x ∷ file) block (suc offset) zero h = ground arith
get_elem?-pwrite (x ∷ file) block (suc offset) (suc i) h =
    ground (arith, get_elem?-pwrite file block offset i (omega arith))

length-overlay :
    (block file : Bytes) → length block ≤ length file → length (overlay block file) ≡ length file
unfolding overlay
length-overlay [] file h = refl
length-overlay (b ∷ block) [] h = absurd (omega arith)
length-overlay (b ∷ block) (x ∷ file) h = omega (arith, length-overlay block file (omega arith))

length-pwrite :
    (file block : Bytes) (offset : ℕ)
    → offset + length block ≤ length file
    → length (pwrite file block offset) ≡ length file
unfolding pwrite
length-pwrite file block zero h = length-overlay block file (omega arith)
length-pwrite [] block (suc offset) h = absurd (omega arith)
length-pwrite (x ∷ file) block (suc offset) h =
    omega (arith, length-pwrite file block offset (omega arith))

get_elem?-drop : (n i : ℕ) (xs : Bytes) → get_elem? (drop n xs) i ≡ get_elem? xs (n + i)
get_elem?-drop zero i xs = rw zero-add refl
get_elem?-drop (suc n) i [] = refl
get_elem?-drop (suc n) i (x ∷ xs) = rw suc-add (get_elem?-drop n i xs)

get_elem?-take : (n i : ℕ) (xs : Bytes) → i < n → get_elem? (take n xs) i ≡ get_elem? xs i
get_elem?-take zero i xs h = absurd (omega arith)
get_elem?-take (suc n) i [] h = refl
get_elem?-take (suc n) zero (x ∷ xs) h = refl
get_elem?-take (suc n) (suc i) (x ∷ xs) h = get_elem?-take n i xs (omega arith)

block_byte :
    (source : Bytes) (offset size i : ℕ)
    → offset ≤ i
    → i < offset + size
    → get_elem? (read_at source offset size) (i - offset) ≡ get_elem? source i
block_byte source offset size i h k =
    get_elem?-take size (i - offset) (drop offset source) (omega arith)
    ∙ get_elem?-drop offset (i - offset) source
    ∙ ap (get_elem? source) (omega arith)

-- Byte by byte: in a changed range the byte of the source, elsewhere the byte that was there.
pub get_elem?-patch :
    (source target : Bytes) (rs : List ChangedRange) (i : ℕ)
    → AllEnd (length source) rs
    → AllEnd (length target) rs
    → get_elem? (patch source rs target) i
      ≡ (if covered rs i then get_elem? source i else get_elem? target i)
get_elem?-patch source target [] i hs ht = refl
get_elem?-patch source target (r ∷ rs) i hs ht =
    let block = block_of source r in
    let len = length-read_at source (start_of r) (size_of r) hs.0 in
    let fits : start_of r + length block ≤ length target = omega (arith, len, ht.0) in
    let same = length-pwrite target block (start_of r) fits in
    let ih =
      get_elem?-patch source (pwrite target block (start_of r)) rs i hs.1
        (subst (λ n. AllEnd n rs) (sym same) ht.1) in
    let wrote = get_elem?-pwrite target block (start_of r) i fits in
    ground (arith, ih, wrote, len, block_byte source (start_of r) (size_of r) i)
