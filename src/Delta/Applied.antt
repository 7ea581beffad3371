-- ===== src/Delta/Applied.antt =====
-- What an applied bundle leaves on the target, byte by byte, and when that is the whole source.
use hv2pve.Prelude.{
  ℕ, suc, ◌≤◌, String, ◌≡◌, refl, ap, ◌∙◌, inl, inr, true, false, some, List, [], ◌∷◌, arith,
  if◌then◌else◌, Bool-cases,
}
use hv2pve.Prelude.Lists.{length, get_elem?}
use hv2pve.Prelude.Int.{pos}
use hv2pve.Json.{Fields}
use hv2pve.Exec.{ok}
use hv2pve.Delta.Range.{ChangedRange, zero_ℤ, validate_ranges}
use hv2pve.Delta.Range.Laws.{validate_ranges-ok}
use hv2pve.Delta.Bytes.{Bytes}
use hv2pve.Delta.Patch.{patch, total_size, covered, AllEnd, get_elem?-patch}
use hv2pve.Delta.Build.{BundleInfo, build_bundle_from_raw}
use hv2pve.Delta.Apply.{apply_delta_bundle}
use hv2pve.Delta.Readable.{AllReadable-AllEnd, RangesFit-AllReadable}
use hv2pve.Delta.RoundTrip.{apply_delta_bundle-build}

-- Where the ranges pass `validate_ranges` for the disk's size, and source and target have at least
-- that size, `build_bundle_from_raw` returns a bundle, and `apply_delta_bundle` leaves in each
-- place of a range the source's byte, and in each other place the byte that was there.
pub get_elem?-apply_delta_bundle :
    (sha256 : Bytes → String) (source target : Bytes) (ranges ordered : List ChangedRange)
    (info : BundleInfo) (n i : ℕ)
    → info.virtual_size ≡ pos n
    → n ≤ length source
    → n ≤ length target
    → validate_ranges ranges (some info.virtual_size) ≡ ok ordered
    → (b : Fields × Bytes) × (build_bundle_from_raw sha256 source ranges info ≡ ok b)
      × (get_elem? (apply_delta_bundle sha256 b.0 b.1 target).1 i
          ≡ (if covered ordered i then get_elem? source i else get_elem? target i))
get_elem?-apply_delta_bundle sha256 source target ranges ordered info n i hs hn ht hv =
    let fit = (validate_ranges-ok ranges (some info.virtual_size) ordered hv).1 in
    let ends : (m : ℕ) → n ≤ m → AllEnd m ordered = λ m hm.
      AllReadable-AllEnd m ordered
        (RangesFit-AllReadable true zero_ℤ n m ordered hm (rw (← hs) fit)) in
    let (b, built, applied) =
      apply_delta_bundle-build sha256 source target ranges ordered info n hs hn hv in
    (
      b,
      built,
      rw applied (
          get_elem?-patch source target ordered i (ends (length source) hn)
            (ends (length target) ht)),
    )

-- Lists with the same elements are the same.
same_elements : (xs ys : Bytes) → ((i : ℕ) → get_elem? xs i ≡ get_elem? ys i) → xs ≡ ys
same_elements [] [] h = refl
same_elements [] (y ∷ ys) h = ground (arith, h 0)
same_elements (x ∷ xs) [] h = ground (arith, h 0)
same_elements (x ∷ xs) (y ∷ ys) h =
    let head : x ≡ y = ground (arith, h 0) in
    let tail = same_elements xs ys (λ i. h (suc i)) in rw head (ap (λ r. y ∷ r) tail)

same_patch :
    (source target : Bytes) (rs : List ChangedRange)
    → AllEnd (length source) rs
    → AllEnd (length target) rs
    → ((i : ℕ) → covered rs i ≡ false → get_elem? target i ≡ get_elem? source i)
    → patch source rs target ≡ source
same_patch source target rs hs ht h = same_elements (patch source rs target) source λ i.
    elim (Bool-cases (covered rs i)) [
      | inl e ↦ ground (arith, get_elem?-patch source target rs i hs ht)
      | inr e ↦ ground (arith, get_elem?-patch source target rs i hs ht, h i e)
    ]

-- Where the ranges pass `validate_ranges` for the disk's size, source and target have at least
-- that size, and the target differs from the source in the ranges only, `build_bundle_from_raw`
-- returns a bundle, and `apply_delta_bundle` makes the target the source.
pub apply_delta_bundle-source :
    (sha256 : Bytes → String) (source target : Bytes) (ranges ordered : List ChangedRange)
    (info : BundleInfo) (n : ℕ)
    → info.virtual_size ≡ pos n
    → n ≤ length source
    → n ≤ length target
    → validate_ranges ranges (some info.virtual_size) ≡ ok ordered
    → ((i : ℕ) → covered ordered i ≡ false → get_elem? target i ≡ get_elem? source i)
    → (b : Fields × Bytes) × (build_bundle_from_raw sha256 source ranges info ≡ ok b)
      × (apply_delta_bundle sha256 b.0 b.1 target
          ≡ (ok (length ordered, total_size ordered), source))
apply_delta_bundle-source sha256 source target ranges ordered info n hs hn ht hv same =
    let fit = (validate_ranges-ok ranges (some info.virtual_size) ordered hv).1 in
    let ends : (m : ℕ) → n ≤ m → AllEnd m ordered = λ m hm.
      AllReadable-AllEnd m ordered
        (RangesFit-AllReadable true zero_ℤ n m ordered hm (rw (← hs) fit)) in
    let (b, built, applied) =
      apply_delta_bundle-build sha256 source target ranges ordered info n hs hn hv in
    let whole =
      same_patch source target ordered (ends (length source) hn) (ends (length target) ht) same in
    (b, built, applied ∙ rw whole refl)
