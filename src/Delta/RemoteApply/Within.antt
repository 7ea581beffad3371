-- ===== src/Delta/RemoteApply/Within.antt =====
-- controller/remote_apply_delta.py: the applier on the host and the size of the disk.
use hv2pve.Prelude.{
  ℕ, zero, suc, ◌+◌, ◌-◌, ◌≤◌, min, String, ◌≡◌, refl, ap, ◌∙◌, Bool, true, false, none, List, [],
  ◌∷◌, ◌++◌, arith,
}
use hv2pve.Prelude.Lists.{length, drop, get_elem?, length-take}
use hv2pve.Exec.{Error, system_exit, Result, ok, err}
use hv2pve.Delta.Bytes.{Bytes, read_at, overlay, pwrite}
use hv2pve.Delta.Copy.{chunk_size, copy_range}
use hv2pve.Exec.Keeps.{Keeps, Keeps-pure, Keeps-bind, Keeps-lift_bind, keeps_rules}
use hv2pve.Json.{Fields, size}
use hv2pve.Delta.Range.{zero_ℤ}
use hv2pve.Delta.Apply.{number_of, seek}
use hv2pve.Delta.RemoteApply.{check_entry, write_place, write_entry, write_entries, remote_apply}
use hv2pve.Prelude.Int.{ℤ, pos, negsuc, pos_part, ◌+ℤ◌, +ℤ_parts}

none_beyond : (xs : Bytes) (i : ℕ) → length xs ≤ i → get_elem? xs i ≡ none
none_beyond [] i h = refl
none_beyond (x ∷ xs) zero h = absurd (omega arith)
none_beyond (x ∷ xs) (suc i) h = none_beyond xs i (omega arith)

overlay_beyond :
    (block file : Bytes) (i : ℕ)
    → length block ≤ i
    → get_elem? (overlay block file) i ≡ get_elem? file i
unfolding overlay
overlay_beyond [] file i h = refl
overlay_beyond (b ∷ block) [] zero h = absurd (omega arith)
overlay_beyond (b ∷ block) [] (suc i) h = none_beyond block i (omega arith)
overlay_beyond (b ∷ block) (x ∷ file) zero h = absurd (omega arith)
overlay_beyond (b ∷ block) (x ∷ file) (suc i) h = overlay_beyond block file i (omega arith)

pwrite_beyond :
    (file block : Bytes) (offset i : ℕ)
    → offset + length block ≤ i
    → get_elem? (pwrite file block offset) i ≡ get_elem? file i
unfolding pwrite
pwrite_beyond file block zero i h = overlay_beyond block file i (omega arith)
pwrite_beyond [] block (suc offset) zero h = absurd (omega arith)
pwrite_beyond [] block (suc offset) (suc i) h = pwrite_beyond [] block offset i (omega arith)
pwrite_beyond (x ∷ file) block (suc offset) zero h = absurd (omega arith)
pwrite_beyond (x ∷ file) block (suc offset) (suc i) h =
    pwrite_beyond file block offset i (omega arith)

-- A target that is as it was from a place on.
pub record SameFrom (n : ℕ) (before after : Bytes) : Type 0 where
  pub at : (i : ℕ) → n ≤ i → get_elem? after i ≡ get_elem? before i

module _ (n : ℕ) (before : Bytes) where
  pwrite-SameFrom :
      (file block : Bytes) (dest : ℕ)
      → dest + length block ≤ n
      → SameFrom n before file
      → SameFrom n before (pwrite file block dest)
  pwrite-SameFrom file block dest fits h = record {
    at = λ i le. pwrite_beyond file block dest i (omega arith) ∙ h.at i le;
  }

  copied :
      (fuel chunk : ℕ) (ended : Error) (payload : Bytes) (start remaining dest : ℕ)
      (hashed file : Bytes)
      → dest + remaining ≤ n
      → SameFrom n before file
      → SameFrom n before (copy_range fuel chunk ended payload start remaining dest hashed file).1
  unfolding copy_range
  copied zero chunk ended payload start remaining dest hashed file fits h = h
  copied (suc fuel) chunk ended payload start remaining dest hashed file fits h =
      let block = read_at payload start (min chunk remaining) in
      let short : length block ≤ remaining =
        omega (arith, length-take (min chunk remaining) (drop start payload)) in
      let wrote = pwrite-SameFrom file block dest (omega arith) h in
      let rest =
        copied fuel chunk ended payload (start + length block) (remaining - length block)
          (dest + length block) (hashed ++ block) (pwrite file block dest) (omega arith) wrote in
      ground (arith, rest, h)

  copy_range-SameFrom :
      (fuel chunk : ℕ) (ended : Error) (payload : Bytes) (start remaining dest : ℕ) (hashed : Bytes)
      → dest + remaining ≤ n
      → Keeps (SameFrom n before) (copy_range fuel chunk ended payload start remaining dest hashed)
  copy_range-SameFrom fuel chunk ended payload start remaining dest hashed fits = record {
    at = λ file h. copied fuel chunk ended payload start remaining dest hashed file fits h;
  }

-- The disk's size by its metadata; without one no byte may be written.
abbrev pub size_limit : Result ℤ → ℕ
size_limit (ok size) = pos_part size
size_limit (err e) = 0

module _ (sha256 : Bytes → String) (virtual_size : Result ℤ) where
  check_entry-within :
      (first : Bool) (previous_end offset size : ℤ) (dest : ℕ)
      → offset ≡ pos dest
      → check_entry sha256 virtual_size first previous_end offset size ≡ ok tt
      → dest + pos_part size ≤ size_limit virtual_size
  unfolding check_entry
  check_entry-within first previous_end offset size dest e h = go virtual_size h
    where
      go :
          (v : Result ℤ)
          → check_entry sha256 v first previous_end offset size ≡ ok tt
          → dest + pos_part size ≤ size_limit v
      go (ok total) h = ground (arith, +ℤ_parts offset size, e)
      go (err e) h = absurd (ground arith)

  write_place-ok :
      (block : Bytes) (offset : ℤ) (dest : ℕ)
      → write_place sha256 virtual_size block offset ≡ ok dest
      → offset ≡ pos dest
  write_place-ok block (pos n) dest h = let same : n ≡ dest = cc in ap pos same
  write_place-ok [] (negsuc n) dest h = absurd (ground arith)
  write_place-ok (b ∷ block) (negsuc n) dest h = absurd (ground arith)

  module _ (before : Bytes) where
    abbrev Kept : Bytes → Type 0
    Kept = SameFrom (size_limit virtual_size) before

    write_entry-Kept :
        (chunk : ℕ) (payload : Bytes) (first : Bool) (previous_end offset size : ℤ) (entry : Fields)
        → check_entry sha256 virtual_size first previous_end offset size ≡ ok tt
        → Keeps Kept (write_entry sha256 virtual_size chunk payload offset size entry)
    unfolding write_entry
    write_entry-Kept chunk payload first previous_end offset size entry tested =
        Keeps-lift_bind (number_of "payload_offset" entry) _ λ payload_offset e1.
          Keeps-lift_bind (seek payload_offset) _ λ start e2.
            Keeps-lift_bind (write_place sha256 virtual_size (read_at payload start 1) offset) _
              λ dest e3.
                let within =
                  check_entry-within first previous_end offset size dest
                    (write_place-ok (read_at payload start 1) offset dest e3) tested in
                let kept =
                  copy_range-SameFrom (size_limit virtual_size) before (pos_part size) chunk
                    (system_exit "payload ended early") payload start (pos_part size) dest []
                    within in
                Keeps-bind _ _ kept λ block. search keeps_rules depth 10

    write_entries-Kept :
        (chunk : ℕ) (payload : Bytes) (first : Bool) (previous_end : ℤ)
        (entries : List (ℤ × Fields))
        → Keeps Kept (write_entries sha256 virtual_size chunk payload first previous_end entries)
    unfolding write_entries
    write_entries-Kept chunk payload first previous_end [] = Keeps-pure 0
    write_entries-Kept chunk payload first previous_end ((offset, entry) ∷ rest) =
        Keeps-lift_bind (number_of "length" entry) _ λ size e1.
          Keeps-lift_bind (check_entry sha256 virtual_size first previous_end offset size) _ λ u e2.
            let one = write_entry-Kept chunk payload first previous_end offset size entry e2 in
            let others = write_entries-Kept chunk payload false (offset +ℤ size) rest in
            search (keeps_rules, one, others) depth 10

-- Whatever the metadata and the payload, and whether it returns or raises, the applier on the host
-- changes no byte from the metadata's `virtual_size` on; if that is missing, is no number or is
-- negative, it changes no byte at all.
pub remote_apply-SameFrom :
    (sha256 : Bytes → String) (meta : Fields) (payload target : Bytes) (i : ℕ)
    → size_limit (number_of "virtual_size" meta) ≤ i
    → get_elem? (remote_apply sha256 meta payload target).1 i ≡ get_elem? target i
unfolding remote_apply
remote_apply-SameFrom sha256 meta payload target i h =
    let loop =
      write_entries-Kept sha256 (number_of "virtual_size" meta) target chunk_size payload true
        zero_ℤ in
    let kept : Keeps (Kept sha256 (number_of "virtual_size" meta) target)
        (remote_apply sha256 meta payload) =
      search (keeps_rules, loop) depth 10 in
    (kept.at target (record { at = λ j le. refl })).at i h
