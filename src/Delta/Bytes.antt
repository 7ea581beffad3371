-- ===== src/Delta/Bytes.antt =====
-- Byte strings, files of bytes, and the calls that read and write them.
use hv2pve.Prelude.{
  ℕ, zero, suc, ◌+◌, ◌≤◌, ◌≡◌, refl, ap, List, [], ◌∷◌, ◌++◌, arith, zero-add, suc-add,
}
use hv2pve.Prelude.Lists.{length, take, drop, length-take, length-drop, drop-drop, take-add}

abbrev pub Bytes : Type 0
Bytes = List ℕ

-- A file opened for reading: `seek(at)` and `read(n)`.
abbrev pub read_at : Bytes → ℕ → ℕ → Bytes
read_at file at n = take n (drop at file)

unfoldable pub overlay : Bytes → Bytes → Bytes
overlay [] file = file
overlay (b ∷ block) [] = b ∷ block
overlay (b ∷ block) (x ∷ file) = b ∷ overlay block file

-- `os.pwrite(fd, block, offset)`: a write past the end fills the gap with zeros.
unfoldable pub pwrite : Bytes → Bytes → ℕ → Bytes
unfolding overlay
pwrite file block zero = overlay block file
pwrite [] block (suc offset) = 0 ∷ pwrite [] block offset
pwrite (x ∷ file) block (suc offset) = x ∷ pwrite file block offset

pwrite_at_end : (file block : Bytes) → pwrite file block (length file) ≡ file ++ block
unfolding pwrite
pwrite_at_end [] [] = refl
pwrite_at_end [] (b ∷ block) = refl
pwrite_at_end (x ∷ file) block = ap (λ r. x ∷ r) (pwrite_at_end file block)

-- Two writes, one behind the other, are one.
overlay-append : (a b file : Bytes) → pwrite (overlay a file) b (length a) ≡ overlay (a ++ b) file
unfolding pwrite
overlay-append [] b file = refl
overlay-append (x ∷ a) b [] = ap (λ r. x ∷ r) (pwrite_at_end a b)
overlay-append (x ∷ a) b (y ∷ file) = ap (λ r. x ∷ r) (overlay-append a b file)

pub pwrite-append :
    (file a b : Bytes) (offset : ℕ)
    → pwrite (pwrite file a offset) b (offset + length a) ≡ pwrite file (a ++ b) offset
unfolding pwrite
pwrite-append file a b zero = rw zero-add (overlay-append a b file)
pwrite-append [] a b (suc offset) = rw suc-add (ap (λ r. 0 ∷ r) (pwrite-append [] a b offset))
pwrite-append (x ∷ file) a b (suc offset) =
    rw suc-add (ap (λ r. x ∷ r) (pwrite-append file a b offset))

-- Reading on from where a read ended.
pub read_at-append :
    (file : Bytes) (at m n : ℕ)
    → read_at file at m ++ read_at file (at + m) n ≡ read_at file at (m + n)
read_at-append file at m n = rw (← drop-drop at m file) (take-add m n (drop at file))

pub length-read_at :
    (file : Bytes) (at n : ℕ) → at + n ≤ length file → length (read_at file at n) ≡ n
length-read_at file at n h = omega (arith, length-take n (drop at file), length-drop at file)
