-- ===== src/Delta/Copy/Laws.antt =====
-- The chunked loops of controller/delta.py and controller/remote_apply_delta.py, beside one read and
-- one write.
use hv2pve.Prelude.{ℕ, zero, suc, ◌+◌, ◌-◌, ◌≤◌, ◌<◌, min, ◌≡◌, refl, ap, ◌∙◌, ◌++◌, arith}
use hv2pve.Prelude.Lists.{length}
use hv2pve.Exec.{Error, ok}
use hv2pve.Delta.Bytes.{Bytes, read_at, pwrite, pwrite-append, read_at-append, length-read_at}
use hv2pve.Delta.Copy.{read_range, copy_range}
use native.Mathlib.Decide.{dec_lt}
use mathlib.Core.List.{append-nil, append_assoc}

-- The first block and the rest are the whole.
split_block :
    (file : Bytes) (at m remaining : ℕ)
    → m ≤ remaining
    → read_at file at m ++ read_at file (at + m) (remaining - m) ≡ read_at file at remaining
split_block file at m remaining h =
    let e : m + (remaining - m) ≡ remaining = omega arith in
    read_at-append file at m (remaining - m) ∙ ap (read_at file at) e

module _ (chunk : ℕ) (hc : 0 < chunk) where
  module _ (source : Bytes) where
    -- The chunked read of a range that the source holds returns its bytes behind those read
    -- before, with fuel for every byte of it, whatever the chunk's size above zero.
    pub read_range_lem :
        (fuel at remaining : ℕ) (done : Bytes)
        → remaining ≤ fuel
        → at + remaining ≤ length source
        → read_range fuel chunk source at remaining done ≡ ok (done ++ read_at source at remaining)
    unfolding read_range
    read_range_lem zero at zero done hf h = rw append-nil
    read_range_lem (suc fuel) at zero done hf h = rw append-nil
    read_range_lem zero at (suc remaining) done hf h = absurd (omega arith)
    read_range_lem (suc fuel) at (suc remaining) done hf h =
        let m = min chunk (suc remaining) in
        let len = length-read_at source at m (omega arith) in
        let ih =
          read_range_lem fuel (at + m) (suc remaining - m) (done ++ read_at source at m)
            (omega arith) (omega arith) in
        let whole = split_block source at m (suc remaining) (omega arith) in
        ground (
          arith,
          len,
          ih,
          whole,
          append_assoc done (read_at source at m) (read_at source (at + m) (suc remaining - m)),
        )

  module _ (ended : Error) (payload : Bytes) where
    copy_range_done :
        (fuel at dest : ℕ) (hashed target : Bytes)
        → copy_range fuel chunk ended payload at 0 dest hashed target ≡ (ok hashed, target)
    unfolding copy_range
    copy_range_done zero at dest hashed target = refl
    copy_range_done (suc fuel) at dest hashed target = refl

    -- The chunked copy of a range that is not empty and that the payload holds writes it as one
    -- block would, and returns its bytes behind those hashed before, with fuel for every byte of
    -- it, whatever the chunk's size above zero.
    pub copy_range_lem :
        (fuel at remaining dest : ℕ) (hashed target : Bytes)
        → 0 < remaining
        → remaining ≤ fuel
        → at + remaining ≤ length payload
        → copy_range fuel chunk ended payload at remaining dest hashed target ≡ (
          ok (hashed ++ read_at payload at remaining),
          pwrite target (read_at payload at remaining) dest,
        )
    unfolding copy_range
    copy_range_lem zero at remaining dest hashed target hr hf h = absurd (omega arith)
    copy_range_lem (suc fuel) at remaining dest hashed target hr hf h =
        let m = min chunk remaining in
        let len = length-read_at payload at m (omega arith) in
        elim (dec_lt 0 (remaining - m)) [
          | yes more ↦
              let ih =
                copy_range_lem fuel (at + m) (remaining - m) (dest + m)
                  (hashed ++ read_at payload at m) (pwrite target (read_at payload at m) dest) more
                  (omega arith) (omega arith) in
              let whole = split_block payload at m remaining (omega arith) in
              let two =
                pwrite-append target (read_at payload at m)
                  (read_at payload (at + m) (remaining - m)) dest in
              ground (
                arith,
                len,
                ih,
                whole,
                two,
                append_assoc hashed (read_at payload at m)
                    (read_at payload (at + m) (remaining - m)),
              )
          | no last ↦ ground (
            arith,
            len,
            copy_range_done fuel (at + m) (dest + m) (hashed ++ read_at payload at m)
                (pwrite target (read_at payload at m) dest),
          )
        ]
