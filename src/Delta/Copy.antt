-- ===== src/Delta/Copy.antt =====
-- The chunked loops of a bundle: `while remaining: block = read(min(CHUNK, remaining)) …`, on fuel:
-- a caller gives one unit for each byte of the range.
pub mod Laws
use hv2pve.Prelude.{ℕ, zero, suc, ◌+◌, ◌-◌, min, ◌++◌, ◌==◌, if◌then◌else◌}
use hv2pve.Prelude.Lists.{length}
use hv2pve.Exec.{Error, value_error, runtime_error, Result, ok, err, Exec}
use hv2pve.Delta.Bytes.{Bytes, read_at, pwrite}

-- `CHUNK_SIZE`, and `CHUNK` of the remote script.
abbrev pub chunk_size : ℕ
chunk_size = 4194304

abbrev pub out_of_fuel : Error
out_of_fuel = runtime_error "out of fuel"

-- The loop of `build_bundle_from_raw` for one range: the bytes that it reads from `at` on.
unfoldable pub read_range : ℕ → ℕ → Bytes → ℕ → ℕ → Bytes → Result Bytes
read_range zero chunk source at remaining done = if remaining == 0 then ok done else err out_of_fuel
read_range (suc fuel) chunk source at remaining done =
    let block = read_at source at (min chunk remaining) in
    let rest =
      read_range fuel chunk source (at + length block) (remaining - length block) (done ++ block) in
    if remaining == 0
    then ok done
    else if length block == 0
    then err (value_error "source ended before requested changed range")
    else rest

-- The loop of both appliers for one range: the bytes that were hashed, and the target. `ended` is
-- the error of a payload that is too short; what was written before it stays written.
unfoldable pub copy_range : ℕ → ℕ → Error → Bytes → ℕ → ℕ → ℕ → Bytes → Exec Bytes Bytes
copy_range zero chunk ended payload at remaining dest hashed target =
    (if remaining == 0 then ok hashed else err out_of_fuel, target)
copy_range (suc fuel) chunk ended payload at remaining dest hashed target =
    let block = read_at payload at (min chunk remaining) in
    let rest =
      copy_range fuel chunk ended payload (at + length block) (remaining - length block)
        (dest + length block) (hashed ++ block) (pwrite target block dest) in
    if remaining == 0
    then (ok hashed, target)
    else if length block == 0
    then (err ended, target)
    else rest
