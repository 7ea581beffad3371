-- ===== src/Delta/RemoteApply.antt =====
-- controller/remote_apply_delta.py: the standalone writer on the Proxmox host.
pub mod Laws
pub mod Within
use hv2pve.Prelude.{
  ℕ, ◌+◌, String, Bool, true, false, ◌&&◌, ◌||◌, not, List, [], ◌∷◌, str_eq, if◌then◌else◌,
}
use hv2pve.Prelude.Lists.{length}
use hv2pve.Prelude.Int.{ℤ, pos, negsuc, pos_part, ◌+ℤ◌, ltb_ℤ, leb_ℤ}
use hv2pve.Json.{int, Fields, Items, nil, cons, find, or_else, size, int_eq}
use hv2pve.Json.Number.{to_int}
use hv2pve.Json.Render.{to_text}
use hv2pve.Exec.{
  os_error, system_exit, Result, ok, err, and_then, Exec, Done, pure, lift, require, ◌>>=◌, ◌>>◌,
}
use hv2pve.Text.{lower}
use hv2pve.State.Payload.{as_fields, item}
use hv2pve.Delta.Range.{sort_by, zero_ℤ}
use hv2pve.Delta.Bytes.{Bytes, read_at}
use hv2pve.Delta.Copy.{chunk_size, copy_range}
use hv2pve.Delta.Apply.{number_of, iterated, seek}

-- The key of `sorted(meta["ranges"], key=lambda x: int(x["offset"]))`, taken of every entry.
unfoldable pub keyed : Items → Result (List (ℤ × Fields))
unfolding as_fields to_int
keyed nil = ok []
keyed (cons v vs) = and_then (as_fields v) λ x.
    and_then (number_of "offset" x) λ offset. and_then (keyed vs) λ rest. ok ((offset, x) ∷ rest)

abbrev pub key_of : ℤ × Fields → ℤ
key_of (offset, x) = offset

module _ (sha256 : Bytes → String) (virtual_size : Result ℤ) where
  -- The tests of one round; `first` is `i == 0`.
  unfoldable pub check_entry : Bool → ℤ → ℤ → ℤ → Result Done
  check_entry first previous_end offset length =
      if leb_ℤ length zero_ℤ || not first && ltb_ℤ offset previous_end
      then err (system_exit "invalid or overlapping changed ranges")
      else and_then virtual_size λ size.
        if ltb_ℤ size (offset +ℤ length)
        then err (system_exit "changed range exceeds virtual size")
        else ok tt

  -- `os.pwrite` refuses a negative offset, once there is a block to write.
  abbrev pub write_place : Bytes → ℤ → Result ℕ
  write_place block (pos n) = ok n
  write_place [] (negsuc n) = err (system_exit "payload ended early")
  write_place (b ∷ block) (negsuc n) = err (os_error "Invalid argument")

  unfoldable pub write_entry : ℕ → Bytes → ℤ → ℤ → Fields → Exec Bytes ℕ
  unfolding to_int to_text
  write_entry chunk payload offset size entry = do
    payload_offset ← lift (number_of "payload_offset" entry)
    start ← lift (seek payload_offset)
    dest ← lift (write_place (read_at payload start 1) offset)
    block ←
        copy_range (pos_part size) chunk (system_exit "payload ended early") payload start
          (pos_part size) dest []
    expected ← lift (item "sha256" entry)
    require (str_eq (sha256 block) (lower (to_text expected)))
        (system_exit "range checksum mismatch")
    pure (length block)

  -- The loop: each range is tested when its turn comes, and then written.
  unfoldable pub write_entries : ℕ → Bytes → Bool → ℤ → List (ℤ × Fields) → Exec Bytes ℕ
  unfolding check_entry write_entry
  write_entries chunk payload first previous_end [] = pure 0
  write_entries chunk payload first previous_end ((offset, entry) ∷ rest) = do
    size ← lift (number_of "length" entry)
    lift (check_entry first previous_end offset size)
    n ← write_entry chunk payload offset size entry
    m ← write_entries chunk payload false (offset +ℤ size) rest
    pure (n + m)

module _ (sha256 : Bytes → String) where
  -- The tests before the target is opened.
  unfoldable pub check_remote : Fields → Bytes → Result (List (ℤ × Fields))
  unfolding keyed sort_by to_int to_text iterated
  check_remote meta payload =
      and_then (to_int (or_else (find "format_version" meta) (int (pos 0)))) λ version.
        if not (int_eq version (pos 1))
        then err (system_exit "unsupported delta bundle format")
        else and_then (item "payload_sha256" meta) λ expected.
          if not (str_eq (sha256 payload) (lower (to_text expected)))
          then err (system_exit "payload checksum mismatch")
          else and_then (item "ranges" meta) λ v.
            and_then (iterated v) λ items. and_then (keyed items) λ given. ok (sort_by key_of given)

  unfoldable pub remote_apply : Fields → Bytes → Exec Bytes (ℕ × ℕ)
  unfolding check_remote write_entries copy_range
  remote_apply meta payload = do
    ranges ← lift (check_remote meta payload)
    written ←
        write_entries sha256 (number_of "virtual_size" meta) chunk_size payload true zero_ℤ ranges
    pure (length ranges, written)
