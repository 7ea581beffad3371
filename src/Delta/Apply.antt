-- ===== src/Delta/Apply.antt =====
-- controller/delta.py: `apply_delta_bundle`. The state is the target; SHA-256 is a parameter.
use hv2pve.Prelude.{ℕ, ◌+◌, String, not, none, some, List, [], ◌∷◌, map, str_eq, if◌then◌else◌}
use hv2pve.Prelude.Lists.{length}
use hv2pve.Prelude.Int.{ℤ, pos, negsuc, pos_part}
use hv2pve.Json.{
  Value, obj, arr, str, int, bool, null, Fields, end, field, Items, nil, cons, find, or_else, get,
  truthy, int_eq,
}
use hv2pve.Json.Number.{to_int}
use hv2pve.Exec.{
  Error, value_error, type_error, attribute_error, Result, ok, err, and_then, Exec, Done, pure,
  lift, ◌>>=◌, ◌>>◌,
}
use hv2pve.Text.{is_empty, lower}
use hv2pve.State.Payload.{as_fields, item}
use hv2pve.Delta.Range.{ChangedRange, validate_ranges}
use hv2pve.Delta.Bytes.{Bytes}
use hv2pve.Delta.Copy.{chunk_size, copy_range}

-- A value that `.lower()` is called on.
abbrev pub as_text : Value → Result String
as_text (str s) = ok s
as_text _ = err (attribute_error "lower")

-- The number of a range's field, `int(x[k])`.
abbrev pub number_of : String → Fields → Result ℤ
number_of k x = and_then (item k x) to_int

-- `for x in v`: an empty text and an empty dict have no elements, those of others are texts, which
-- the loops refuse.
unfoldable pub iterated : Value → Result Items
iterated (arr vs) = ok vs
iterated (str s) = if is_empty s then ok nil else err (type_error "string indices must be integers")
iterated (obj end) = ok nil
iterated (obj (field k v d)) = err (type_error "string indices must be integers")
iterated null = err (type_error "object is not iterable")
iterated (bool b) = err (type_error "object is not iterable")
iterated (int n) = err (type_error "object is not iterable")

-- `[ChangedRange(int(x["offset"]), int(x["length"])) for x in meta["ranges"]]`, beside the dicts.
unfoldable pub read_ranges : Items → Result (List (ChangedRange × Fields))
unfolding as_fields to_int
read_ranges nil = ok []
read_ranges (cons v vs) = and_then (as_fields v) λ x. and_then (number_of "offset" x) λ offset.
    and_then (number_of "length" x) λ length.
      and_then (read_ranges vs) λ rest. ok ((record { offset = offset; length = length }, x) ∷ rest)

-- `zip(ranges, meta["ranges"], strict=True)`
unfoldable pub zip_strict : List ChangedRange → List Fields → Result (List (ChangedRange × Fields))
zip_strict [] [] = ok []
zip_strict [] (x ∷ xs) = err (value_error "zip() arguments differ in length")
zip_strict (r ∷ rs) [] = err (value_error "zip() arguments differ in length")
zip_strict (r ∷ rs) (x ∷ xs) = and_then (zip_strict rs xs) λ rest. ok ((r, x) ∷ rest)

-- `payload.seek(n)`
abbrev pub seek : ℤ → Result ℕ
seek (pos n) = ok n
seek (negsuc n) = err (value_error "negative seek value")

module _ (sha256 : Bytes → String) where
  -- `expected and hexdigest().lower() != expected.lower()` raises.
  unfoldable pub check_hash : Value → Bytes → Error → Result Done
  check_hash expected bytes mismatch =
      if not (truthy expected)
      then ok tt
      else and_then (as_text expected)
          λ e. if str_eq (lower (sha256 bytes)) (lower e) then ok tt else err mismatch

  -- One round of the loop: the bytes of the payload go to the range.
  unfoldable pub apply_range : ℕ → Bytes → ChangedRange × Fields → Exec Bytes ℕ
  unfolding to_int
  apply_range chunk payload (r, entry) = do
    offset ← lift (number_of "payload_offset" entry)
    start ← lift (seek offset)
    block ←
        copy_range (pos_part r.length) chunk
          (value_error "delta payload ended before range data completed") payload start
          (pos_part r.length) (pos_part r.offset) []
    lift (check_hash (get "sha256" entry) block (value_error "range checksum mismatch"))
    pure (length block)

  unfoldable pub apply_ranges : ℕ → Bytes → List (ChangedRange × Fields) → Exec Bytes ℕ
  unfolding apply_range
  apply_ranges chunk payload [] = pure 0
  apply_ranges chunk payload (x ∷ xs) = do
    n ← apply_range chunk payload x
    m ← apply_ranges chunk payload xs
    pure (n + m)

  -- The tests before the target is opened: the pairs of the loop, and what is reported of them.
  unfoldable pub check_bundle : Fields → Bytes → Result (List (ChangedRange × Fields))
  unfolding check_hash read_ranges validate_ranges zip_strict to_int iterated truthy
  check_bundle meta payload =
      and_then (to_int (or_else (find "format_version" meta) (int (pos 0)))) λ version.
        if not (int_eq version (pos 1))
        then err (value_error "unsupported delta bundle format")
        else and_then
            (check_hash (get "payload_sha256" meta) payload
              (value_error "delta payload SHA-256 mismatch"))
            λ _. and_then (item "ranges" meta) λ v. and_then (iterated v) λ items.
              and_then (read_ranges items) λ given.
                and_then (to_int (or_else (find "virtual_size" meta) (int (pos 0)))) λ size.
                  and_then
                    (validate_ranges (map (λ p. p.0) given)
                      (if truthy (int size) then some size else none))
                    λ ordered. zip_strict ordered (map (λ p. p.1) given)

  -- The number of ranges and of bytes written; the rest of the report is copied from the metadata.
  unfoldable pub apply_delta_bundle : Fields → Bytes → Exec Bytes (ℕ × ℕ)
  unfolding check_bundle apply_ranges copy_range
  apply_delta_bundle meta payload = do
    pairs ← lift (check_bundle meta payload)
    written ← apply_ranges chunk_size payload pairs
    pure (length pairs, written)
