-- ===== src/Protocol/Chunk.antt =====
-- Chunks of file contents of firmware/components/accessport_protocol/revlink_accessport_protocol.c: a short
-- prefix with a 24-bit length, the payload, and a checksum.
use revlink_sidecar.Base.{
  ℕ, ◌+◌, ◌-◌, ltb, ◌==◌, not, if◌then◌else◌, Bool, ◌||◌, Option, none, some, List, [], ◌∷◌, take,
  drop, write_at,
}
use revlink_sidecar.Protocol.{
  ApStatus, ok, invalid_argument, buffer_too_small, record_too_large, invalid_frame,
  invalid_checksum, chunk_prefix_size, checksum_size, max_chunk_payload, Slice, bytes_of,
  is_missing, is_null, checked_add, byte, u24_be, u32_be, of_u24_be,
}
use revlink_sidecar.Protocol.Record.{zero_trailer, jamcrc_zeroed_trailer, Built, stopped}
use revlink_sidecar.Protocol.Parse.{checksum_holds}

unfoldable pub prefix_buffer : ℕ → ℕ → List ℕ → List ℕ
prefix_buffer payload_length direction_flag output =
    let b1 = write_at 0 (0x02 ∷ []) output in
    let b2 = write_at 1 (0x00 ∷ []) b1 in
    let b3 = write_at 2 (u24_be (payload_length + checksum_size)) b2 in
    let b4 = write_at 5 (0x00 ∷ []) b3 in write_at 6 (direction_flag ∷ []) b4

unfoldable pub build_chunk_prefix : ℕ → ℕ → Option (List ℕ) → ApStatus × Option (List ℕ)
build_chunk_prefix payload_length direction_flag none = (invalid_argument, none)
build_chunk_prefix payload_length direction_flag (some output) =
    if ltb max_chunk_payload payload_length
    then (record_too_large, some output)
    else (ok, some (prefix_buffer payload_length direction_flag output))

-- The `memcpy` of the payload behind the prefix.
abbrev pub copy_payload : Slice → List ℕ → List ℕ
copy_payload payload prefixed =
    if ltb 0 payload.len
    then write_at chunk_prefix_size (take payload.len (bytes_of payload.bytes)) prefixed
    else prefixed

-- The checksum over zeros, and the checksum in their place.
unfoldable pub store_checksum : ℕ → List ℕ → List ℕ
store_checksum total zeroed =
    write_at (total - checksum_size) (u32_be (jamcrc_zeroed_trailer (some zeroed) total)) zeroed

unfoldable pub chunk_buffer : Slice → ℕ → List ℕ → List ℕ
chunk_buffer payload total prefixed =
    store_checksum total
      (write_at (chunk_prefix_size + payload.len) zero_trailer (copy_payload payload prefixed))

-- The rest of `revlink_ap_build_chunk`, after the prefix.
abbrev pub finish_chunk : Slice → ℕ → ApStatus × Option (List ℕ) → Built
finish_chunk payload total (ok, some prefixed) = record {
  status = ok;
  output = some (chunk_buffer payload total prefixed);
  output_length = some total;
}
finish_chunk payload total (status, output) = stopped status output

unfoldable pub build_chunk : Slice → ℕ → Option (List ℕ) → ℕ → Bool → Built
build_chunk payload direction_flag output capacity has_length =
    if is_missing payload || is_null output || not has_length
    then stopped invalid_argument output
    else if ltb max_chunk_payload payload.len
    then stopped record_too_large output
    else elim (checked_add (chunk_prefix_size + checksum_size) payload.len) [
      | none ↦ stopped record_too_large output
      | some total ↦
          if ltb capacity total
          then stopped buffer_too_small output
          else finish_chunk payload total (build_chunk_prefix payload.len direction_flag output)
    ]

-- The marker, the zeros and the two lengths of a chunk; `true` is a violation.
unfoldable pub bad_chunk : List ℕ → ℕ → Bool
bad_chunk c len =
    ltb len (chunk_prefix_size + checksum_size)
    || not (byte c 0 == 0x02)
    || not (byte c 1 == 0x00)
    || not (byte c 5 == 0x00)
    || not (of_u24_be (drop 2 c) + chunk_prefix_size == len)

unfoldable pub validate_chunk : Option (List ℕ) → ℕ → ApStatus
validate_chunk none len = invalid_argument
validate_chunk (some c) len =
    if bad_chunk c len then invalid_frame else if checksum_holds c len then ok else invalid_checksum
