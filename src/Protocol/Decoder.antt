-- ===== src/Protocol/Decoder.antt =====
-- The decoder of a download of firmware/components/accessport_protocol/revlink_accessport_protocol.c: the
-- answer of the device, then one chunk with the file, which goes to a sink as it arrives.
use revlink_sidecar.Base.{
  ℕ, zero, suc, ◌+◌, ◌-◌, ◌%◌, ◌^◌, min, ltb, leb, ◌==◌, not, if◌then◌else◌, Bool, true, false,
  ◌||◌, ◌&&◌, Option, none, some, List, [], ◌∷◌, ◌++◌, length, take, drop, mem_eq, uint32_max,
}
use revlink_sidecar.Crc.{crc32_update}
use revlink_sidecar.Protocol.{
  ApStatus, ok, invalid_argument, invalid_frame, invalid_checksum, sink_error, chunk_prefix_size,
  checksum_size, record_overhead, opcode_response, Slice, bytes_of, is_missing, byte, of_u16_be,
  of_u24_be, of_u32_be,
}
use revlink_sidecar.Protocol.Record.{zero_trailer}
use revlink_sidecar.Protocol.Parse.{RecordView, parse_record}

abbrev pub archive_capacity : ℕ
archive_capacity = 4096

abbrev pub download_chunk_flag : ℕ
download_chunk_flag = 0x01

pub data DecoderState : Type 0 where
  in_archive in_chunk_header in_payload in_trailer completed : DecoderState

-- A buffer and its `_size` are the list of the bytes that it holds so far.
pub record Decoder : Type 0 where
  pub state : DecoderState
  pub expected_payload_size : ℕ
  pub archive : List ℕ
  pub archive_target_size : ℕ
  pub chunk_header : List ℕ
  pub payload_size : ℕ
  pub payload_received : ℕ
  pub trailer : List ℕ
  pub chunk_crc : ℕ
  pub trailing_bytes : ℕ

unfoldable pub init : ℕ → Decoder
init expected_payload_size = record {
  state = in_archive;
  expected_payload_size = expected_payload_size;
  archive = [];
  archive_target_size = 0;
  chunk_header = [];
  payload_size = 0;
  payload_received = 0;
  trailer = [];
  chunk_crc = uint32_max;
  trailing_bytes = 0;
}

abbrev pub response_status : ApStatus × Option RecordView → ApStatus
response_status (ok, some v) = if v.opcode == opcode_response then ok else invalid_frame
response_status (status, _) = status

unfoldable pub validate_download_archive : Decoder → ApStatus
validate_download_archive d =
    response_status (parse_record (some d.archive) (length d.archive) true)

-- `size_t` subtraction, which wraps.
abbrev pub size_sub : ℕ → ℕ → ℕ
size_sub a b = (a + 2 ^ 32 - b) % 2 ^ 32

-- `needed` of the state's branch.
unfoldable pub needed : DecoderState → Decoder → ℕ
needed in_archive d =
    if ltb 0 d.archive_target_size
    then size_sub d.archive_target_size (length d.archive)
    else size_sub 5 (length d.archive)
needed in_chunk_header d = size_sub chunk_prefix_size (length d.chunk_header)
needed in_payload d = size_sub d.payload_size d.payload_received
needed in_trailer d = size_sub checksum_size (length d.trailer)
needed completed d = 0

-- How many of the available bytes the state takes. What comes after the end is only counted.
abbrev pub count_of : DecoderState → Decoder → ℕ → ℕ
count_of completed d available = available
count_of state d available = min (needed state d) available

abbrev pub close_archive : ApStatus → Decoder → ApStatus × Decoder
close_archive ok d = (ok, record d { state = in_chunk_header })
close_archive status d = (status, d)

abbrev pub bad_target : ℕ → Bool
bad_target target = ltb target record_overhead || ltb archive_capacity target

-- The record is whole once it has as many bytes as it declares.
abbrev pub check_archive : Decoder → ApStatus × Decoder
check_archive d =
    if ltb 0 d.archive_target_size && length d.archive == d.archive_target_size
    then close_archive (validate_download_archive d) d
    else (ok, d)

abbrev pub with_target : Decoder → Decoder
with_target d = record d { archive_target_size = of_u16_be (drop 3 d.archive) + 7 }

unfoldable pub read_archive : Decoder → ApStatus × Decoder
read_archive d =
    if leb 3 (length d.archive)
      && (not (byte d.archive 0 == 0x02)
          || not (byte d.archive 1 == 0x00)
          || not (byte d.archive 2 == 0x00))
    then (invalid_frame, d)
    else if length d.archive == 5 && d.archive_target_size == 0
    then if bad_target (with_target d).archive_target_size
      then (invalid_frame, with_target d)
      else check_archive (with_target d)
    else check_archive d

abbrev pub take_archive : Decoder → List ℕ → ApStatus × Decoder
take_archive d bs = read_archive (record d { archive = d.archive ++ bs })

abbrev pub bad_chunk_header : List ℕ → Bool
bad_chunk_header h =
    not (byte h 0 == 0x02)
    || not (byte h 1 == 0x00)
    || not (byte h 5 == 0x00)
    || not (byte h 6 == download_chunk_flag)
    || ltb (of_u24_be (drop 2 h)) checksum_size

unfoldable pub read_chunk_header : Decoder → ApStatus × Decoder
read_chunk_header d =
    let d' = record d { payload_size = of_u24_be (drop 2 d.chunk_header) - checksum_size } in
    if not (length d.chunk_header == chunk_prefix_size)
    then (ok, d)
    else if bad_chunk_header d.chunk_header
    then (invalid_frame, d)
    else if not (d'.payload_size == d.expected_payload_size)
    then (invalid_frame, d')
    else (ok, record d' { chunk_crc = crc32_update d.chunk_crc d.chunk_header; state = in_payload })

abbrev pub take_chunk_header : Decoder → List ℕ → ApStatus × Decoder
take_chunk_header d bs = read_chunk_header (record d { chunk_header = d.chunk_header ++ bs })

-- After the sink has taken the bytes.
unfoldable pub count_payload : Decoder → List ℕ → Decoder
count_payload d bs =
    let d' = record d {
      chunk_crc = crc32_update d.chunk_crc bs;
      payload_received = d.payload_received + length bs;
    } in
    if d'.payload_received == d.payload_size then record d' { state = in_trailer } else d'

unfoldable pub read_trailer : Decoder → ApStatus × Decoder
read_trailer d =
    let d' = record d { chunk_crc = crc32_update d.chunk_crc zero_trailer } in
    if not (length d.trailer == checksum_size)
    then (ok, d)
    else if not (mem_eq checksum_size d.trailer zero_trailer)
        && not (of_u32_be d.trailer == d'.chunk_crc)
    then (invalid_checksum, d')
    else (ok, record d' { state = completed })

abbrev pub take_trailer : Decoder → List ℕ → ApStatus × Decoder
take_trailer d bs = read_trailer (record d { trailer = d.trailer ++ bs })

-- What `revlink_ap_download_decoder_feed` leaves: its status, the decoder, the sink's context.
abbrev pub Fed : Type 0 → Type 0
Fed S = ApStatus × (Decoder × S)

abbrev pub fed : {S : Type 0} → ApStatus × Decoder → S → Fed S
fed (status, d) s = (status, (d, s))

abbrev pub go_on : {S : Type 0} → Fed S → (Decoder → S → Option (Fed S)) → Option (Fed S)
go_on (ok, (d, s)) f = f d s
go_on (status, x) f = some (status, x)

module _ {S : Type 0} (sink : List ℕ → S → Bool × S) where
  abbrev pub after_sink : Decoder → List ℕ → Bool × S → Fed S
  after_sink d bs (true, s) = (ok, (count_payload d bs, s))
  after_sink d bs (false, s) = (sink_error, (d, s))

  unfoldable pub take_payload : Decoder → List ℕ → S → Fed S
  take_payload d bs s =
      if ltb 0 (length bs) then after_sink d bs (sink bs s) else (ok, (count_payload d bs, s))

  -- One round of the loop, on the bytes that the state takes.
  abbrev pub absorb : DecoderState → Decoder → List ℕ → S → Fed S
  absorb in_archive d bs s = fed (take_archive d bs) s
  absorb in_chunk_header d bs s = fed (take_chunk_header d bs) s
  absorb in_payload d bs s = take_payload d bs s
  absorb in_trailer d bs s = fed (take_trailer d bs) s
  absorb completed d bs s =
      (ok, (record d { trailing_bytes = (d.trailing_bytes + length bs) % 2 ^ 32 }, s))

  -- `none` is a loop that does not end in so many rounds.
  unfoldable pub feed_loop : ℕ → Decoder → List ℕ → S → Option (Fed S)
  feed_loop zero d bs s = none
  feed_loop (suc rounds) d [] s = some (ok, (d, s))
  feed_loop (suc rounds) d (b ∷ bs) s =
      let count = count_of d.state d (length (b ∷ bs)) in
      go_on (absorb d.state d (take count (b ∷ bs)) s)
        (λ d' s'. feed_loop rounds d' (drop count (b ∷ bs)) s')

-- The sink may be NULL as well. Every round takes a byte, so one round more than bytes is enough.
unfoldable pub feed :
    {S : Type 0} → Option (List ℕ → S → Bool × S) → Decoder → Slice → S → Option (Fed S)
feed none d input s = some (invalid_argument, (d, s))
feed (some sink) d input s =
    if is_missing input || d.expected_payload_size == 0
    then some (invalid_argument, (d, s))
    else feed_loop sink (suc input.len) d (take input.len (bytes_of input.bytes)) s

abbrev pub complete : Decoder → Bool
complete d = elim d.state [ completed ↦ true | _ ↦ false ]
