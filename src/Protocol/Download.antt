-- ===== src/Protocol/Download.antt =====
-- A whole download through the decoder of firmware/components/accessport_protocol.
use revlink_sidecar.Base.{
  ℕ, ◌+◌, ◌-◌, ◌*◌, ◌/◌, ◌%◌, ◌^◌, ◌≡◌, ◌≤◌, ◌<◌, refl, ap, ap₂, sym, ◌∙◌, ◌==◌, if◌then◌else◌,
  Bool, true, false, inr, some, List, [], ◌∷◌, ◌++◌, append-nil, append_assoc, length,
  length-append, length-drop, drop, ltb, arith, uint32_max, All-append,
}
use revlink_sidecar.Crc.{crc32_update}
use revlink_sidecar.Crc.Bounds.{crc32_update-append}
use revlink_sidecar.Protocol.{
  ApStatus, ok, invalid_frame, IsBytes, opcode_response, record_overhead, max_chunk_payload, u16_be,
  u16_le, u24_be, u32_be, of_u16_be, of_u24_be, of_u32_be,
}
use revlink_sidecar.Protocol.Frame.{frame, frame_start, trailer_of}
use revlink_sidecar.Protocol.Parse.{parse_record}
use revlink_sidecar.Protocol.RoundTrip.{parse_record-frame, of_u32_be-u32_be, trailer_of-lt}
use revlink_sidecar.Protocol.ChunkLaws.{chunk, chunk_start, chunk_start-IsBytes}
use revlink_sidecar.Protocol.Decoder.{
  Decoder, in_archive, in_chunk_header, in_payload, in_trailer, completed, archive_capacity, init,
  fed, bad_target, check_archive, after_sink, absorb, read_archive, read_chunk_header, read_trailer,
  take_payload, count_payload, validate_download_archive, response_status, take_archive,
  take_chunk_header, take_trailer,
}
use revlink_sidecar.Protocol.DecoderGood.{Good, room, is_completed, init-Good}
use revlink_sidecar.Protocol.DecoderParts.{IsStream, sunk}
use revlink_sidecar.Protocol.DecoderFed.{fed_with}
use revlink_sidecar.Protocol.DownloadBlocks.{
  one_block, block_then, archive_whole, header_whole, payload_taken, trailer_whole,
}

-- The response, and the decoder behind each part of the transfer.
module _ (response payload : List ℕ) where
  abbrev total : ℕ
  total = record_overhead + length response

  abbrev head : List ℕ
  head = 0x02 ∷ 0 ∷ 0 ∷ u16_be ((total - 7) % 2 ^ 16)

  abbrev answer : List ℕ
  answer = frame opcode_response response

  abbrev start : List ℕ
  start = chunk_start (length payload) 0x01

  abbrev begun_archive : Decoder
  begun_archive = record (init (length payload)) { archive = head; archive_target_size = total }

  abbrev read_answer : Decoder
  read_answer = record begun_archive { archive = answer; state = in_chunk_header }

  abbrev read_start : Decoder
  read_start = record read_answer {
    chunk_header = start;
    payload_size = length payload;
    chunk_crc = crc32_update uint32_max start;
    state = in_payload;
  }

  abbrev read_payload : Decoder
  read_payload = record read_start {
    chunk_crc = crc32_update uint32_max (start ++ payload);
    payload_received = length payload;
    state = in_trailer;
  }

  abbrev pub downloaded : Decoder
  downloaded = record read_payload {
    trailer = u32_be (trailer_of (start ++ payload));
    chunk_crc = trailer_of (start ++ payload);
    state = completed;
  }

  archive_begins :
      total ≤ archive_capacity → take_archive (init (length payload)) head ≡ (ok, begun_archive)
  unfolding init read_archive of_u16_be u16_be
  archive_begins fits =
      let declared : (total - 7) % 65536 / 256 % 256 * 256 + (total - 7) % 65536 % 256 + 7 ≡ total =
        omega arith in
      ap
        (λ t.
          let d = record (init (length payload)) { archive = head; archive_target_size = t } in
          if bad_target t then (invalid_frame, d) else check_archive d)
        declared
      ∙ begins
    where
      begins :
          ◌≡◌ {A = ApStatus × Decoder}
            (if bad_target total
              then (invalid_frame, begun_archive)
              else check_archive begun_archive)
            (ok, begun_archive)
      begins = ground arith

  answer_size : length answer ≡ total
  unfolding u16_be u16_le u32_be
  answer_size = omega (
    arith,
    length-append response (u32_be (trailer_of (frame_start opcode_response total ++ response))),
  )

  answer_valid :
      total ≤ archive_capacity
      → IsBytes response
      → validate_download_archive (record begun_archive { archive = answer }) ≡ ok
  unfolding validate_download_archive
  answer_valid fits all =
      ap (λ k. response_status (parse_record (some answer) k true)) answer_size
      ∙ ap (λ a. response_status (parse_record (some a) total true)) (sym (append-nil answer))
      ∙ ap response_status
          (parse_record-frame opcode_response response [] (omega arith) all (omega arith))

  archive_ends :
      total ≤ archive_capacity
      → IsBytes response
      → take_archive begun_archive (drop 5 answer) ≡ (ok, read_answer)
  unfolding read_archive u16_be u16_le init
  archive_ends fits all =
      archive_whole (record begun_archive { archive = answer }) refl refl refl answer_size
        (omega arith) (answer_valid fits all)

  header_read :
      0 < length payload
      → length payload ≤ max_chunk_payload
      → take_chunk_header read_answer start ≡ (ok, read_start)
  unfolding init read_chunk_header u24_be of_u24_be
  header_read p q =
      let declared : (length payload + 4) / 65536 % 256 * 65536
            + (length payload + 4) / 256 % 256 * 256
            + (length payload + 4) % 256
          ≡ length payload + 4 =
        omega arith in
      header_whole (record read_answer { chunk_header = start }) refl (ground (arith, declared))
        (omega (arith, declared))
      ∙ ap (λ k. (ok, record read_start { payload_size = k })) refl

  payload_read :
      {S : Type 0} (sink : List ℕ → S → Bool × S) (s s' : S)
      → 0 < length payload
      → sunk (sink payload s) ≡ some s'
      → take_payload sink read_start payload s ≡ (ok, (read_payload, s'))
  unfolding init take_payload count_payload
  payload_read sink s s' p e =
      let some_bytes : ltb 0 (length payload) ≡ true = ground arith in
      let all_received : (0 + length payload == length payload) ≡ true = ground arith in
      let received : 0 + length payload ≡ length payload = omega arith in
      ap
        (λ b.
          if b
          then after_sink sink read_start payload (sink payload s)
          else (ok, (count_payload read_start payload, s)))
        some_bytes
      ∙ payload_taken sink read_start payload s' (sink payload s) e
      ∙ ap₂ (λ n crc. (ok, (counted n crc, s'))) received
          (sym (crc32_update-append uint32_max start payload))
      ∙ ap (λ d. (ok, (d, s'))) counted_all
    where
      counted : ℕ → ℕ → Decoder
      counted n crc =
          let d = record read_start { chunk_crc = crc; payload_received = n } in
          if n == length payload then record d { state = in_trailer } else d

      counted_all :
          counted (length payload) (crc32_update uint32_max (start ++ payload)) ≡ read_payload
      counted_all =
          let same : (length payload == length payload) ≡ true = ground arith in
          ap
            (λ b.
              let d = record read_start {
                chunk_crc = crc32_update uint32_max (start ++ payload);
                payload_received = length payload;
              } in
              if b then record d { state = in_trailer } else d)
            same

  trailer_read :
      IsBytes payload
      → take_trailer read_payload (u32_be (trailer_of (start ++ payload))) ≡ (ok, downloaded)
  unfolding init read_trailer u32_be
  trailer_read all =
      trailer_whole (record read_payload { trailer = u32_be (trailer_of (start ++ payload)) }) refl
        (ap of_u32_be (sym (append-nil (u32_be (trailer_of (start ++ payload)))))
          ∙ of_u32_be-u32_be (trailer_of (start ++ payload)) [] (
              trailer_of-lt (start ++ payload) (
                All-append (λ (b : ℕ). b < 256) start payload
                  (chunk_start-IsBytes (length payload) 1 (omega arith)) all)))

  -- The parts of the transfer, in order.
  transfer_parts :
      answer ++ chunk 0x01 payload
      ≡ head ++ (drop 5 answer ++ (start ++ (payload ++ u32_be (trailer_of (start ++ payload)))))
  unfolding u16_be
  transfer_parts =
      ap (λ z. answer ++ z) (append_assoc start payload (u32_be (trailer_of (start ++ payload))))

  room-begun_archive : room in_archive begun_archive ≡ length (drop 5 answer)
  unfolding u16_be init
  room-begun_archive = let size = length-drop 5 answer in let whole = answer_size in ground arith

-- A response of at most 4096 bytes with the expected opcode, then a chunk with a payload of the
-- expected size, which is not 0, all of bytes: one call of a new decoder with the whole transfer
-- succeeds and completes it, and the sink has taken exactly the payload, if the sink does take it
-- and does not mind in which pieces it comes.
pub download_completes :
    {S : Type 0} (sink : List ℕ → S → Bool × S) (response payload : List ℕ) (s s' : S)
    → IsStream sink
    → IsBytes response
    → IsBytes payload
    → record_overhead + length response ≤ archive_capacity
    → 0 < length payload
    → length payload ≤ max_chunk_payload
    → sunk (sink payload s) ≡ some s'
    → fed_with sink
        (init (length payload), s)
        (frame opcode_response response ++ chunk 0x01 payload)
      ≡ some (inr (downloaded response payload, s'))
unfolding init u16_be u24_be u32_be
download_completes {S} sink response payload s s' stream bytes bytes' fits some_payload small
      taken =
    ap (fed_with sink (init (length payload), s)) (transfer_parts response payload)
    ∙ next (init (length payload), s) (begun_archive response payload, s) (head response payload) _
        (init-Good (length payload) some_payload (omega arith)) (omega arith) refl refl
        (ap (λ r. fed r s) (archive_begins response payload fits))
        (λ g1.
          next (begun_archive response payload, s) (read_answer response payload, s)
            (drop 5 (answer response payload)) _ g1
            (omega (arith, answer_size response payload, length-drop 5 (answer response payload)))
            refl (room-begun_archive response payload)
            (ap (λ r. fed r s) (archive_ends response payload fits bytes))
            (λ g2.
              next (read_answer response payload, s) (read_start response payload, s)
                (start response payload) _ g2 (omega arith) refl refl
                (ap (λ r. fed r s) (header_read response payload some_payload small))
                (λ g3.
                  next (read_start response payload, s) (read_payload response payload, s') payload
                    _ g3 some_payload refl (omega arith)
                    (payload_read response payload sink s s' some_payload taken)
                    (λ g4.
                      one_block sink (read_payload response payload, s')
                        (downloaded response payload, s')
                        (u32_be (trailer_of (start response payload ++ payload))) g4 (omega arith)
                        refl refl (ap (λ r. fed r s') (trailer_read response payload bytes'))))))
  where
    next :
        (x x' : Decoder × S) (bs rest : List ℕ)
        → Good x.0
        → 0 < length bs
        → is_completed x.0.state ≡ false
        → room x.0.state x.0 ≡ length bs
        → absorb sink x.0.state x.0 bs x.1 ≡ (ok, x')
        → (Good x'.0 → fed_with sink x' rest ≡ some (inr (downloaded response payload, s')))
        → fed_with sink x (bs ++ rest) ≡ some (inr (downloaded response payload, s'))
    next x x' bs rest =
        block_then sink x x' bs rest (some (inr (downloaded response payload, s'))) stream
