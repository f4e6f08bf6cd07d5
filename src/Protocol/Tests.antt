-- ===== src/Protocol/Tests.antt =====
-- Runs of the model of firmware/components/accessport_protocol on concrete records and chunks.
use revlink_sidecar.Base.{Bool, is_some, inl, inr, ap, sym, append_assoc, ◌++◌, then_feed}
use revlink_sidecar.Base.{
  ℕ, ◌≡◌, refl, List, [], ◌∷◌, replicate, some, take, arith, mem_eq, length, true, false,
}
use revlink_sidecar.Crc.{crc32_update}
use revlink_sidecar.Protocol.{
  ok, invalid_checksum, IsBytes, slice_of, opcode_response, of_u16_be, of_u16_le, of_u24_be,
  of_u32_be,
}
use revlink_sidecar.Protocol.Record.{jamcrc_zeroed_trailer, build_record}
use revlink_sidecar.Protocol.Frame.{frame}
use revlink_sidecar.Protocol.Parse.{bad_frame, validate_record, parse_record}
use revlink_sidecar.Protocol.RoundTrip.{view, all_bytes-IsBytes}
use revlink_sidecar.Protocol.Payloads.{received, received-build_record}
use revlink_sidecar.Protocol.Accepted.{parse_record→frame}
use revlink_sidecar.Protocol.Chunk.{bad_chunk, build_chunk, validate_chunk}
use revlink_sidecar.Protocol.ChunkLaws.{chunk, chunk_status, validate_chunk-build_chunk}
use revlink_sidecar.Protocol.ChunkAccepted.{validate_chunk→chunk}
use revlink_sidecar.Protocol.{invalid_frame}
use revlink_sidecar.Protocol.Decoder.{Decoder, init, needed, read_archive, feed_loop, feed}
use revlink_sidecar.Protocol.DecoderGood.{Good, init-Good}
use revlink_sidecar.Protocol.DecoderParts.{IsStream}
use revlink_sidecar.Protocol.DecoderLaws.{result}
use revlink_sidecar.Protocol.DecoderFed.{fed_with, feed_ends, feed-append}
use revlink_sidecar.Protocol.Download.{downloaded, download_completes}
use revlink_sidecar.Base.{◌↔◌, ◌⊎◌, ◌≤◌, ◌<◌, ◌-◌, drop}
use revlink_sidecar.Protocol.{upload_target_rejected, max_chunk_payload}
use revlink_sidecar.Protocol.Target.{
  maps_prefix, startup_path, startup_screen_bytes, upload_map, upload_startup_screen,
  is_map_extension, validate_delete_target, validate_upload_target, map_target,
}
use revlink_sidecar.Protocol.TargetLaws.{
  IsFileName, IsDeletable, delete_target_iff, upload_target_accepted,
}
use revlink_sidecar.Protocol.Ack.{
  is_plain_ack, plain_error_code, error_digits, disconnect_ack, is_disconnect_ack,
}
use revlink_sidecar.Protocol.AckLaws.{
  IsShortFrame, IsDigits, digits_value, short_payload, plain_error_code→received,
}
use revlink_sidecar.Protocol.Listing.{parse_listing}
use revlink_sidecar.Protocol.ListingLaws.{
  LaidEntry, listing_bytes, laid_entries, parse_listing-listing_bytes,
}
use revlink_sidecar.Protocol.Parse.{checksum_holds}
use revlink_sidecar.Protocol.Identity.{
  DeviceInfo, parse_device_identity, read_identity, identity_of, split_fields, end_line,
  without_return, copy_identity_field, is_field_text,
}
use revlink_sidecar.Protocol.Listing.{read_lp_view, of_u32_le}
use revlink_sidecar.Protocol.IdentityLaws.{IsIdentity, parse_device_identity-IsIdentity}

abbrev few : List ℕ
few = 1 ∷ 2 ∷ 3 ∷ []

few-IsBytes : IsBytes few
few-IsBytes = (omega arith, (omega arith, (omega arith, tt)))

-- The record of the opcode 0x1601 around three bytes.
abbrev response : List ℕ
response =
    2 ∷ 0 ∷ 0 ∷ 0 ∷ 42 ∷ 0 ∷ 1 ∷ 22 ∷ 0 ∷ 0 ∷ 0 ∷ 115 ∷ 101 ∷ 114 ∷ 105 ∷ 97 ∷ 108 ∷ 105 ∷ 122 ∷ 97
    ∷ 116 ∷ 105 ∷ 111 ∷ 110 ∷ 58 ∷ 58 ∷ 97 ∷ 114 ∷ 99 ∷ 104 ∷ 105 ∷ 118 ∷ 101 ∷ 3 ∷ 4 ∷ 4 ∷ 4 ∷ 8
    ∷ 1 ∷ 0 ∷ 0 ∷ 0 ∷ 1 ∷ 2 ∷ 3 ∷ 82 ∷ 215 ∷ 86 ∷ 77 ∷ []

-- The first request of the identity handshake, an empty chunk.
abbrev handshake : List ℕ
handshake = 0x02 ∷ 0 ∷ 0 ∷ 0 ∷ 0x04 ∷ 0 ∷ 0x04 ∷ 0xcd ∷ 0xdb ∷ 0x75 ∷ 0x01 ∷ []

handshake_accepted : validate_chunk (some handshake) 11 ≡ ok
unfolding validate_chunk bad_chunk jamcrc_zeroed_trailer crc32_update of_u24_be of_u32_be
handshake_accepted = refl

-- One bit of it flipped.
flipped_refused :
    validate_chunk (some (0x02 ∷ 0 ∷ 0 ∷ 0 ∷ 0x04 ∷ 0 ∷ 0x05 ∷ 0xcd ∷ 0xdb ∷ 0x75 ∷ 0x01 ∷ [])) 11
    ≡ invalid_checksum
unfolding validate_chunk bad_chunk jamcrc_zeroed_trailer crc32_update of_u24_be of_u32_be
flipped_refused = refl

response_parsed : parse_record (some response) 49 true ≡ (ok, some (view opcode_response few))
unfolding parse_record validate_record bad_frame jamcrc_zeroed_trailer crc32_update of_u16_be
    of_u16_le of_u32_be mem_eq
response_parsed = refl

received-build_record_example :
    received (build_record opcode_response (slice_of few) (some (replicate 60 0xff)) 60 true)
    ≡ some (view opcode_response few)
received-build_record_example =
    received-build_record opcode_response few (replicate 60 0xff) 60 (omega arith) few-IsBytes
      (omega arith, (omega arith, omega arith))

all_in_range : IsBytes response
all_in_range = all_bytes-IsBytes response refl

parse_record→frame_example : (take 49 response ≡ frame opcode_response few) × (3 ≡ length few)
parse_record→frame_example =
    parse_record→frame response 49 (view opcode_response few) all_in_range (omega arith)
      response_parsed

validate_chunk-build_chunk_example :
    chunk_status (build_chunk (slice_of few) 1 (some (replicate 20 0xff)) 20 true) ≡ ok
validate_chunk-build_chunk_example =
    validate_chunk-build_chunk few (replicate 20 0xff) 1 20 (omega arith) few-IsBytes (omega arith)
      (omega arith) (omega arith)

handshake-IsBytes : IsBytes handshake
handshake-IsBytes = all_bytes-IsBytes handshake refl

validate_chunk→chunk_example : take 11 handshake ≡ chunk 4 []
validate_chunk→chunk_example =
    validate_chunk→chunk handshake 11 handshake-IsBytes (omega arith) handshake_accepted

-- A sink that collects what it is given.
abbrev collect : List ℕ → List ℕ → Bool × List ℕ
collect bs collected = (true, collected ++ bs)

collect-IsStream : IsStream collect
collect-IsStream xs ys s = ap some (sym (append_assoc s xs ys))

new-Good : Good (init 3)
new-Good = init-Good 3 (omega arith) (omega arith)

feed_ends_example :
    (is_some (feed (some collect) (init 3) (slice_of response) []) ≡ true)
    × ((d' : Decoder) (s' : List ℕ)
        → result (feed (some collect) (init 3) (slice_of response) []) ≡ some (inr (d', s'))
        → Good d')
feed_ends_example = feed_ends collect (init 3) [] response new-Good

feed-append_example :
    fed_with collect (init 3, []) (few ++ few)
    ≡ then_feed (fed_with collect (init 3, []) few) (λ x'. fed_with collect x' few)
feed-append_example = feed-append collect (init 3, []) few few collect-IsStream new-Good

download_completes_example :
    fed_with collect (init 3, []) (frame opcode_response few ++ chunk 1 few)
    ≡ some (inr (downloaded few few, few))
download_completes_example =
    download_completes collect few few [] few collect-IsStream few-IsBytes few-IsBytes (omega arith)
      (omega arith) (omega arith) refl

-- A transfer that does not start with the marker.
wrong_start : result (feed (some collect) (init 3) (slice_of few) []) ≡ some (inl invalid_frame)
unfolding feed feed_loop init needed read_archive
wrong_start = refl

-- "maps/a.ptm" and "maps/.".
abbrev map_path : List ℕ
map_path = maps_prefix ++ 0x61 ∷ 0x2e ∷ 0x70 ∷ 0x74 ∷ 0x6d ∷ []

delete_target_iff_example :
    (validate_delete_target (some map_path) (length map_path) ≡ ok) ↔ IsDeletable map_path
delete_target_iff_example = delete_target_iff map_path

-- The directory itself, under its name ".".
dot_accepted : validate_delete_target (some (maps_prefix ++ 0x2e ∷ [])) 6 ≡ ok
unfolding validate_delete_target mem_eq
dot_accepted = refl

traversal_refused :
    validate_delete_target (some (maps_prefix ++ 0x2e ∷ 0x2e ∷ 0x61 ∷ [])) 8
    ≡ upload_target_rejected
unfolding validate_delete_target mem_eq
traversal_refused = refl

map_accepted :
    validate_upload_target (some map_path) (length map_path) 4096 true ≡ (ok, some upload_map)
unfolding validate_upload_target map_target mem_eq
map_accepted = refl

upload_target_accepted_example :
    (map_path ≡ startup_path)
      × ((4096 ≡ startup_screen_bytes) × (upload_map ≡ upload_startup_screen))
    ⊎ ((name : List ℕ) × ((map_path ≡ maps_prefix ++ name)
          × (IsFileName name
              × ((is_map_extension (drop (length map_path - 4) map_path) ≡ true)
                  × ((4 < length name)
                      × ((0 < 4096) × ((4096 ≤ max_chunk_payload) × (upload_map ≡ upload_map))))))))
upload_target_accepted_example = upload_target_accepted map_path 4096 upload_map map_accepted

-- A directory and a file, with bytes that are not read.
abbrev laid : List LaidEntry
laid =
    record {
      entry = record {
        name = few;
        device_time_raw = 70000;
        size = 0;
        is_directory = true;
        path = few;
      };
      unread = replicate 18 7;
      flag = 1;
    }
    ∷ record {
      entry = record {
        name = 9 ∷ [];
        device_time_raw = 5;
        size = 300;
        is_directory = false;
        path = [];
      };
      unread = replicate 16 8;
      flag = 2;
    }
    ∷ []

parse_listing-listing_bytes_example :
    parse_listing (some (listing_bytes laid)) (length (listing_bytes laid)) true 4 true
    ≡ record { status = ok; entries = laid_entries laid; entry_count = some 2 }
parse_listing-listing_bytes_example =
    parse_listing-listing_bytes laid 4
      (
        record {
          directory = refl;
          unread_length = refl;
          name_fits = omega arith;
          path_fits = omega arith;
          time_fits = omega arith;
          size_fits = omega arith;
        },
        (
          record {
            directory = refl;
            unread_length = refl;
            name_fits = omega arith;
            path_fits = omega arith;
            time_fits = omega arith;
            size_fits = omega arith;
          },
          tt,
        ),
      )
      (omega arith) (omega arith)

disconnect_ack_recognised :
    is_plain_ack (some disconnect_ack) 12 53 ≡ is_disconnect_ack (some disconnect_ack) 12
unfolding is_plain_ack is_disconnect_ack jamcrc_zeroed_trailer crc32_update of_u32_be mem_eq
    of_u16_be
disconnect_ack_recognised = refl

-- The error code 12.
abbrev error_frame : List ℕ
error_frame = 2 ∷ 0 ∷ 0 ∷ 0 ∷ 6 ∷ 0 ∷ 2 ∷ 49 ∷ 50 ∷ 96 ∷ 149 ∷ 91 ∷ 123 ∷ []

error_frame_read : plain_error_code (some error_frame) 13 true ≡ some 12
unfolding plain_error_code error_digits jamcrc_zeroed_trailer crc32_update of_u32_be of_u16_be
error_frame_read = refl

plain_error_code→received_example :
    (12 ≤ 13)
    × IsShortFrame 0x02 error_frame 13
    × (checksum_holds error_frame 13 ≡ true)
    × IsDigits (short_payload error_frame 13)
    × (12 ≡ digits_value 0 (short_payload error_frame 13))
    × (12 ≤ 65535)
plain_error_code→received_example = plain_error_code→received error_frame 13 12 error_frame_read

-- Six lines, one of them with a carriage return and one of them empty.
abbrev identity_payload : List ℕ
identity_payload =
    16 ∷ 0 ∷ 0 ∷ 0 ∷ b'1' ∷ 0x0a ∷ b'2' ∷ 0x0d ∷ 0x0a ∷ b'S' ∷ b'-' ∷ b'3' ∷ 0x0a ∷ 0x0a ∷ b'4'
    ∷ 0x0a ∷ b'5' ∷ 0x0a ∷ b'6' ∷ 0x0a ∷ []

abbrev identity_read : DeviceInfo
identity_read = record {
  firmware = b'1' ∷ [];
  part_number = b'2' ∷ [];
  serial = b'S' ∷ b'-' ∷ b'3' ∷ [];
  install_status = b'4' ∷ [];
  vehicle = b'5' ∷ [];
  trailing_field = b'6' ∷ [];
}

identity_accepted : parse_device_identity (some identity_payload) 20 true ≡ (ok, some identity_read)
unfolding parse_device_identity read_identity identity_of split_fields end_line without_return
    copy_identity_field is_field_text read_lp_view of_u32_le
identity_accepted = refl

parse_device_identity-IsIdentity_example : (ok ≡ ok) × IsIdentity identity_read
parse_device_identity-IsIdentity_example =
    parse_device_identity-IsIdentity identity_payload 20 ok identity_read identity_accepted
