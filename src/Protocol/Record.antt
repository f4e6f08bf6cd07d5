-- ===== src/Protocol/Record.antt =====
-- The requests of firmware/components/accessport_protocol/revlink_accessport_protocol.c: the common
-- prefix, the payload that a builder writes, and the checksum over it.
use revlink_sidecar.Base.{
  ℕ, ◌+◌, ◌-◌, ◌%◌, ◌^◌, ltb, ◌==◌, not, if◌then◌else◌, Bool, true, false, ◌||◌, Option, none, some,
  ◌>>=◌, List, [], ◌∷◌, take, replicate, write_at, uint32_max,
}
use revlink_sidecar.Crc.{crc32_update}
use revlink_sidecar.Protocol.{
  ApStatus, ok, invalid_argument, buffer_too_small, record_too_large, prefix_size, checksum_size,
  boost_header_size, record_overhead, max_record_size, opcode_list, opcode_select_map,
  opcode_download, opcode_temp_notice, opcode_upload, opcode_delete, boost_header, Slice,
  is_missing, checked_add, u16_be, u16_le, u32_be,
}
use revlink_sidecar.Protocol.Writer.{
  Writer, Write, writer_bytes, writer_zeros, writer_u32_le, writer_lp, ◌andthen◌,
}

abbrev pub zero_trailer : List ℕ
zero_trailer = replicate checksum_size 0

unfoldable pub jamcrc_zeroed_trailer : Option (List ℕ) → ℕ → ℕ
jamcrc_zeroed_trailer none len = 0
jamcrc_zeroed_trailer (some bytes) len =
    if ltb len checksum_size
    then 0
    else crc32_update (crc32_update uint32_max (take (len - checksum_size) bytes)) zero_trailer

-- The record before its payload: zeros, the marker, the length, the opcode and the archive header.
unfoldable pub start_buffer : ℕ → ℕ → List ℕ → List ℕ
start_buffer opcode total output =
    let b1 = write_at 0 (replicate total 0) output in
    let b2 = write_at 0 (0x02 ∷ []) b1 in
    let b3 = write_at 3 (u16_be ((total - 7) % 2 ^ 16)) b2 in
    let b4 = write_at 6 (u16_le opcode) b3 in write_at prefix_size boost_header b4

-- `begin_record`: its status, or the length of the record and the writer of its payload.
pub data Begun : Type 0 where
  refused : ApStatus → Begun
  begun : ℕ → Writer → Begun

unfoldable pub begin_record : ℕ → ℕ → Option (List ℕ) → ℕ → Begun
begin_record opcode payload_length none capacity = refused invalid_argument
begin_record opcode payload_length (some output) capacity =
    elim (checked_add record_overhead payload_length) [
      | none ↦ refused record_too_large
      | some total ↦
          if ltb max_record_size total
          then refused record_too_large
          else if ltb capacity total
          then refused buffer_too_small
          else begun total record {
            buffer = start_buffer opcode total output;
            cursor = prefix_size + boost_header_size;
            remaining = payload_length;
          }
    ]

-- What a builder leaves: its status, the output buffer, and the length if it is set.
pub record Built : Type 0 where
  pub status : ApStatus
  pub output : Option (List ℕ)
  pub output_length : Option ℕ

abbrev pub stopped : ApStatus → Option (List ℕ) → Built
stopped status output = record { status = status; output = output; output_length = none }

-- `has_length` is a non-NULL `output_length`.
unfoldable pub finish_record : ℕ → Bool → Writer → Built
finish_record total has_length w =
    if not has_length || not (w.remaining == 0)
    then stopped invalid_argument (some w.buffer)
    else record {
      status = ok;
      output = some (
          write_at (total - checksum_size) (u32_be (jamcrc_zeroed_trailer (some w.buffer) total))
            w.buffer);
      output_length = some total;
    }

-- After the writes of the payload.
abbrev pub finish_payload : ℕ → Bool → Bool × Writer → Built
finish_payload total has_length (true, w) = finish_record total has_length w
finish_payload total has_length (false, w) = stopped invalid_argument (some w.buffer)

abbrev pub write_payload : Begun → Write → Option (List ℕ) → Bool → Built
write_payload (refused status) write output has_length = stopped status output
write_payload (begun total w) write output has_length = finish_payload total has_length (write w)

-- The part that all builders share: begin, write the payload, finish.
unfoldable pub build : ℕ → ℕ → Write → Option (List ℕ) → ℕ → Bool → Built
build opcode payload_length write output capacity has_length =
    write_payload (begin_record opcode payload_length output capacity) write output has_length

-- The arguments are tested first: `none` is a missing text or a size that overflows.
unfoldable pub build_sized : ℕ → Option ℕ → Write → Option (List ℕ) → ℕ → Bool → Built
build_sized opcode none write output capacity has_length = stopped invalid_argument output
build_sized opcode (some payload_length) write output capacity has_length =
    build opcode payload_length write output capacity has_length

unfoldable pub size_of_lp : ℕ → Slice → Option ℕ
size_of_lp fixed s = if is_missing s then none else checked_add fixed s.len

unfoldable pub size_of_two : Slice → Slice → Option ℕ
size_of_two name path =
    if is_missing name || is_missing path
    then none
    else checked_add 37 name.len >>= (λ n. checked_add n path.len)

unfoldable pub build_record : ℕ → Slice → Option (List ℕ) → ℕ → Bool → Built
build_record opcode payload output capacity has_length =
    if is_missing payload
    then stopped invalid_argument output
    else build opcode payload.len (writer_bytes payload) output capacity has_length

unfoldable pub build_list : Slice → Option (List ℕ) → ℕ → Bool → Built
build_list path = build_sized opcode_list (size_of_lp 4 path) (writer_lp path)

unfoldable pub build_select_map : Slice → Option (List ℕ) → ℕ → Bool → Built
build_select_map name =
    build_sized opcode_select_map (size_of_lp 32 name)
      (writer_zeros 2 andthen writer_lp name andthen writer_zeros 26)

-- `{0x00, 0x01}`.
abbrev pub marker : Slice
marker = record { bytes = some (0x00 ∷ 0x01 ∷ []); len = 2 }

unfoldable pub build_download : Slice → Slice → Option (List ℕ) → ℕ → Bool → Built
build_download name path =
    build_sized opcode_download (size_of_two name path)
      (writer_bytes marker andthen writer_lp name andthen writer_zeros 27 andthen writer_lp path)

unfoldable pub build_temp_notice : Slice → Option (List ℕ) → ℕ → Bool → Built
build_temp_notice path = build_sized opcode_temp_notice (size_of_lp 4 path) (writer_lp path)

unfoldable pub build_upload : Slice → Slice → ℕ → ℕ → Option (List ℕ) → ℕ → Bool → Built
build_upload name path modification_time file_size =
    build_sized opcode_upload (size_of_two name path) (
      writer_bytes marker
      andthen writer_lp name
      andthen writer_u32_le modification_time
      andthen writer_u32_le file_size
      andthen writer_zeros 19
      andthen writer_lp path)

unfoldable pub build_delete : Slice → Slice → Option (List ℕ) → ℕ → Bool → Built
build_delete name path =
    build_sized opcode_delete (size_of_two name path)
      (writer_bytes marker andthen writer_lp name andthen writer_zeros 27 andthen writer_lp path)
