-- ===== src/Protocol/Parse.antt =====
-- `revlink_ap_validate_record` and `revlink_ap_parse_record` of
-- firmware/components/accessport_protocol/revlink_accessport_protocol.c.
use revlink_sidecar.Base.{
  ℕ, ◌+◌, ◌-◌, ltb, ◌==◌, not, if◌then◌else◌, Bool, ◌||◌, Option, none, some, List, take, drop,
  mem_eq,
}
use revlink_sidecar.Protocol.{
  ApStatus, ok, invalid_argument, invalid_frame, invalid_checksum, prefix_size, checksum_size,
  boost_header_size, record_overhead, max_record_size, boost_header, byte, of_u16_be, of_u16_le,
  of_u32_be,
}
use revlink_sidecar.Protocol.Record.{jamcrc_zeroed_trailer}

-- The marker, the zeros and the two lengths; `true` is a violation.
unfoldable pub bad_frame : List ℕ → ℕ → Bool
bad_frame r len =
    ltb len record_overhead
    || ltb max_record_size len
    || not (byte r 0 == 0x02)
    || not (byte r 1 == 0)
    || not (byte r 2 == 0)
    || not (byte r 5 == 0)
    || not (byte r 8 == 0)
    || not (byte r 9 == 0)
    || not (byte r 10 == 0)
    || not (of_u16_be (drop 3 r) + 7 == len)

-- The checksum that is stored is the one computed.
abbrev pub checksum_holds : List ℕ → ℕ → Bool
checksum_holds r len =
    jamcrc_zeroed_trailer (some r) len == of_u32_be (drop (len - checksum_size) r)

unfoldable pub validate_record : Option (List ℕ) → ℕ → ApStatus
validate_record none len = invalid_argument
validate_record (some r) len =
    if bad_frame r len then invalid_frame else if checksum_holds r len then ok else invalid_checksum

-- The `payload` of the source points into the record.
pub record RecordView : Type 0 where
  pub opcode : ℕ
  pub payload : List ℕ
  pub payload_length : ℕ

abbrev pub view_of : List ℕ → ℕ → RecordView
view_of r len = record {
  opcode = of_u16_le (drop 6 r);
  payload = take (len - record_overhead) (drop (prefix_size + boost_header_size) r);
  payload_length = len - record_overhead;
}

-- The check of the archive header, once the record is valid.
abbrev pub view_record : ApStatus → Option (List ℕ) → ℕ → ApStatus × Option RecordView
view_record ok (some r) len =
    if mem_eq boost_header_size (drop prefix_size r) boost_header
    then (ok, some (view_of r len))
    else (invalid_frame, none)
view_record status r len = (status, none)

-- `has_view` is a non-NULL `view`; the second component is what is stored in it.
unfoldable pub parse_record : Option (List ℕ) → ℕ → Bool → ApStatus × Option RecordView
parse_record r len has_view =
    if has_view then view_record (validate_record r len) r len else (invalid_argument, none)
