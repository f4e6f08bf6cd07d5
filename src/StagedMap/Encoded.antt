-- ===== src/StagedMap/Encoded.antt =====
-- What the codec accepts to be written: only complete records are encoded.
use revlink_sidecar.Base.{ℕ, ◌≡◌, ◌↔◌, ◌⊎◌, ◌≢◌, ◌≤◌, none, some, List, arith}
use revlink_sidecar.StagedMap.{
  ok, invalid_argument, StagedRecord, name_capacity, path_capacity, part_number_capacity,
  serial_capacity, record_bytes,
}
use revlink_sidecar.StagedMap.Codec.{put_header, put_strings, put_string, encode_checked, encode}
use revlink_sidecar.StagedMap.Fields.{IsText}
use revlink_sidecar.StagedMap.RoundTrip.{IsEncodable, encode_checked-IsEncodable}

put_strings-ne-none :
    (r : StagedRecord) (buffer : List ℕ)
    → put_strings r buffer ≢ none
    → IsText r.name name_capacity
      × IsText r.destination path_capacity
      × IsText r.target_part_number part_number_capacity
      × IsText r.target_serial serial_capacity
unfolding put_strings put_string
put_strings-ne-none r buffer h = ground arith

encode_checked-ok :
    (r : StagedRecord) (buffer : List ℕ) → (encode_checked r buffer).0 ≡ ok → IsEncodable r
unfolding encode_checked
encode_checked-ok r buffer h = ground (arith, put_strings-ne-none r (put_header r buffer))

encode_checked_cases :
    (r : StagedRecord) (buffer : List ℕ)
    → ((encode_checked r buffer).0 ≡ ok) ⊎ ((encode_checked r buffer).0 ≡ invalid_argument)
unfolding encode_checked
encode_checked_cases r buffer = ground arith

-- With room for 540 bytes, `encode` succeeds on exactly the records that have a size, a known kind and
-- four texts that are not empty and end inside their fields; it rejects the others as invalid
-- arguments.
encode_ok_iff :
    (r : StagedRecord) (buffer : List ℕ) (capacity : ℕ)
    → record_bytes ≤ capacity
    → (((encode (some r) (some buffer) capacity).0 ≡ ok) ↔ IsEncodable r)
      × ((encode (some r) (some buffer) capacity).0 ≢ ok
          → (encode (some r) (some buffer) capacity).0 ≡ invalid_argument)
unfolding encode
encode_ok_iff r buffer capacity room = (
  (
    λ h. encode_checked-ok r buffer (ground arith),
    λ e. ground (arith, encode_checked-IsEncodable r buffer e),
  ),
  λ h. ground (arith, encode_checked_cases r buffer),
)
