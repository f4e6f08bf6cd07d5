-- ===== src/StagedMap/Codec.antt =====
-- The 540-byte on-disk record of firmware/components/revlink_staged_map/revlink_staged_map.c.
use revlink_sidecar.Base.{
  ℕ, ◌-◌, Bool, not, ◌||◌, ◌==◌, ltb, leb, if◌then◌else◌, Option, none, some, ◌>>=◌, List, [], ◌∷◌,
  read_at, write_at, strnlen, take, replicate, le_bytes, of_le_bytes, uint32_max,
}
use revlink_sidecar.Crc.{crc32_update}
use revlink_sidecar.StagedMap.{
  Status, ok, invalid_argument, truncated, bad_magic, unsupported_version, bad_checksum,
  malformed_field, StagedRecord, magic, version, kind_map, kind_startup_image, sha256_bytes,
  name_capacity, path_capacity, part_number_capacity, serial_capacity, record_bytes,
}

abbrev pub offset_magic : ℕ
offset_magic = 0

abbrev pub offset_version : ℕ
offset_version = 4

abbrev pub offset_kind : ℕ
offset_kind = 8

abbrev pub offset_size : ℕ
offset_size = 12

abbrev pub offset_sha256 : ℕ
offset_sha256 = 16

abbrev pub offset_name : ℕ
offset_name = 48

abbrev pub offset_destination : ℕ
offset_destination = 176

abbrev pub offset_part_number : ℕ
offset_part_number = 432

abbrev pub offset_serial : ℕ
offset_serial = 472

abbrev pub offset_crc : ℕ
offset_crc = 536

-- `~crc` of a `uint32_t`.
unfoldable pub crc32_ieee : List ℕ → ℕ
crc32_ieee bytes = uint32_max - crc32_update uint32_max bytes

abbrev pub put_u32 : List ℕ → ℕ → ℕ → List ℕ
put_u32 buffer offset value = write_at offset (le_bytes value) buffer

abbrev pub get_u32 : List ℕ → ℕ → ℕ
get_u32 buffer offset = of_le_bytes (read_at offset 4 buffer)

-- `none` is the result `false`, which leaves the buffer alone.
unfoldable pub put_string : List ℕ → ℕ → ℕ → List ℕ → Option (List ℕ)
put_string buffer offset capacity value =
    let len = strnlen value capacity in
    if len == 0 || leb capacity len
    then none
    else some (write_at offset (take len value) (write_at offset (replicate capacity 0) buffer))

-- `output` is the whole field that the text goes to.
unfoldable pub get_string : List ℕ → ℕ → ℕ → List ℕ → Option (List ℕ)
get_string buffer offset capacity output =
    let len = strnlen (read_at offset capacity buffer) capacity in
    if len == 0 || leb capacity len
    then none
    else some (write_at len (0 ∷ []) (write_at 0 (read_at offset len buffer) output))

abbrev pub valid_kind : ℕ → Bool
valid_kind kind = kind == kind_map || kind == kind_startup_image

unfoldable pub put_header : StagedRecord → List ℕ → List ℕ
put_header r buffer =
    let cleared = write_at 0 (replicate record_bytes 0) buffer in
    let b1 = put_u32 cleared offset_magic magic in
    let b2 = put_u32 b1 offset_version version in
    let b3 = put_u32 b2 offset_kind r.kind in
    let b4 = put_u32 b3 offset_size r.size in write_at offset_sha256 r.sha256 b4

unfoldable pub put_strings : StagedRecord → List ℕ → Option (List ℕ)
put_strings r buffer = do
  b1 ← put_string buffer offset_name name_capacity r.name
  b2 ← put_string b1 offset_destination path_capacity r.destination
  b3 ← put_string b2 offset_part_number part_number_capacity r.target_part_number
  put_string b3 offset_serial serial_capacity r.target_serial

-- The CRC covers bytes 0..535.
abbrev pub put_crc : List ℕ → List ℕ
put_crc buffer = put_u32 buffer offset_crc (crc32_ieee (read_at 0 offset_crc buffer))

unfoldable pub encode_checked : StagedRecord → List ℕ → Status × List ℕ
encode_checked r buffer =
    if r.size == 0 || not (valid_kind r.kind)
    then (invalid_argument, buffer)
    else elim (put_strings r (put_header r buffer)) [
      | none ↦ (invalid_argument, write_at 0 (replicate record_bytes 0) (put_header r buffer))
      | some b ↦ (ok, put_crc b)
    ]

-- `none` is a NULL pointer. The third part is what is stored through `written`, if it is not NULL.
unfoldable pub encode :
    Option StagedRecord → Option (List ℕ) → ℕ → Status × Option (List ℕ) × Option ℕ
encode none buffer capacity = (invalid_argument, buffer, none)
encode (some r) none capacity = (invalid_argument, none, none)
encode (some r) (some buffer) capacity =
    if ltb capacity record_bytes
    then (invalid_argument, some buffer, none)
    else let (status, b) = encode_checked r buffer in
      (status, some b, elim status [ ok ↦ some record_bytes | _ ↦ none ])

pub data Decoded : Type 0 where
  rejected : Status → Decoded
  decoded : StagedRecord → Decoded

-- The local `decoded` before its strings are read: cleared, then given its kind, size and digest.
abbrev pub cleared_record : ℕ → ℕ → List ℕ → StagedRecord
cleared_record kind size sha256 = record {
  kind = kind;
  size = size;
  sha256 = sha256;
  name = replicate name_capacity 0;
  destination = replicate path_capacity 0;
  target_part_number = replicate part_number_capacity 0;
  target_serial = replicate serial_capacity 0;
}

-- The four strings, into zeroed fields.
unfoldable pub get_strings : List ℕ → StagedRecord → Option StagedRecord
get_strings buffer r = do
  name ← get_string buffer offset_name name_capacity (replicate name_capacity 0)
  destination ← get_string buffer offset_destination path_capacity (replicate path_capacity 0)
  part_number ←
      get_string buffer offset_part_number part_number_capacity (replicate part_number_capacity 0)
  serial ← get_string buffer offset_serial serial_capacity (replicate serial_capacity 0)
  some (record r {
    name = name;
    destination = destination;
    target_part_number = part_number;
    target_serial = serial;
  })

unfoldable pub get_fields : List ℕ → Decoded
get_fields buffer =
    let kind = get_u32 buffer offset_kind in
    let size = get_u32 buffer offset_size in
    if size == 0 || not (valid_kind kind)
    then rejected malformed_field
    else elim (get_strings buffer
        (cleared_record kind size (read_at offset_sha256 sha256_bytes buffer))) [
          | none ↦ rejected malformed_field
          | some r ↦ decoded r
        ]

-- `len` is the number of bytes that the caller says the buffer holds.
unfoldable pub decode_checked : List ℕ → ℕ → Decoded
decode_checked buffer len =
    if ltb len record_bytes
    then rejected truncated
    else if not (get_u32 buffer offset_magic == magic)
    then rejected bad_magic
    else if not (get_u32 buffer offset_version == version)
    then rejected unsupported_version
    else if not (get_u32 buffer offset_crc == crc32_ieee (read_at 0 offset_crc buffer))
    then rejected bad_checksum
    else get_fields buffer

-- `none` is a NULL pointer. The second part is `*record` afterwards.
unfoldable pub decode : Option (List ℕ) → ℕ → Option StagedRecord → Status × Option StagedRecord
decode none len out = (invalid_argument, out)
decode (some buffer) len none = (invalid_argument, none)
decode (some buffer) len (some old) = elim (decode_checked buffer len) [
  | rejected status ↦ (status, some old)
  | decoded r ↦ (ok, some r)
]
