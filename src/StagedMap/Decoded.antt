-- ===== src/StagedMap/Decoded.antt =====
-- What the codec accepts to be read: a record is decoded exactly where its bytes stand in the buffer.
use revlink_sidecar.Base.{
  All, uint32_max, length, length-read_at, read_at-All, le_bytes, of_le_bytes, le_bytes-of_le_bytes,
  of_le_bytes-le_bytes, ap, sym, subst, ◌∙◌, ◌<◌, ◌+◌, true, [], ◌∷◌, ℕ, ◌≡◌, ◌↔◌, ◌⊎◌, ◌≢◌, ◌≤◌,
  some, List, read_at, replicate, arith,
}
use revlink_sidecar.StagedMap.{
  ok, StagedRecord, magic, version, name_capacity, path_capacity, part_number_capacity,
  serial_capacity, record_bytes,
}
use revlink_sidecar.StagedMap.Codec.{
  valid_kind, rejected, crc32_ieee, decoded, get_strings, get_fields, cleared_record, get_u32,
  decode_checked, decode, offset_crc, offset_magic, offset_version, offset_kind, offset_size,
  offset_sha256, offset_name, offset_destination, offset_part_number, offset_serial, get_string,
}
use revlink_sidecar.StagedMap.Fields.{field, region, IsText, get_string-IsText, get_string-some}

-- The layout of the file: the buffer's first 540 bytes hold the record. Each text of the record is what stands
-- before the NUL, and zeros; the bytes behind the NUL are not read. The last four bytes are the CRC-32 of the
-- other 536.
pub record IsStored (buffer : List ℕ) (r : StagedRecord) : Type 0 where
  pub magic_bytes : read_at 0 4 buffer ≡ b'R' ∷ b'V' ∷ b'L' ∷ b'T' ∷ []
  pub version_bytes : read_at 4 4 buffer ≡ 1 ∷ 0 ∷ 0 ∷ 0 ∷ []
  pub kind_bytes : read_at 8 4 buffer ≡ le_bytes r.kind
  pub size_bytes : read_at 12 4 buffer ≡ le_bytes r.size
  pub digest_bytes : read_at 16 32 buffer ≡ r.sha256
  pub name_text : IsText (read_at 48 128 buffer) 128
  pub name_bytes : r.name ≡ field (read_at 48 128 buffer) 128
  pub destination_text : IsText (read_at 176 256 buffer) 256
  pub destination_bytes : r.destination ≡ field (read_at 176 256 buffer) 256
  pub part_number_text : IsText (read_at 432 40 buffer) 40
  pub part_number_bytes : r.target_part_number ≡ field (read_at 432 40 buffer) 40
  pub serial_text : IsText (read_at 472 64 buffer) 64
  pub serial_bytes : r.target_serial ≡ field (read_at 472 64 buffer) 64
  pub crc_bytes : read_at 536 4 buffer ≡ le_bytes (crc32_ieee (read_at 0 536 buffer))
  pub kind_known : (r.kind ≡ 0) ⊎ (r.kind ≡ 1)
  pub size_set : 0 < r.size
  pub size_fits : r.size ≤ uint32_max

-- What `decode_checked` tests.
record Passes (buffer : List ℕ) (len : ℕ) (r : StagedRecord) : Type 0 where
  whole : record_bytes ≤ len
  magic_ok : get_u32 buffer offset_magic ≡ magic
  version_ok : get_u32 buffer offset_version ≡ version
  crc_ok : get_u32 buffer offset_crc ≡ crc32_ieee (read_at 0 offset_crc buffer)
  fields_ok : get_fields buffer ≡ decoded r

-- A field that is read is the text that stands in the buffer.
get_string-field :
    (buffer : List ℕ) (offset capacity : ℕ) (b : List ℕ)
    → get_string buffer offset capacity (replicate capacity 0) ≡ some b
    → IsText (region buffer offset capacity) capacity
      × (b ≡ field (region buffer offset capacity) capacity)
get_string-field buffer offset capacity b h =
    let text = get_string-some buffer offset capacity (replicate capacity 0) h in
    let e : b ≡ field (region buffer offset capacity) capacity =
      cc (get_string-IsText buffer offset capacity text) in
    (text, e)

get_strings-some :
    (buffer : List ℕ) (kind size : ℕ) (sha256 : List ℕ) (r : StagedRecord)
    → get_strings buffer (cleared_record kind size sha256) ≡ some r
    → (r.kind ≡ kind)
      × (r.size ≡ size)
      × (r.sha256 ≡ sha256)
      × (IsText (region buffer 48 128) 128 × (r.name ≡ field (region buffer 48 128) 128))
      × (IsText (region buffer 176 256) 256 × (r.destination ≡ field (region buffer 176 256) 256))
      × (IsText (region buffer 432 40) 40
          × (r.target_part_number ≡ field (region buffer 432 40) 40))
      × (IsText (region buffer 472 64) 64 × (r.target_serial ≡ field (region buffer 472 64) 64))
unfolding get_strings
get_strings-some buffer kind size sha256 r h = ground (
  arith,
  get_string-field buffer offset_name name_capacity r.name,
  get_string-field buffer offset_destination path_capacity r.destination,
  get_string-field buffer offset_part_number part_number_capacity r.target_part_number,
  get_string-field buffer offset_serial serial_capacity r.target_serial,
)

get_fields-decoded :
    (buffer : List ℕ) (r : StagedRecord)
    → get_fields buffer ≡ decoded r
    → (get_u32 buffer offset_size ≢ 0)
      × (valid_kind (get_u32 buffer offset_kind) ≡ true)
      × (get_strings buffer (
            cleared_record
              (get_u32 buffer offset_kind)
              (get_u32 buffer offset_size)
              (read_at offset_sha256 32 buffer))
          ≡ some r)
unfolding get_fields
get_fields-decoded buffer r h = ground arith

decode_checked-decoded :
    (buffer : List ℕ) (len : ℕ) (r : StagedRecord)
    → decode_checked buffer len ≡ decoded r
    → Passes buffer len r
unfolding decode_checked
decode_checked-decoded buffer len r h = ground arith

decode_checked-ne-rejected_ok :
    (buffer : List ℕ) (len : ℕ) → decode_checked buffer len ≢ rejected ok
unfolding decode_checked get_fields
decode_checked-ne-rejected_ok buffer len h = ground arith

module _ (buffer : List ℕ) (bytes : All (λ (b : ℕ). b < 256) buffer)
    (room : record_bytes ≤ length buffer) where
  word :
      (offset v : ℕ)
      → offset + 4 ≤ record_bytes
      → get_u32 buffer offset ≡ v
      → (read_at offset 4 buffer ≡ le_bytes v) × (v ≤ uint32_max)
  word offset v fits h =
      let read =
        le_bytes-of_le_bytes (read_at offset 4 buffer)
          (length-read_at offset 4 buffer (omega arith))
          (read_at-All (λ (b : ℕ). b < 256) offset 4 buffer bytes) in
      (sym read.0 ∙ ap le_bytes h, subst (λ n. n ≤ uint32_max) h read.1)

  decoded→IsStored : (len : ℕ) (r : StagedRecord) → Passes buffer len r → IsStored buffer r
  unfolding le_bytes
  decoded→IsStored len r p =
      let fields = get_fields-decoded buffer r p.fields_ok in
      let kind = get_u32 buffer offset_kind in
      let size = get_u32 buffer offset_size in
      let (k, z, digest, name, destination, part_number, serial) =
        get_strings-some buffer kind size (read_at offset_sha256 32 buffer) r fields.2 in
      let kind_ok = fields.1 in
      let size_ok = fields.0 in
      record {
        magic_bytes = (word 0 magic (omega arith) p.magic_ok).0;
        version_bytes = (word 4 version (omega arith) p.version_ok).0;
        kind_bytes = (word 8 r.kind (omega arith) (sym k)).0;
        size_bytes = (word 12 r.size (omega arith) (sym z)).0;
        digest_bytes = sym digest;
        name_text = name.0;
        name_bytes = name.1;
        destination_text = destination.0;
        destination_bytes = destination.1;
        part_number_text = part_number.0;
        part_number_bytes = part_number.1;
        serial_text = serial.0;
        serial_bytes = serial.1;
        crc_bytes = (word 536 (crc32_ieee (read_at 0 536 buffer)) (omega arith) p.crc_ok).0;
        kind_known = ground arith;
        size_set = ground arith;
        size_fits = (word 12 r.size (omega arith) (sym z)).1;
      }

read_word :
    (buffer : List ℕ) (offset v : ℕ)
    → read_at offset 4 buffer ≡ le_bytes v
    → v ≤ uint32_max
    → get_u32 buffer offset ≡ v
read_word buffer offset v h m = ap of_le_bytes h ∙ of_le_bytes-le_bytes v m

get_strings-IsStored :
    (buffer : List ℕ) (r : StagedRecord)
    → IsStored buffer r
    → get_strings buffer (cleared_record r.kind r.size r.sha256) ≡ some r
unfolding get_strings
get_strings-IsStored buffer r h =
    let name = h.name_bytes in
    let destination = h.destination_bytes in
    let part_number = h.part_number_bytes in
    let serial = h.serial_bytes in
    ground (
      arith,
      get_string-IsText buffer 48 128 h.name_text,
      get_string-IsText buffer 176 256 h.destination_text,
      get_string-IsText buffer 432 40 h.part_number_text,
      get_string-IsText buffer 472 64 h.serial_text,
    )

IsStored→decoded :
    (buffer : List ℕ) (len : ℕ) (r : StagedRecord)
    → record_bytes ≤ len
    → IsStored buffer r
    → decode_checked buffer len ≡ decoded r
unfolding decode_checked get_fields crc32_ieee le_bytes
IsStored→decoded buffer len r whole h =
    let kind_known = h.kind_known in
    let size_set = h.size_set in
    let digest = h.digest_bytes in
    let first : get_u32 buffer 0 ≡ magic = read_word buffer 0 magic h.magic_bytes (omega arith) in
    let second : get_u32 buffer 4 ≡ version =
      read_word buffer 4 version h.version_bytes (omega arith) in
    let kind : get_u32 buffer 8 ≡ r.kind = read_word buffer 8 r.kind h.kind_bytes (ground arith) in
    let size : get_u32 buffer 12 ≡ r.size = read_word buffer 12 r.size h.size_bytes h.size_fits in
    let crc : get_u32 buffer 536 ≡ crc32_ieee (read_at 0 536 buffer) =
      read_word buffer 536 (crc32_ieee (read_at 0 536 buffer)) h.crc_bytes (omega arith) in
    ground (arith, get_strings-IsStored buffer r h)

-- A buffer of bytes, of which at least 540 are there, is decoded to a record exactly where the caller says
-- that there are 540 and they hold the record: the magic and the version come first, the record's kind, size,
-- digest and texts stand in their places, and behind them the CRC-32 of all of these; the kind is known, the
-- size is not zero and no text is empty, so the record names an AccessPort.
pub decode_ok :
    (buffer : List ℕ) (len : ℕ) (old r : StagedRecord)
    → All (λ (b : ℕ). b < 256) buffer
    → record_bytes ≤ length buffer
    → (decode (some buffer) len (some old) ≡ (ok, some r))
      ↔ (record_bytes ≤ len) × IsStored buffer r
unfolding decode
decode_ok buffer len old r bytes room = (
  λ h.
      let p =
        decode_checked-decoded buffer len r
          (ground (arith, decode_checked-ne-rejected_ok buffer len)) in
      (p.whole, decoded→IsStored buffer bytes room len r p),
  λ h. ground (arith, IsStored→decoded buffer len r h.0 h.1),
)
