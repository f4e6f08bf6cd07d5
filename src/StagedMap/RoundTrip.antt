-- ===== src/StagedMap/RoundTrip.antt =====
-- A record that is written to the card is read back.
use revlink_sidecar.Base.{
  ℕ, ◌+◌, ◌≡◌, ◌≢◌, ◌≤◌, refl, sym, ap, ◌∙◌, subst, true, some, List, [], ◌∷◌, read_at, write_at,
  replicate, length, length-write_at, arith, le_bytes, length-le_bytes, of_le_bytes,
  of_le_bytes-le_bytes, uint32_max, Segment, write_all, IsLaidOut, segment_at?, read_at-write_all,
  length-write_all, read_at-write_at_after, read_at-write_at_self,
}
use revlink_sidecar.StagedMap.{
  ok, StagedRecord, HasCType, magic, version, name_capacity, path_capacity, part_number_capacity,
  serial_capacity, record_bytes,
}
use revlink_sidecar.StagedMap.Codec.{
  crc32_ieee, valid_kind, put_header, put_strings, put_crc, encode_checked, encode, decoded,
  get_strings, get_fields, cleared_record, get_u32, decode_checked, decode, offset_crc, offset_kind,
  offset_size, offset_sha256, get_string,
}
use revlink_sidecar.StagedMap.Fields.{
  field, IsText, length-field, strnlen-field, field-field, put_string-IsText, get_string-IsText,
}

-- What the code asks of a record before it writes it.
pub record IsEncodable (r : StagedRecord) : Type 0 where
  pub size_set : r.size ≢ 0
  pub kind_known : valid_kind r.kind ≡ true
  pub name_text : IsText r.name name_capacity
  pub destination_text : IsText r.destination path_capacity
  pub part_number_text : IsText r.target_part_number part_number_capacity
  pub serial_text : IsText r.target_serial serial_capacity

-- The record as it comes back: the bytes behind each NUL are zero.
abbrev pub canonical : StagedRecord → StagedRecord
canonical r = record r {
  name = field r.name name_capacity;
  destination = field r.destination path_capacity;
  target_part_number = field r.target_part_number part_number_capacity;
  target_serial = field r.target_serial serial_capacity;
}

abbrev pub cleared : List ℕ → List ℕ
cleared buffer = write_at 0 (replicate record_bytes 0) buffer

abbrev pub segments : StagedRecord → List Segment
segments r =
    (0, le_bytes magic)
    ∷ (4, le_bytes version)
    ∷ (8, le_bytes r.kind)
    ∷ (12, le_bytes r.size)
    ∷ (16, r.sha256)
    ∷ (48, field r.name name_capacity)
    ∷ (176, field r.destination path_capacity)
    ∷ (432, field r.target_part_number part_number_capacity)
    ∷ (472, field r.target_serial serial_capacity)
    ∷ []

segments-IsLaidOut : (r : StagedRecord) → HasCType r → IsLaidOut 0 536 (segments r)
segments-IsLaidOut r t = omega (
  arith,
  length-le_bytes,
  length-field r.name name_capacity,
  length-field r.destination path_capacity,
  length-field r.target_part_number part_number_capacity,
  length-field r.target_serial serial_capacity,
)

put_strings-IsEncodable :
    (r : StagedRecord) (buffer : List ℕ)
    → IsEncodable r
    → put_strings r (put_header r buffer) ≡ some (write_all (segments r) (cleared buffer))
unfolding put_strings put_header
put_strings-IsEncodable r buffer e = simp (
  put_string-IsText _ 48 name_capacity r.name e.name_text,
  put_string-IsText _ 176 path_capacity r.destination e.destination_text,
  put_string-IsText _ 432 part_number_capacity r.target_part_number e.part_number_text,
  put_string-IsText _ 472 serial_capacity r.target_serial e.serial_text,
)

-- The finished buffer.
abbrev pub encoded : StagedRecord → List ℕ → List ℕ
encoded r buffer = put_crc (write_all (segments r) (cleared buffer))

pub encode_checked-IsEncodable :
    (r : StagedRecord) (buffer : List ℕ)
    → IsEncodable r
    → encode_checked r buffer ≡ (ok, encoded r buffer)
unfolding encode_checked
encode_checked-IsEncodable r buffer e = ground (arith, put_strings-IsEncodable r buffer e)

module _ (r : StagedRecord) (buffer : List ℕ) (t : HasCType r)
    (fits : record_bytes ≤ length buffer) where
  -- A field of the finished buffer reads as it was written.
  read_at-encoded :
      (k : ℕ) {o : ℕ} {bs : List ℕ}
      → segment_at? (segments r) k ≡ some (o, bs)
      → o + length bs ≤ 536
      → read_at o (length bs) (encoded r buffer) ≡ bs
  read_at-encoded k {o} {bs} s h =
      read_at-write_at_after o (length bs) 536
        (le_bytes (crc32_ieee (read_at 0 offset_crc (write_all (segments r) (cleared buffer)))))
        (write_all (segments r) (cleared buffer)) h
      ∙ read_at-write_all k 0 536 (segments r) (cleared buffer) (segments-IsLaidOut r t)
          (omega (arith, length-write_at 0 (replicate record_bytes 0) buffer)) s

  get_u32-encoded :
      (k : ℕ) {o v : ℕ}
      → segment_at? (segments r) k ≡ some (o, le_bytes v)
      → o + 4 ≤ 536
      → v ≤ uint32_max
      → get_u32 (encoded r buffer) o ≡ v
  get_u32-encoded k {o} {v} s h m =
      ap of_le_bytes (
        subst (λ n. read_at o n (encoded r buffer) ≡ le_bytes v) (length-le_bytes v)
          (read_at-encoded k s (omega (arith, length-le_bytes))))
      ∙ of_le_bytes-le_bytes v m

  crc-encoded :
      get_u32 (encoded r buffer) offset_crc ≡ crc32_ieee (read_at 0 offset_crc (encoded r buffer))
  unfolding crc32_ieee
  crc-encoded =
      ap of_le_bytes (
        subst (λ n. read_at 536 n (encoded r buffer) ≡ le_bytes crc) (length-le_bytes crc)
          (read_at-write_at_self 536 (le_bytes crc) body (
            omega (
              arith,
              length-le_bytes,
              length-write_all (segments r) (cleared buffer),
              length-write_at 0 (replicate record_bytes 0) buffer,
            ))))
      ∙ of_le_bytes-le_bytes crc (omega arith)
      ∙ ap crc32_ieee (sym (read_at-write_at_after 0 536 536 (le_bytes crc) body (omega arith)))
    where
      body : List ℕ
      body = write_all (segments r) (cleared buffer)

      crc : ℕ
      crc = crc32_ieee (read_at 0 offset_crc body)

  get_string-encoded :
      (k : ℕ) {o : ℕ} (v : List ℕ) (capacity : ℕ)
      → segment_at? (segments r) k ≡ some (o, field v capacity)
      → o + capacity ≤ 536
      → IsText v capacity
      → get_string (encoded r buffer) o capacity (replicate capacity 0) ≡ some (field v capacity)
  get_string-encoded k {o} v capacity s h (full, ends) =
      get_string-IsText (encoded r buffer) o capacity (
        subst (λ f. IsText f capacity) (sym region)
          (
            omega (arith, strnlen-field v capacity ends),
            omega (arith, strnlen-field v capacity ends),
          ))
      ∙ ap (λ f. some (field f capacity)) region
      ∙ ap some (field-field v capacity ends)
    where
      region : read_at o capacity (encoded r buffer) ≡ field v capacity
      region =
          subst (λ n. read_at o n (encoded r buffer) ≡ field v capacity) (length-field v capacity)
            (read_at-encoded k s (omega (arith, length-field v capacity)))

  sha256-encoded : read_at offset_sha256 32 (encoded r buffer) ≡ r.sha256
  sha256-encoded =
      subst (λ n. read_at 16 n (encoded r buffer) ≡ r.sha256) t.sha256_len
        (read_at-encoded 4 refl (omega (arith, t.sha256_len)))

  get_strings-encoded :
      IsEncodable r
      → get_strings (encoded r buffer) (cleared_record r.kind r.size r.sha256) ≡ some (canonical r)
  unfolding get_strings
  get_strings-encoded e = simp (
    get_string-encoded 5 r.name name_capacity refl (omega arith) e.name_text,
    get_string-encoded 6 r.destination path_capacity refl (omega arith) e.destination_text,
    get_string-encoded 7 r.target_part_number part_number_capacity refl (omega arith)
        e.part_number_text,
    get_string-encoded 8 r.target_serial serial_capacity refl (omega arith) e.serial_text,
  )

  kind-le : valid_kind r.kind ≡ true → r.kind ≤ uint32_max
  kind-le h = ground arith

  get_fields-encoded : IsEncodable r → get_fields (encoded r buffer) ≡ decoded (canonical r)
  unfolding get_fields
  get_fields-encoded e = ground (
    arith,
    get_u32-encoded 2 {o = offset_kind} {v = r.kind} refl (omega arith) (kind-le e.kind_known),
    get_u32-encoded 3 {o = offset_size} {v = r.size} refl (omega arith) t.size_u32,
    sha256-encoded,
    get_strings-encoded e,
  )

  decode_checked-encoded :
      IsEncodable r → decode_checked (encoded r buffer) record_bytes ≡ decoded (canonical r)
  unfolding decode_checked
  decode_checked-encoded e = ground (
    arith,
    get_u32-encoded 0 {o = 0} {v = magic} refl (omega arith) (omega arith),
    get_u32-encoded 1 {o = 4} {v = version} refl (omega arith) (omega arith),
    crc-encoded,
    get_fields-encoded e,
  )

-- Encoding a record of the C type that meets the code's conditions, into any buffer of at least 540
-- bytes and with any capacity of at least 540, succeeds and reports 540 bytes; decoding what it wrote
-- gives back the record, its texts padded with zeros behind the NUL.
pub decode-encode :
    (r old : StagedRecord) (buffer : List ℕ) (capacity : ℕ)
    → HasCType r
    → IsEncodable r
    → record_bytes ≤ length buffer
    → record_bytes ≤ capacity
    → (b : List ℕ) × (encode (some r) (some buffer) capacity ≡ (ok, some b, some record_bytes))
      × (decode (some b) record_bytes (some old) ≡ (ok, some (canonical r)))
unfolding encode decode
decode-encode r old buffer capacity t e fits room = (
  encoded r buffer,
  ground (arith, encode_checked-IsEncodable r buffer e),
  ground (arith, decode_checked-encoded r buffer t fits e),
)
