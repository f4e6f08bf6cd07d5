-- ===== src/Sync/Manifest/File.antt =====
-- The manifest's text file: a header line, then a line of tab-separated fields for each entry. Versions 1
-- and 2 lack the first sync and the presence.
use revlink_sidecar.Base.{
  ℕ, ltb, leb, ◌==◌, not, if◌then◌else◌, Bool, ◌&&◌, ◌||◌, Option, none, some, ◌>>=◌, List, [], ◌∷◌,
  ◌++◌, length, get_or, drop, mem_eq, text_of, uint32_max, uint64_max,
}
use revlink_sidecar.Sync.Text.{
  codes, valid_path, valid_name, name_capacity, sha256_bytes, parse_number, decimal, print_hex,
  parse_hex, split_fields,
}
use revlink_sidecar.Sync.Text.Output.{
  Output, wrote, too_small, refused, append_bytes, append_pieces, then_write,
}
use revlink_sidecar.Sync.Text.Writing.{write_all}
use revlink_sidecar.Sync.Loop.{read_lines}
use revlink_sidecar.Sync.Manifest.{
  ManifestStatus, ok, invalid_argument, invalid_format, capacity_exceeded, buffer_too_small,
  allocation_failed, Presence, unknown, on_device, absent, Entry, Manifest, manifest_capacity, init,
  upsert_at, set_presence,
}

abbrev pub header_v1 : List ℕ
header_v1 = codes "REVLINK-MANIFEST\t1\n"

abbrev pub header_v2 : List ℕ
header_v2 = codes "REVLINK-MANIFEST\t2\n"

abbrev pub header_v3 : List ℕ
header_v3 = codes "REVLINK-MANIFEST\t3\n"

-- `char prefix[REVLINK_SYNC_PATH_CAPACITY + 64U]`, with the NUL.
abbrev pub prefix_capacity : ℕ
prefix_capacity = 320

-- `"%s\t%u\t%u\t%llu\t"`.
unfoldable pub entry_prefix : Entry → List ℕ
entry_prefix e =
    e.path
    ++ b'\t'
      ∷ (decimal e.device_time_raw
          ++ b'\t' ∷ (decimal e.size ++ b'\t' ∷ (decimal e.initial_sync_utc ++ b'\t' ∷ [])))

abbrev pub presence_text : Presence → List ℕ
presence_text on_device = b'1' ∷ []
presence_text absent = b'2' ∷ []
presence_text unknown = b'0' ∷ []

-- The seven calls of `APPEND_BYTES` for an entry.
abbrev pub entry_pieces : Entry → List (List ℕ)
entry_pieces e =
    entry_prefix e
    ∷ print_hex e.sha256
    ∷ (b'\t' ∷ [])
    ∷ e.cache_name
    ∷ (b'\t' ∷ [])
    ∷ presence_text e.presence
    ∷ (b'\n' ∷ [])
    ∷ []

unfoldable pub write_entry : ℕ → Entry → List ℕ → Output
write_entry capacity e out =
    if not (valid_path (some e.path)) || not (valid_name (some e.cache_name)) || e.size == 0
    then refused out
    else if leb prefix_capacity (length (entry_prefix e))
    then refused out
    else append_pieces capacity (entry_pieces e) out

unfoldable pub write_entries : ℕ → List Entry → List ℕ → Output
write_entries capacity es out = write_all (write_entry capacity) es out

-- The buffer's bytes that were written, and `*output_length` where it is set.
pub record Written : Type 0 where
  pub status : ManifestStatus
  pub output : List ℕ
  pub output_length : Option ℕ

abbrev pub report : Output → Written
report (wrote out) = record { status = ok; output = out; output_length = some (length out) }
report (too_small out needed) = record {
  status = buffer_too_small;
  output = out;
  output_length = some needed;
}
report (refused out) = record { status = invalid_argument; output = out; output_length = none }

-- `has_output` and `has_length` say whether the pointers are not NULL.
unfoldable pub serialize : Manifest → Bool → ℕ → Bool → Written
serialize m has_output capacity has_length =
    if not has_length
      || (not has_output && not (capacity == 0))
      || ltb manifest_capacity (length m.entries)
    then record { status = invalid_argument; output = []; output_length = none }
    else report (then_write (append_bytes capacity header_v3 []) (write_entries capacity m.entries))

abbrev pub has_header : List ℕ → List ℕ → Bool
has_header header input = leb (length header) (length input) && mem_eq (length header) input header

-- The file's version, and what follows the header.
unfoldable pub read_header : List ℕ → Option (ℕ × List ℕ)
read_header input =
    if has_header header_v3 input
    then some (3, drop (length header_v3) input)
    else if has_header header_v2 input
    then some (2, drop (length header_v2) input)
    else if has_header header_v1 input
    then some (1, drop (length header_v1) input)
    else none

abbrev pub is_version_two : ℕ → Bool
is_version_two version = leb 2 version

abbrev pub expected_fields : ℕ → ℕ
expected_fields version = if version == 3 then 7 else if is_version_two version then 6 else 5

abbrev pub cache_field : ℕ → ℕ
cache_field version = if is_version_two version then 5 else 4

abbrev pub digest_field : ℕ → ℕ
digest_field version = if is_version_two version then 4 else 3

unfoldable pub parse_presence : List ℕ → Option Presence
parse_presence (b ∷ []) =
    if b == b'0'
    then some unknown
    else if b == b'1'
    then some on_device
    else if b == b'2'
    then some absent
    else none
parse_presence text = none

abbrev pub parse_sync_time : ℕ → List ℕ → Option ℕ
parse_sync_time version text =
    if is_version_two version then parse_number 20 uint64_max text else some 0

abbrev pub parse_version_presence : ℕ → List ℕ → Option Presence
parse_version_presence version text = if version == 3 then parse_presence text else some unknown

-- What the fields of a line say. Each test that fails has the same answer.
unfoldable pub parse_fields : ℕ → List (List ℕ) → Option Entry
parse_fields version fields =
    let field : ℕ → List ℕ = λ i. get_or fields i [] in
    let name = text_of (field (cache_field version)) (length (field (cache_field version))) in
    if not (length fields == expected_fields version)
      || not (valid_path (some (field 0)))
      || leb name_capacity (length (field (cache_field version)))
    then none
    else parse_number 10 uint32_max (field 1) >>= (λ device_time_raw.
      parse_number 10 uint32_max (field 2) >>= (λ size.
        parse_sync_time version (field 3) >>= (λ utc.
          parse_hex sha256_bytes (field (digest_field version)) >>= (λ digest.
            parse_version_presence version (field 6) >>= (λ presence.
              if size == 0 || not (valid_name (some name))
              then none
              else some (record {
                path = field 0;
                device_time_raw = device_time_raw;
                size = size;
                initial_sync_utc = utc;
                sha256 = digest;
                cache_name = name;
                presence = presence;
              }))))))

-- What is done after the call of `upsert_at`: the presence is set where it succeeded.
unfoldable pub finish_entry : Entry → ManifestStatus × Manifest → ManifestStatus × Manifest
finish_entry e (ok, stored) = (ok, (set_presence stored (some e.path) e.presence).1)
finish_entry e (capacity_exceeded, stored) = (capacity_exceeded, stored)
finish_entry e (status, stored) = (invalid_format, stored)

unfoldable pub load_entry : Entry → Manifest → ManifestStatus × Manifest
load_entry e parsed = finish_entry e (
    upsert_at parsed (some e.path) e.device_time_raw e.size e.initial_sync_utc (some e.sha256)
      (some e.cache_name))

abbrev pub load_parsed : Manifest → Option Entry → ManifestStatus × Manifest
load_parsed parsed none = (invalid_format, parsed)
load_parsed parsed (some e) = load_entry e parsed

unfoldable pub parse_line : ℕ → List ℕ → Manifest → ManifestStatus × Manifest
parse_line version line parsed =
    if length line == 0
    then (invalid_format, parsed)
    else load_parsed parsed (split_fields 7 [] line >>= parse_fields version)

-- The loop over the lines. Its fuel, the text's length, is enough.
unfoldable pub parse_lines : ℕ → List ℕ → Manifest → ManifestStatus × Manifest
parse_lines version text parsed = read_lines (parse_line version) (length text) text parsed

-- The manifest is replaced only where the whole file was read.
abbrev pub keep_parsed : Manifest → ManifestStatus × Manifest → ManifestStatus × Manifest
keep_parsed m (ok, parsed) = (ok, parsed)
keep_parsed m (status, parsed) = (status, m)

-- The rest of `parse`, after the header. `allocated` says whether `calloc` has the memory.
unfoldable pub load_rest : Bool → Manifest → Option (ℕ × List ℕ) → ManifestStatus × Manifest
load_rest allocated m none = (invalid_format, m)
load_rest allocated m (some (version, rest)) =
    if not allocated then (allocation_failed, m) else keep_parsed m (parse_lines version rest init)

unfoldable pub parse : Option (List ℕ) → Bool → Manifest → ManifestStatus × Manifest
parse none allocated m = (invalid_format, m)
parse (some input) allocated m = load_rest allocated m (read_header input)
