-- ===== src/Sync/History/File.antt =====
-- The history's text file: a header with the next sequence number, then a line of tab-separated fields for
-- each version. Version 1 lacks the first sync.
use revlink_sidecar.Base.{
  ℕ, ltb, leb, ◌==◌, not, if◌then◌else◌, Bool, true, false, ◌&&◌, ◌||◌, Option, none, some, ◌>>=◌,
  List, [], ◌∷◌, ◌++◌, length, get_or, drop, mem_eq, text_of, uint32_max, uint64_max,
}
use revlink_sidecar.Sync.Text.{
  codes, valid_path, valid_name, name_capacity, sha256_bytes, parse_number, decimal, print_hex,
  parse_hex, split_fields, take_line,
}
use revlink_sidecar.Sync.Text.Output.{Output, refused, append_bytes, append_pieces, then_write}
use revlink_sidecar.Sync.Text.Writing.{write_all}
use revlink_sidecar.Sync.Loop.{read_lines}
use revlink_sidecar.Sync.Manifest.{
  ManifestStatus, ok, invalid_argument, invalid_format, capacity_exceeded, allocation_failed,
}
use revlink_sidecar.Sync.Manifest.File.{Written, report}
use revlink_sidecar.Sync.History.{HistoryEntry, History, history_capacity}

abbrev pub header_prefix_v1 : List ℕ
header_prefix_v1 = codes "REVLINK-HISTORY\t1\t"

abbrev pub header_prefix_v2 : List ℕ
header_prefix_v2 = codes "REVLINK-HISTORY\t2\t"

-- `char prefix[REVLINK_SYNC_PATH_CAPACITY + 80U]`, with the NUL.
abbrev pub prefix_capacity : ℕ
prefix_capacity = 336

-- `"%s%u\n"`. With the ten digits of a `uint32_t` it is never as long as its buffer of 64.
unfoldable pub header_line : ℕ → List ℕ
header_line next_sequence = header_prefix_v2 ++ (decimal next_sequence ++ b'\n' ∷ [])

-- `"%u\t%s\t%u\t%u\t%llu\t"`.
unfoldable pub entry_prefix : HistoryEntry → List ℕ
entry_prefix e =
    decimal e.sequence
    ++ b'\t'
      ∷ (e.path
          ++ b'\t'
            ∷ (decimal e.device_time_raw
                ++ b'\t' ∷ (decimal e.size ++ b'\t' ∷ (decimal e.initial_sync_utc ++ b'\t' ∷ []))))

-- The five calls of `APPEND` for an entry.
abbrev pub entry_pieces : HistoryEntry → List (List ℕ)
entry_pieces e =
    entry_prefix e ∷ print_hex e.sha256 ∷ (b'\t' ∷ []) ∷ e.object_name ∷ (b'\n' ∷ []) ∷ []

unfoldable pub write_entry : ℕ → HistoryEntry → List ℕ → Output
write_entry capacity e out =
    if e.sequence == 0
      || e.size == 0
      || not (valid_path (some e.path))
      || not (valid_name (some e.object_name))
    then refused out
    else if leb prefix_capacity (length (entry_prefix e))
    then refused out
    else append_pieces capacity (entry_pieces e) out

unfoldable pub write_entries : ℕ → List HistoryEntry → List ℕ → Output
write_entries capacity es out = write_all (write_entry capacity) es out

-- `has_output` and `has_length` say whether the pointers are not NULL.
unfoldable pub serialize : History → Bool → ℕ → Bool → Written
serialize h has_output capacity has_length =
    if not has_length
      || (not has_output && not (capacity == 0))
      || ltb history_capacity (length h.entries)
      || h.next_sequence == 0
    then record { status = invalid_argument; output = []; output_length = none }
    else if leb 64 (length (header_line h.next_sequence))
    then record { status = invalid_argument; output = []; output_length = none }
    else report (
        then_write (append_bytes capacity (header_line h.next_sequence) [])
          (write_entries capacity h.entries))

abbrev pub has_prefix : List ℕ → List ℕ → Bool
has_prefix prefix input = ltb (length prefix) (length input) && mem_eq (length prefix) input prefix

-- Whether the file has version two, the next sequence number, and what follows the header.
abbrev pub read_next : Bool → List ℕ → Option (Bool × ℕ × List ℕ)
read_next version_two text = take_line text >>= (λ cut.
    parse_number 10 uint32_max cut.0
    >>= (λ next. if next == 0 then none else some (version_two, next, cut.1)))

-- The prefixes hold no newline, so the first newline of the file is the first one after them.
unfoldable pub read_header : List ℕ → Option (Bool × ℕ × List ℕ)
read_header input =
    if has_prefix header_prefix_v2 input
    then read_next true (drop (length header_prefix_v2) input)
    else if has_prefix header_prefix_v1 input
    then read_next false (drop (length header_prefix_v1) input)
    else none

abbrev pub parse_sync_time : Bool → List ℕ → Option ℕ
parse_sync_time version_two text = if version_two then parse_number 20 uint64_max text else some 0

abbrev pub expected_fields : Bool → ℕ
expected_fields version_two = if version_two then 7 else 6

abbrev pub digest_field : Bool → ℕ
digest_field version_two = if version_two then 5 else 4

abbrev pub object_field : Bool → ℕ
object_field version_two = if version_two then 6 else 5

-- What the fields of a line say, but for the tests of the sequence number's order, of the object's name
-- and of the room.
unfoldable pub parse_fields : Bool → List (List ℕ) → Option HistoryEntry
parse_fields version_two fields =
    let field : ℕ → List ℕ = λ i. get_or fields i [] in
    let name = field (object_field version_two) in
    if not (length fields == expected_fields version_two)
      || not (valid_path (some (field 1)))
      || leb name_capacity (length name)
    then none
    else parse_number 10 uint32_max (field 0) >>= (λ sequence.
      parse_number 10 uint32_max (field 2) >>= (λ device_time_raw.
        parse_number 10 uint32_max (field 3) >>= (λ size.
          parse_sync_time version_two (field 4) >>= (λ utc.
            parse_hex sha256_bytes (field (digest_field version_two)) >>= (λ digest.
              if size == 0
              then none
              else some (record {
                sequence = sequence;
                path = field 1;
                device_time_raw = device_time_raw;
                size = size;
                initial_sync_utc = utc;
                sha256 = digest;
                object_name = text_of name (length name);
              }))))))

-- The entries so far and the highest sequence number among them.
pub record Parsed : Type 0 where
  pub entries : List HistoryEntry
  pub highest_sequence : ℕ

unfoldable pub load_entry : HistoryEntry → Parsed → ManifestStatus × Parsed
load_entry e p =
    if e.sequence == 0 || leb e.sequence p.highest_sequence
    then (invalid_format, p)
    else if leb history_capacity (length p.entries)
    then (capacity_exceeded, p)
    else if not (valid_name (some e.object_name))
    then (invalid_format, p)
    else (ok, record { entries = p.entries ++ e ∷ []; highest_sequence = e.sequence })

abbrev pub load_parsed : Parsed → Option HistoryEntry → ManifestStatus × Parsed
load_parsed p none = (invalid_format, p)
load_parsed p (some e) = load_entry e p

unfoldable pub parse_line : Bool → List ℕ → Parsed → ManifestStatus × Parsed
parse_line version_two line p =
    if length line == 0
    then (invalid_format, p)
    else load_parsed p (split_fields 7 [] line >>= parse_fields version_two)

-- The loop over the lines. Its fuel, the text's length, is enough.
unfoldable pub parse_lines : Bool → List ℕ → Parsed → ManifestStatus × Parsed
parse_lines version_two text p = read_lines (parse_line version_two) (length text) text p

-- The history is replaced only where the whole file was read and its sequence numbers stay below the next.
unfoldable pub keep_parsed : History → ℕ → ManifestStatus × Parsed → ManifestStatus × History
keep_parsed h next (ok, p) =
    if leb next p.highest_sequence
    then (invalid_format, h)
    else (ok, record { entries = p.entries; next_sequence = next })
keep_parsed h next (status, p) = (status, h)

-- The rest of `revlink_sync_history_parse`, after the header. `allocated` says whether `calloc` has the memory.
unfoldable pub load_rest : Bool → History → Option (Bool × ℕ × List ℕ) → ManifestStatus × History
load_rest allocated h none = (invalid_format, h)
load_rest allocated h (some (version_two, next, rest)) =
    if not allocated
    then (allocation_failed, h)
    else keep_parsed h next
        (parse_lines version_two rest (record { entries = []; highest_sequence = 0 }))

unfoldable pub parse : Option (List ℕ) → Bool → History → ManifestStatus × History
parse none allocated h = (invalid_format, h)
parse (some input) allocated h = load_rest allocated h (read_header input)
