-- ===== src/Sync/History/Loaded.antt =====
-- What the lines of the history's file give: entries that are valid and rise in number.
use revlink_sidecar.Base.{
  ℕ, ◌≡◌, ◌≤◌, ◌<◌, inl, inr, leb, ◌==◌, not, ◌||◌, Bool, Bool-cases, true, Option, none, some,
  ◌>>=◌, List, [], ◌∷◌, ◌++◌, length, length-append, get_or, All, All-append, All-map, Pairwise,
  Pairwise-append, uint32_max, uint64_max, arith,
}
use revlink_sidecar.Sync.Text.{
  valid_path, valid_name, name_capacity, sha256_bytes, parse_number, parse_hex, split_fields,
}
use revlink_sidecar.Sync.Text.Numbers.{parse_number_le}
use revlink_sidecar.Sync.Text.Digests.{parse_hex-IsBytes}
use revlink_sidecar.Sync.Loop.{OnSome, bind-OnSome, if-OnSome}
use revlink_sidecar.Sync.History.{HistoryEntry, history_capacity}
use revlink_sidecar.Sync.History.File.{
  parse_sync_time, expected_fields, digest_field, object_field, parse_fields, Parsed, load_entry,
  load_parsed, parse_line,
}
use revlink_sidecar.Sync.History.Sound.{IsValid, Precedes}

-- What a line's fields say can stand in an entry, but for its name and its number, which are tested later.
record IsRead (e : HistoryEntry) : Type 0 where
  path_valid : valid_path (some e.path) ≡ true
  not_empty : 0 < e.size
  sequence_fits : e.sequence ≤ uint32_max
  device_time_fits : e.device_time_raw ≤ uint32_max
  size_fits : e.size ≤ uint32_max
  sync_time_fits : e.initial_sync_utc ≤ uint64_max
  digest_length : length e.sha256 ≡ sha256_bytes
  digest_bytes : All (λ (b : ℕ). b < 256) e.sha256

sync_time_le :
    (version_two : Bool) (text : List ℕ) (utc : ℕ)
    → parse_sync_time version_two text ≡ some utc
    → utc ≤ uint64_max
sync_time_le version_two text utc h = ground (arith, parse_number_le 20 uint64_max text utc)

-- The entries so far rise to the highest number.
pub record IsParsed (p : Parsed) : Type 0 where
  pub valid : All IsValid p.entries
  pub rising : Pairwise Precedes p.entries
  pub below : All (λ (e : HistoryEntry). e.sequence ≤ p.highest_sequence) p.entries
  pub within : length p.entries ≤ history_capacity

parse_fields-IsRead :
    (version_two : Bool) (fields : List (List ℕ)) → OnSome IsRead (parse_fields version_two fields)
unfolding parse_fields
parse_fields-IsRead version_two fields =
    let field : ℕ → List ℕ = λ i. get_or fields i [] in
    let name = field (object_field version_two) in
    if-OnSome IsRead
      (not (length fields == expected_fields version_two)
        || not (valid_path (some (field 1)))
        || leb name_capacity (length name))
      _
      (λ good. bind-OnSome IsRead (parse_number 10 uint32_max (field 0)) _ (λ sequence n.
        bind-OnSome IsRead (parse_number 10 uint32_max (field 2)) _ (λ device_time_raw t.
          bind-OnSome IsRead (parse_number 10 uint32_max (field 3)) _ (λ size z.
            bind-OnSome IsRead (parse_sync_time version_two (field 4)) _ (λ utc u.
              bind-OnSome IsRead (parse_hex sha256_bytes (field (digest_field version_two))) _
                (λ digest d. if-OnSome IsRead (size == 0) _ (λ big. record {
                  path_valid = ground arith;
                  not_empty = ground arith;
                  sequence_fits = parse_number_le 10 uint32_max (field 0) sequence (omega arith) n;
                  device_time_fits =
                      parse_number_le 10 uint32_max (field 2) device_time_raw (omega arith) t;
                  size_fits = parse_number_le 10 uint32_max (field 3) size (omega arith) z;
                  sync_time_fits = sync_time_le version_two (field 4) utc u;
                  digest_length =
                      (parse_hex-IsBytes sha256_bytes (field (digest_field version_two)) digest
                        d).0;
                  digest_bytes =
                      (parse_hex-IsBytes sha256_bytes (field (digest_field version_two)) digest
                        d).1;
                })))))))

append-IsParsed :
    (e : HistoryEntry) (p : Parsed)
    → IsRead e
    → IsParsed p
    → (p.highest_sequence < e.sequence) × (valid_name (some e.object_name) ≡ true)
    → length p.entries < history_capacity
    → IsParsed (record { entries = p.entries ++ e ∷ []; highest_sequence = e.sequence })
append-IsParsed e p r s good room = record {
  valid = All-append IsValid p.entries (e ∷ []) s.valid (
    record {
      path_valid = r.path_valid;
      name_valid = good.1;
      not_empty = r.not_empty;
      numbered = let above = good.0 in omega arith;
      sequence_fits = r.sequence_fits;
      device_time_fits = r.device_time_fits;
      size_fits = r.size_fits;
      sync_time_fits = r.sync_time_fits;
      digest_length = r.digest_length;
      digest_bytes = r.digest_bytes;
    },
    tt,
  );
  rising =
      Pairwise-append Precedes p.entries (e ∷ []) s.rising (tt, tt)
        (All-map (λ (x : HistoryEntry). x.sequence ≤ p.highest_sequence)
          (λ (x : HistoryEntry). All (Precedes x) (e ∷ [])) p.entries
          (λ x le. (let above = good.0 in omega arith, tt)) s.below);
  below =
      All-append (λ (x : HistoryEntry). x.sequence ≤ e.sequence) p.entries (e ∷ [])
        (All-map (λ (x : HistoryEntry). x.sequence ≤ p.highest_sequence)
          (λ (x : HistoryEntry). x.sequence ≤ e.sequence) p.entries
          (λ x le. let above = good.0 in omega arith) s.below)
        (omega arith, tt);
  within = let l = length-append p.entries (e ∷ []) in omega arith;
}

load_entry-IsParsed :
    (e : HistoryEntry) (p : Parsed) → IsRead e → IsParsed p → IsParsed (load_entry e p).1
unfolding load_entry
load_entry-IsParsed e p r s =
    elim (Bool-cases (e.sequence == 0 || leb e.sequence p.highest_sequence)) [
      | inl low ↦ rw low s
      | inr above ↦ elim (Bool-cases (leb history_capacity (length p.entries))) [
        | inl no_room ↦ rw (above, no_room) s
        | inr room ↦ elim (Bool-cases (not (valid_name (some e.object_name)))) [
          | inl bad ↦ rw (above, room, bad) s
          | inr good ↦
              rw (above, room, good)
                (append-IsParsed e p r s (ground arith, ground arith) (ground arith))
        ]
      ]
    ]

pub parse_line-IsParsed :
    (version_two : Bool) (line : List ℕ) (p : Parsed)
    → IsParsed p
    → IsParsed (parse_line version_two line p).1
unfolding parse_line
parse_line-IsParsed version_two line p s = elim (Bool-cases (length line == 0)) [
  | inl empty ↦ rw empty s
  | inr long ↦ rw long (
      go (split_fields 7 [] line >>= parse_fields version_two) (
        bind-OnSome IsRead (split_fields 7 [] line) (parse_fields version_two)
          (λ fields _. parse_fields-IsRead version_two fields)))
]
  where
    go : (o : Option HistoryEntry) → OnSome IsRead o → IsParsed (load_parsed p o).1
    go none h = s
    go (some e) h = load_entry-IsParsed e p h s
