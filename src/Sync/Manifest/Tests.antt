-- ===== src/Sync/Manifest/Tests.antt =====
-- The manifest at concrete inputs.
use revlink_sidecar.Base.{
  length, false, ◌≤◌, ◌<◌, ◌⊎◌, sym, ap, All, All-replicate, uint32_max, uint64_max, if◌then◌else◌,
  arith,
}
use revlink_sidecar.Sync.Text.Output.{wrote}
use revlink_sidecar.Sync.Manifest.File.{report}
use revlink_sidecar.Sync.Manifest.Catalogue.{view}
use revlink_sidecar.Sync.Manifest.Sound.{IsTyped, IsSound}
use revlink_sidecar.Sync.Manifest.Writing.{manifest_text, IsRefused, serialize-room}
use revlink_sidecar.Sync.Manifest.RoundTrip.{parse-serialize}
use revlink_sidecar.Sync.Manifest.Reading.{IsLeft, parse-IsSound, parse_lines_fuel}
use revlink_sidecar.Sync.Loop.Lines.{IsCut, load_lines}
use revlink_sidecar.Sync.Manifest.Run.{
  storing, marking, dropping, run, change_view, view-run, Event, changing, loading, run_all,
  run_all-IsSound,
}
use revlink_sidecar.Base.{ℕ, ◌≡◌, refl, true, some, List, [], ◌∷◌, replicate}
use revlink_sidecar.Base.{mem_eq, strnlen}
use revlink_sidecar.Sync.Text.{
  codes, take_line, split_fields, parse_number, parse_digits, parse_hex, parse_pairs, hex_value,
  valid_path, valid_name, path_byte, name_byte, decimal_in, print_hex,
}
use revlink_sidecar.Sync.Text.Output.{append_pieces, append_bytes}
use revlink_sidecar.Sync.Text.Writing.{write_all}
use revlink_sidecar.Sync.Loop.{read_lines}
use revlink_sidecar.Sync.Manifest.{
  Entry, ok, on_device, absent, Manifest, init, upsert_at, set_presence, store_entry, place_entry,
  update_entry, same_path, keep_known,
}
use revlink_sidecar.Sync.Manifest.File.{
  serialize, parse, read_header, parse_lines, parse_line, parse_fields, parse_presence, load_entry,
  load_rest, finish_entry, write_entries, write_entry, entry_prefix,
}

abbrev log_path : List ℕ
log_path = codes "/logs/Run (1).csv"

abbrev map_path : List ℕ
map_path = codes "/maps/Stage-2.ptm"

abbrev log_entry : Entry
log_entry = record {
  path = log_path;
  device_time_raw = 1700000000;
  size = 4096;
  initial_sync_utc = 1750000000;
  sha256 = replicate 32 0xa7;
  cache_name = codes "run_1.csv";
  presence = on_device;
}

abbrev map_entry : Entry
map_entry = record {
  path = map_path;
  device_time_raw = 0;
  size = 1;
  initial_sync_utc = 0;
  sha256 = replicate 32 0x0f;
  cache_name = codes "stage-2.ptm";
  presence = absent;
}

abbrev two_files : Manifest
two_files = record { entries = log_entry ∷ map_entry ∷ [] }

two_files-round :
    parse (some (serialize two_files true 4096 true).output) true init ≡ (ok, two_files)
unfolding parse read_header parse_lines read_lines write_all take_line parse_line parse_fields
    split_fields parse_number parse_digits parse_hex parse_pairs hex_value parse_presence load_entry
    load_rest finish_entry upsert_at store_entry place_entry update_entry same_path mem_eq strnlen
    valid_path valid_name path_byte name_byte set_presence keep_known serialize write_entries
    write_entry append_pieces append_bytes entry_prefix decimal_in print_hex
two_files-round = refl

is_typed :
    (e : Entry)
    → (e.device_time_raw ≤ uint32_max) × (e.size ≤ uint32_max) × (e.initial_sync_utc ≤ uint64_max)
    → (length e.sha256 ≡ 32) × All (λ (b : ℕ). b < 256) e.sha256
    → IsTyped e
is_typed e n d = record {
  device_time_fits = n.0;
  size_fits = n.1;
  sync_time_fits = n.2;
  digest_length = d.0;
  digest_bytes = d.1;
}

log_entry-IsTyped : IsTyped log_entry
log_entry-IsTyped =
    is_typed log_entry (omega arith, omega arith, omega arith)
      (refl, All-replicate (λ (b : ℕ). b < 256) 32 0xa7 (omega arith))

map_entry-IsTyped : IsTyped map_entry
map_entry-IsTyped =
    is_typed map_entry (omega arith, omega arith, omega arith)
      (refl, All-replicate (λ (b : ℕ). b < 256) 32 0x0f (omega arith))

two_files-IsSound : IsSound two_files
unfolding valid_path valid_name path_byte name_byte same_path mem_eq
two_files-IsSound = record {
  valid = (
    record {
      typed = log_entry-IsTyped;
      path_valid = refl;
      name_valid = refl;
      not_empty = omega arith;
    },
    (
      record {
        typed = map_entry-IsTyped;
        path_valid = refl;
        name_valid = refl;
        not_empty = omega arith;
      },
      tt,
    ),
  );
  own_paths = (
    (λ e. absurd (let other : false ≡ true = ap (same_path log_path) (sym e) in cc), tt),
    (tt, tt),
  );
  within = omega arith;
}

fits : length (manifest_text two_files) ≤ 4096
unfolding entry_prefix decimal_in print_hex
fits = omega arith

parse-serialize_example :
    parse (some (serialize two_files true 4096 true).output) true init ≡ (ok, two_files)
parse-serialize_example = parse-serialize two_files init 4096 two_files-IsSound fits

serialize-room_example :
    (length (manifest_text two_files) ≤ 200)
      × (serialize two_files true 200 true ≡ report (wrote (manifest_text two_files)))
    ⊎ (200 < length (manifest_text two_files)) × IsRefused 200 (serialize two_files true 200 true)
serialize-room_example = serialize-room two_files 200 two_files-IsSound

-- A file that is cut off in its last line.
abbrev cut_off : List ℕ
cut_off = codes "REVLINK-MANIFEST\t2\nbroken"

parse-IsSound_example : IsLeft (some cut_off) two_files (parse (some cut_off) true two_files)
parse-IsSound_example = parse-IsSound (some cut_off) true two_files two_files-IsSound

parse_lines_fuel_example :
    (c : IsCut (codes "a\tb\nc")) × (read_lines (parse_line 2) 90 (codes "a\tb\nc") init
      ≡ load_lines (parse_line 2) c.lines c.tail init)
parse_lines_fuel_example = parse_lines_fuel 90 2 (codes "a\tb\nc") init (omega arith)

view-run_example : view (run (dropping log_path) two_files).1 ≡ (
    if (run (dropping log_path) two_files).0
    then change_view (dropping log_path) (view two_files)
    else view two_files)
view-run_example = view-run (dropping log_path) two_files two_files-IsSound

abbrev some_events : List Event
some_events =
    changing (storing log_entry)
    ∷ changing (storing map_entry)
    ∷ changing (marking map_path absent)
    ∷ loading (some (codes "REVLINK-MANIFEST\t2\nbroken")) true
    ∷ changing (dropping log_path)
    ∷ []

run_all-IsSound_example : IsSound (run_all some_events init)
run_all-IsSound_example =
    run_all-IsSound some_events (log_entry-IsTyped, (map_entry-IsTyped, (tt, (tt, (tt, tt)))))
