-- ===== src/Sync/History/Tests.antt =====
-- The history at concrete inputs.
use revlink_sidecar.Base.{
  ℕ, ◌≡◌, ◌≤◌, ◌<◌, refl, true, some, List, [], ◌∷◌, replicate, length, All-replicate, mem_eq,
  arith,
}
use revlink_sidecar.Sync.Text.{
  codes, valid_path, valid_name, path_byte, name_byte, decimal_in, print_hex,
}
use revlink_sidecar.Sync.Manifest.{ok, same_path}
use revlink_sidecar.Sync.History.{
  History, init, is_version, find_entry, find_version, Version, record_found, record_at,
}
use revlink_sidecar.Sync.History.File.{entry_prefix, header_line, serialize, parse}
use revlink_sidecar.Sync.History.Sound.{IsTyped, IsSound, init-IsSound, record_of}
use revlink_sidecar.Sync.History.Recording.{record_all, Grows, record_all-Grows}
use revlink_sidecar.Sync.History.RoundTrip.{history_text, history_parse-serialize}
use revlink_sidecar.Sync.History.Reading.{IsLeft, history_parse-IsSound}

abbrev first_run : Version
first_run = record {
  path = codes "/logs/Run (1).csv";
  device_time_raw = 1700000000;
  size = 4096;
  initial_sync_utc = 0;
  sha256 = replicate 32 0xa7;
  object_name = codes "a7.csv";
}

-- The same bytes under the same path, seen at another time.
abbrev first_run_again : Version
first_run_again = record first_run { device_time_raw = 5; initial_sync_utc = 1750000000 }

abbrev second_run : Version
second_run = record first_run { sha256 = replicate 32 0x10; object_name = codes "10.csv" }

first_run-IsTyped : IsTyped first_run
first_run-IsTyped = record {
  device_time_fits = omega arith;
  size_fits = omega arith;
  sync_time_fits = omega arith;
  digest_length = refl;
  digest_bytes = All-replicate (λ (b : ℕ). b < 256) 32 0xa7 (omega arith);
}

second_run-IsTyped : IsTyped second_run
second_run-IsTyped = record {
  device_time_fits = omega arith;
  size_fits = omega arith;
  sync_time_fits = omega arith;
  digest_length = refl;
  digest_bytes = All-replicate (λ (b : ℕ). b < 256) 32 0x10 (omega arith);
}

abbrev two_runs : History
two_runs = record_all (first_run ∷ second_run ∷ first_run_again ∷ []) init

two_runs_numbers : two_runs.next_sequence ≡ 3
unfolding record_at record_found find_version find_entry is_version same_path mem_eq valid_path
    valid_name path_byte name_byte
two_runs_numbers = refl

recorded : (record_of first_run init).status ≡ ok
unfolding record_at record_found find_version find_entry valid_path valid_name path_byte name_byte
recorded = refl

good_name : valid_name (some (codes "a7.csv")) ≡ true
unfolding valid_name name_byte
good_name = refl

abbrev one_run : History
one_run = record_all (first_run ∷ []) init

one_run-IsSound : IsSound one_run
one_run-IsSound = (record_all-Grows (first_run ∷ []) init (first_run-IsTyped, tt) init-IsSound).0

record_all-Grows_example :
    IsSound (record_all (second_run ∷ []) one_run)
    × Grows one_run (record_all (second_run ∷ []) one_run)
record_all-Grows_example =
    record_all-Grows (second_run ∷ []) one_run (second_run-IsTyped, tt) one_run-IsSound

fits : length (history_text one_run) ≤ 1024
unfolding record_at record_found find_version find_entry valid_path valid_name path_byte name_byte
    header_line entry_prefix decimal_in print_hex
fits = omega arith

history_parse-serialize_example :
    parse (some (serialize one_run true 1024 true).output) true init ≡ (ok, one_run)
history_parse-serialize_example = history_parse-serialize one_run init 1024 one_run-IsSound fits

-- A file that is cut off in its last line.
abbrev cut_off : List ℕ
cut_off = codes "REVLINK-HISTORY\t2\t7\n3\t"

history_parse-IsSound_example : IsLeft (some cut_off) one_run (parse (some cut_off) true one_run)
history_parse-IsSound_example = history_parse-IsSound (some cut_off) true one_run one_run-IsSound
