-- ===== src/Sync/History.antt =====
-- firmware/components/revlink_sync/revlink_sync_history.c: the versions of the files that were read, in the
-- order in which they were first seen. A history pointer is not NULL here; the other pointers are options. An
-- entry's `path` and `object_name` are the texts before the NUL, and the entries are those below `count`.
pub mod File
pub mod Sound
pub mod Recording
pub mod Lines
pub mod RoundTrip
pub mod Loaded
pub mod Reading
mod Tests
use revlink_sidecar.Base.{
  ℕ, ◌+◌, leb, ltb, ◌==◌, not, if◌then◌else◌, Bool, true, false, ◌&&◌, ◌||◌, Option, none, some,
  List, [], ◌∷◌, ◌++◌, length, mem_eq, uint32_max,
}
use revlink_sidecar.Sync.Text.{valid_path, valid_name, sha256_bytes}
use revlink_sidecar.Sync.Manifest.{
  ManifestStatus, ok, invalid_argument, capacity_exceeded, same_path,
}

pub record HistoryEntry : Type 0 where
  pub sequence : ℕ
  pub path : List ℕ
  pub device_time_raw : ℕ
  pub size : ℕ
  pub initial_sync_utc : ℕ
  pub sha256 : List ℕ
  pub object_name : List ℕ

pub record History : Type 0 where
  pub entries : List HistoryEntry
  pub next_sequence : ℕ

abbrev pub history_capacity : ℕ
history_capacity = 512

abbrev pub init : History
init = record { entries = []; next_sequence = 1 }

unfoldable pub is_version : List ℕ → List ℕ → HistoryEntry → Bool
is_version path sha256 e = same_path e.path path && mem_eq sha256_bytes e.sha256 sha256

unfoldable pub find_entry : List ℕ → List ℕ → List HistoryEntry → Option HistoryEntry
find_entry path sha256 [] = none
find_entry path sha256 (e ∷ es) =
    if is_version path sha256 e then some e else find_entry path sha256 es

unfoldable pub find_version : History → Option (List ℕ) → Option (List ℕ) → Option HistoryEntry
find_version h (some path) (some sha256) =
    if not (valid_path (some path)) then none else find_entry path sha256 h.entries
find_version h path sha256 = none

-- The status, the history, and what `*sequence` is set to.
pub record Recorded : Type 0 where
  pub status : ManifestStatus
  pub history : History
  pub sequence : Option ℕ

-- What the new entry is made of; its sequence number is not known yet.
pub record Version : Type 0 where
  pub path : List ℕ
  pub device_time_raw : ℕ
  pub size : ℕ
  pub initial_sync_utc : ℕ
  pub sha256 : List ℕ
  pub object_name : List ℕ

abbrev pub entry_of : ℕ → Version → HistoryEntry
entry_of sequence v = record {
  sequence = sequence;
  path = v.path;
  device_time_raw = v.device_time_raw;
  size = v.size;
  initial_sync_utc = v.initial_sync_utc;
  sha256 = v.sha256;
  object_name = v.object_name;
}

-- The rest of `revlink_sync_history_record_at`, after the search for the version.
unfoldable pub record_found : History → Version → Option HistoryEntry → Recorded
record_found h v (some existing) = record {
  status = ok;
  history = h;
  sequence = some existing.sequence;
}
record_found h v none =
    if leb history_capacity (length h.entries) || h.next_sequence == uint32_max
    then record { status = capacity_exceeded; history = h; sequence = none }
    else record {
      status = ok;
      history = record {
        entries = h.entries ++ entry_of h.next_sequence v ∷ [];
        next_sequence = h.next_sequence + 1;
      };
      sequence = some h.next_sequence;
    }

abbrev pub not_recorded : History → Recorded
not_recorded h = record { status = invalid_argument; history = h; sequence = none }

-- `has_sequence` says whether the pointer to the result is not NULL.
unfoldable pub record_at :
    History → Option (List ℕ) → ℕ → ℕ → ℕ → Option (List ℕ) → Option (List ℕ) → Bool → Recorded
record_at h (some path) device_time_raw size initial_sync_utc (some sha256) (some object_name)
      has_sequence =
    if not has_sequence
      || size == 0
      || not (valid_path (some path))
      || not (valid_name (some object_name))
      || h.next_sequence == 0
    then not_recorded h
    else record_found h
        (record {
          path = path;
          device_time_raw = device_time_raw;
          size = size;
          initial_sync_utc = initial_sync_utc;
          sha256 = sha256;
          object_name = object_name;
        })
        (find_version h (some path) (some sha256))
record_at h path device_time_raw size initial_sync_utc sha256 object_name has_sequence =
    not_recorded h

-- `revlink_sync_history_record`.
unfoldable pub record_version :
    History → Option (List ℕ) → ℕ → ℕ → Option (List ℕ) → Option (List ℕ) → Bool → Recorded
record_version h path device_time_raw size sha256 object_name has_sequence =
    record_at h path device_time_raw size 0 sha256 object_name has_sequence
