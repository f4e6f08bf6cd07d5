-- ===== src/Sync/Manifest.antt =====
-- firmware/components/revlink_sync/revlink_sync_manifest.c: the catalogue of the files that were read from the
-- AccessPort, with its text file. A manifest pointer is not NULL here; the other pointers are options. An
-- entry's `path` and `cache_name` are the texts before the NUL, and the entries are those below `count`.
pub mod File
pub mod Entries
pub mod Changes
pub mod Catalogue
pub mod Sound
pub mod Lines
pub mod Writing
pub mod RoundTrip
pub mod Reading
pub mod Run
mod Tests
use revlink_sidecar.Base.{
  ℕ, ◌≡◌, ◌≤◌, ◌<◌, ltb, leb, ◌==◌, not, if◌then◌else◌, Bool, true, false, ◌&&◌, ◌||◌, Option, none,
  some, is_some, List, [], ◌∷◌, ◌++◌, length, mem_eq, All, ◌+◌, suc, String,
}
use revlink_sidecar.Sync.Text.{valid_path, valid_name, sha256_bytes, codes}

pub data ManifestStatus : Type 0 where
  ok invalid_argument invalid_format capacity_exceeded buffer_too_small allocation_failed :
      ManifestStatus

pub data Presence : Type 0 where
  unknown on_device absent : Presence

pub record Entry : Type 0 where
  pub path : List ℕ
  pub device_time_raw : ℕ
  pub size : ℕ
  pub initial_sync_utc : ℕ
  pub sha256 : List ℕ
  pub cache_name : List ℕ
  pub presence : Presence

pub record Manifest : Type 0 where
  pub entries : List Entry

abbrev pub manifest_capacity : ℕ
manifest_capacity = 128

abbrev pub init : Manifest
init = record { entries = [] }

-- `strlen` against the length given, then `memcmp`.
unfoldable pub same_path : List ℕ → List ℕ → Bool
same_path mine path = length mine == length path && mem_eq (length path) mine path

abbrev pub has_path : List ℕ → Entry → Bool
has_path path e = same_path e.path path

unfoldable pub find_entry : List ℕ → List Entry → Option Entry
find_entry path [] = none
find_entry path (e ∷ es) = if has_path path e then some e else find_entry path es

unfoldable pub find : Manifest → Option (List ℕ) → Option Entry
find m none = none
find m (some path) = if not (valid_path (some path)) then none else find_entry path m.entries

unfoldable pub metadata_matches : Option Entry → ℕ → ℕ → Bool
metadata_matches none device_time_raw size = false
metadata_matches (some e) device_time_raw size =
    not (device_time_raw == 0) && e.device_time_raw == device_time_raw && e.size == size

-- The first entry with the path, changed in its place; `none` where no entry has it.
unfoldable pub update_entry : (Entry → Entry) → List ℕ → List Entry → Option (List Entry)
update_entry f path [] = none
update_entry f path (e ∷ es) =
    if has_path path e
    then some (f e ∷ es)
    else elim (update_entry f path es) [ none ↦ none | some rest ↦ some (e ∷ rest) ]

-- What is kept of the entry that was there: when it was first synced, for the same bytes, and its presence.
unfoldable pub keep_known : Entry → Entry → Entry
keep_known fresh known = record fresh {
  initial_sync_utc =
      if mem_eq sha256_bytes known.sha256 fresh.sha256
      then known.initial_sync_utc
      else fresh.initial_sync_utc;
  presence = known.presence;
}

-- The entries after a change, or the new entry behind them where there was none to change.
unfoldable pub place_entry : Option (List Entry) → Entry → Manifest → ManifestStatus × Manifest
place_entry (some es) fresh m = (ok, record m { entries = es })
place_entry none fresh m =
    if leb manifest_capacity (length m.entries)
    then (capacity_exceeded, m)
    else (ok, record m { entries = m.entries ++ fresh ∷ [] })

unfoldable pub store_entry : Entry → Manifest → ManifestStatus × Manifest
store_entry fresh m = place_entry (update_entry (keep_known fresh) fresh.path m.entries) fresh m

unfoldable pub upsert_at :
    Manifest
    → Option (List ℕ)
    → ℕ
    → ℕ
    → ℕ
    → Option (List ℕ)
    → Option (List ℕ)
    → ManifestStatus × Manifest
upsert_at m (some path) device_time_raw size initial_sync_utc (some sha256) (some cache_name) =
    if size == 0 || not (valid_path (some path)) || not (valid_name (some cache_name))
    then (invalid_argument, m)
    else store_entry
        (record {
          path = path;
          device_time_raw = device_time_raw;
          size = size;
          initial_sync_utc = initial_sync_utc;
          sha256 = sha256;
          cache_name = cache_name;
          presence = unknown;
        })
        m
upsert_at m path device_time_raw size initial_sync_utc sha256 cache_name = (invalid_argument, m)

unfoldable pub upsert :
    Manifest
    → Option (List ℕ)
    → ℕ
    → ℕ
    → Option (List ℕ)
    → Option (List ℕ)
    → ManifestStatus × Manifest
upsert m path device_time_raw size sha256 cache_name =
    upsert_at m path device_time_raw size 0 sha256 cache_name

abbrev pub with_presence : Presence → Entry → Entry
with_presence presence e = record e { presence = presence }

-- Whether the path was there, and the manifest after the call.
unfoldable pub set_presence : Manifest → Option (List ℕ) → Presence → Bool × Manifest
set_presence m none presence = (false, m)
set_presence m (some path) presence =
    if not (valid_path (some path))
    then (false, m)
    else elim (update_entry (with_presence presence) path m.entries) [
      | none ↦ (false, m)
      | some es ↦ (true, record m { entries = es })
    ]

-- The last entry, moved in front of the others.
unfoldable pub move_last : List Entry → List Entry
move_last [] = []
move_last (e ∷ es) = elim (move_last es) [ [] ↦ e ∷ [] | (last ∷ rest) ↦ last ∷ e ∷ rest ]

-- The last entry takes the place of the first with the path.
unfoldable pub remove_entry : List ℕ → List Entry → Option (List Entry)
remove_entry path [] = none
remove_entry path (e ∷ es) =
    if has_path path e
    then some (move_last es)
    else elim (remove_entry path es) [ none ↦ none | some rest ↦ some (e ∷ rest) ]

unfoldable pub remove : Manifest → Option (List ℕ) → Bool × Manifest
remove m none = (false, m)
remove m (some path) =
    if not (valid_path (some path)) then (false, m) else elim (remove_entry path m.entries) [
      | none ↦ (false, m)
      | some es ↦ (true, record m { entries = es })
    ]

unfoldable pub count_digest : List ℕ → List Entry → ℕ
count_digest sha256 [] = 0
count_digest sha256 (e ∷ es) =
    if mem_eq sha256_bytes e.sha256 sha256
    then suc (count_digest sha256 es)
    else count_digest sha256 es

unfoldable pub digest_users : Manifest → Option (List ℕ) → ℕ
digest_users m none = 0
digest_users m (some sha256) = count_digest sha256 m.entries

unfoldable pub presence_name : Presence → List ℕ
presence_name on_device = codes "on-device"
presence_name absent = codes "absent"
presence_name unknown = codes "unknown"

unfoldable pub manifest_status_name : ManifestStatus → List ℕ
manifest_status_name ok = codes "ok"
manifest_status_name invalid_argument = codes "invalid argument"
manifest_status_name invalid_format = codes "invalid format"
manifest_status_name capacity_exceeded = codes "capacity exceeded"
manifest_status_name buffer_too_small = codes "buffer too small"
manifest_status_name allocation_failed = codes "allocation failed"
