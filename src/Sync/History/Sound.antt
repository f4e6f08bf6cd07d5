-- ===== src/Sync/History/Sound.antt =====
-- Well-formed histories: entries that the text file can hold, numbered in rising order below the next
-- number. Recording keeps them, and only ever adds to the end.
use revlink_sidecar.Base.{
  ◌+◌, ◌≡◌, ◌≤◌, ◌<◌, inl, inr, refl, sym, subst, leb, ◌==◌, not, ◌||◌, Bool, Bool-cases, true,
  false, Option-cases, none, some, [], ◌∷◌, ◌++◌, length, length-append, All, All-append, All-map,
  Pairwise, Pairwise-append, uint32_max, uint64_max, arith,
}
use revlink_sidecar.Sync.Text.{valid_path, valid_name, sha256_bytes}
use revlink_sidecar.Sync.Text.Digests.{IsBytes}
use revlink_sidecar.Sync.Manifest.{ok, capacity_exceeded}
use revlink_sidecar.Sync.History.{
  HistoryEntry, History, history_capacity, init, find_entry, find_version, Recorded, Version,
  entry_of, record_found, not_recorded, record_at,
}

-- An entry that the text file can hold.
pub record IsValid (e : HistoryEntry) : Type 0 where
  pub path_valid : valid_path (some e.path) ≡ true
  pub name_valid : valid_name (some e.object_name) ≡ true
  pub not_empty : 0 < e.size
  pub numbered : 0 < e.sequence
  pub sequence_fits : e.sequence ≤ uint32_max
  pub device_time_fits : e.device_time_raw ≤ uint32_max
  pub size_fits : e.size ≤ uint32_max
  pub sync_time_fits : e.initial_sync_utc ≤ uint64_max
  pub digest_length : length e.sha256 ≡ sha256_bytes
  pub digest_bytes : IsBytes e.sha256

abbrev pub Precedes : HistoryEntry → HistoryEntry → Type 0
Precedes a b = a.sequence < b.sequence

pub record IsSound (h : History) : Type 0 where
  pub valid : All IsValid h.entries
  pub rising : Pairwise Precedes h.entries
  pub below : All (λ (e : HistoryEntry). e.sequence < h.next_sequence) h.entries
  pub started : 0 < h.next_sequence
  pub next_fits : h.next_sequence ≤ uint32_max
  pub within : length h.entries ≤ history_capacity

pub init-IsSound : IsSound init
init-IsSound = record {
  valid = tt;
  rising = tt;
  below = tt;
  started = omega arith;
  next_fits = omega arith;
  within = omega arith;
}

-- The widths of the arguments, and 32 bytes of digest.
pub record IsTyped (v : Version) : Type 0 where
  pub device_time_fits : v.device_time_raw ≤ uint32_max
  pub size_fits : v.size ≤ uint32_max
  pub sync_time_fits : v.initial_sync_utc ≤ uint64_max
  pub digest_length : length v.sha256 ≡ sha256_bytes
  pub digest_bytes : IsBytes v.sha256

-- `record_at` of what a version holds.
abbrev pub record_of : Version → History → Recorded
record_of v h =
    record_at h (some v.path) v.device_time_raw v.size v.initial_sync_utc (some v.sha256)
      (some v.object_name) true

abbrev pub is_refused : Version → History → Bool
is_refused v h =
    v.size == 0
    || not (valid_path (some v.path))
    || not (valid_name (some v.object_name))
    || h.next_sequence == 0

unfoldable pub extended : Version → History → History
extended v h = record {
  entries = h.entries ++ entry_of h.next_sequence v ∷ [];
  next_sequence = h.next_sequence + 1;
}

-- The four ways in which a recording ends.
pub data Outcome (v : Version) (h : History) : Type 0 where
  refused : is_refused v h ≡ true → record_of v h ≡ not_recorded h → Outcome v h
  known :
      (e : HistoryEntry)
      → is_refused v h ≡ false
      → find_entry v.path v.sha256 h.entries ≡ some e
      → record_of v h ≡ record { status = ok; history = h; sequence = some e.sequence }
      → Outcome v h
  full :
      record_of v h ≡ record { status = capacity_exceeded; history = h; sequence = none }
      → Outcome v h
  added :
      is_refused v h ≡ false
      → find_entry v.path v.sha256 h.entries ≡ none
      → length h.entries < history_capacity
      → h.next_sequence < uint32_max
      → record_of v h
        ≡ record { status = ok; history = extended v h; sequence = some h.next_sequence }
      → Outcome v h

pub outcome : (v : Version) (h : History) → h.next_sequence ≤ uint32_max → Outcome v h
unfolding record_at record_found find_version extended
outcome v h fits = elim (Bool-cases (is_refused v h)) [
  | inl bad ↦ refused bad (rw bad refl)
  | inr good ↦
      let valid : valid_path (some v.path) ≡ true = ground arith in
      elim (Option-cases (find_entry v.path v.sha256 h.entries)) [
        | inr (e, found) ↦ known e good found (rw (good, valid, found) refl)
        | inl missing ↦
            elim (Bool-cases
              (leb history_capacity (length h.entries) || h.next_sequence == uint32_max)) [
                | inl no_room ↦ full (rw (good, valid, missing, no_room) refl)
                | inr room ↦
                    added good missing (ground arith) (ground arith)
                      (rw (good, valid, missing, room) refl)
              ]
      ]
]

extended-IsSound :
    (v : Version) (h : History)
    → IsTyped v
    → IsSound h
    → is_refused v h ≡ false
    → length h.entries < history_capacity
    → h.next_sequence < uint32_max
    → IsSound (extended v h)
unfolding extended
extended-IsSound v h t s good room next = record {
  valid = All-append IsValid h.entries (entry_of h.next_sequence v ∷ []) s.valid (
    record {
      path_valid = ground arith;
      name_valid = ground arith;
      not_empty = ground arith;
      numbered = ground arith;
      sequence_fits = omega arith;
      device_time_fits = t.device_time_fits;
      size_fits = t.size_fits;
      sync_time_fits = t.sync_time_fits;
      digest_length = t.digest_length;
      digest_bytes = t.digest_bytes;
    },
    tt,
  );
  rising =
      Pairwise-append Precedes h.entries (entry_of h.next_sequence v ∷ []) s.rising (tt, tt)
        (All-map (λ (e : HistoryEntry). e.sequence < h.next_sequence)
          (λ (e : HistoryEntry). All (Precedes e) (entry_of h.next_sequence v ∷ [])) h.entries
          (λ e less. (less, tt)) s.below);
  below =
      All-append (λ (e : HistoryEntry). e.sequence < h.next_sequence + 1) h.entries
        (entry_of h.next_sequence v ∷ [])
        (All-map (λ (e : HistoryEntry). e.sequence < h.next_sequence)
          (λ (e : HistoryEntry). e.sequence < h.next_sequence + 1) h.entries (λ e less. omega arith)
          s.below)
        (omega arith, tt);
  started = omega arith;
  next_fits = omega arith;
  within = let l = length-append h.entries (entry_of h.next_sequence v ∷ []) in omega arith;
}

pub record_at-IsSound :
    (v : Version) (h : History) → IsTyped v → IsSound h → IsSound (record_of v h).history
record_at-IsSound v h t s = elim (outcome v h s.next_fits) [
  | refused bad e ↦ subst (λ r. IsSound r.history) (sym e) s
  | known entry good found e ↦ subst (λ r. IsSound r.history) (sym e) s
  | full e ↦ subst (λ r. IsSound r.history) (sym e) s
  | added good missing room next e ↦
      subst (λ r. IsSound r.history) (sym e) (extended-IsSound v h t s good room next)
]
