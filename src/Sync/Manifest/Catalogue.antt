-- ===== src/Sync/Manifest/Catalogue.antt =====
-- The manifest as a catalogue: for each path the entry that it finds. The order of the entries is not part
-- of it.
use mathlib.Core.Path.{fun_ext}
use revlink_sidecar.Base.{
  mem_eq, ℕ, ◌≡◌, ◌≤◌, ◌<◌, arith, ◌⊎◌, inl, inr, refl, ap, sym, ◌∙◌, subst, if◌then◌else◌, not,
  ◌||◌, ◌==◌, length, Bool-cases, Bool, true, false, Option, none, some, is_some, List, [], ◌∷◌,
  ◌++◌,
}
use revlink_sidecar.Sync.Text.{valid_path, valid_name}
use revlink_sidecar.Sync.Manifest.{
  ManifestStatus, ok, capacity_exceeded, Presence, unknown, Entry, Manifest, manifest_capacity,
  same_path, find_entry, find, update_entry, keep_known, place_entry, store_entry, upsert_at,
  with_presence, set_presence, remove_entry, remove,
}
use revlink_sidecar.Sync.Manifest.Entries.{
  Found, find_cases, update_entry_missing, update_entry_found, remove_entry_missing,
  remove_entry_found, find_entry_missing, IsMissing,
}
use revlink_sidecar.Sync.Manifest.Changes.{
  HasOwnPaths, find_entry-replace, find_entry-drop, find_entry_hit, find_entry-last,
}

abbrev pub View : Type 0
View = List ℕ → Option Entry

abbrev pub view : Manifest → View
view m = λ path. find_entry path m.entries

-- The view with another answer for one path.
abbrev pub with_answer : List ℕ → Option Entry → View → View
with_answer path answer v = λ q. if same_path path q then answer else v q

-- What an entry becomes where another with its path is known.
abbrev pub merged : Entry → Option Entry → Entry
merged fresh none = fresh
merged fresh (some known) = record {
  path = fresh.path;
  device_time_raw = fresh.device_time_raw;
  size = fresh.size;
  initial_sync_utc =
      if mem_eq 32 known.sha256 fresh.sha256
      then known.initial_sync_utc
      else fresh.initial_sync_utc;
  sha256 = fresh.sha256;
  cache_name = fresh.cache_name;
  presence = known.presence;
}

abbrev pub marked : Presence → Option Entry → Option Entry
marked presence none = none
marked presence (some e) = some (with_presence presence e)

abbrev pub is_ok : ManifestStatus → Bool
is_ok ok = true
is_ok _ = false

-- `upsert_at` with the fields of an entry.
abbrev pub upsert_entry : Entry → Manifest → ManifestStatus × Manifest
upsert_entry e m =
    upsert_at m (some e.path) e.device_time_raw e.size e.initial_sync_utc (some e.sha256)
      (some e.cache_name)

abbrev pub unlisted : Entry → Entry
unlisted e = record e { presence = unknown }

unfoldable pub entries_of : List Entry → Manifest
entries_of es = record { entries = es }

store_entry_found :
    (fresh : Entry) (m : Manifest) (es : List Entry)
    → update_entry (keep_known fresh) fresh.path m.entries ≡ some es
    → store_entry fresh m ≡ (ok, entries_of es)
unfolding store_entry place_entry entries_of
store_entry_found fresh m es h = ap (λ o. place_entry o fresh m) h

pub store_entry_missing :
    (fresh : Entry) (m : Manifest)
    → update_entry (keep_known fresh) fresh.path m.entries ≡ none
    → (length m.entries < manifest_capacity)
        × (store_entry fresh m ≡ (ok, entries_of (m.entries ++ fresh ∷ [])))
      ⊎ (manifest_capacity ≤ length m.entries) × (store_entry fresh m ≡ (capacity_exceeded, m))
unfolding store_entry place_entry entries_of
store_entry_missing fresh m h =
    subst
      (λ o.
        (length m.entries < manifest_capacity)
          × (place_entry o fresh m ≡ (ok, entries_of (m.entries ++ fresh ∷ [])))
        ⊎ (manifest_capacity ≤ length m.entries) × (place_entry o fresh m ≡ (capacity_exceeded, m)))
      (sym h) (ground arith)

-- An entry that is stored replaces the one with its path, or comes last where there is room.
pub store_entry_cases :
    (fresh : Entry) (m : Manifest)
    → ((w : Found fresh.path m.entries) × (store_entry fresh m
          ≡ (ok, entries_of (w.before ++ keep_known fresh w.found ∷ w.after))))
      ⊎ (IsMissing fresh.path m.entries
          × ((length m.entries < manifest_capacity)
                × (store_entry fresh m ≡ (ok, entries_of (m.entries ++ fresh ∷ [])))
              ⊎ (manifest_capacity ≤ length m.entries)
                × (store_entry fresh m ≡ (capacity_exceeded, m))))
store_entry_cases fresh m = elim (find_cases fresh.path m.entries) [
  | inl missing ↦ inr (
    missing,
    store_entry_missing fresh m
        (update_entry_missing (keep_known fresh) fresh.path m.entries missing),
  )
  | inr w ↦ inl (
    w,
    store_entry_found fresh m (w.before ++ keep_known fresh w.found ∷ w.after) (
        ap (update_entry (keep_known fresh) fresh.path) w.around
        ∙ update_entry_found (keep_known fresh) fresh.path w.before w.found w.after w.missing_before
            w.has),
  )
]

-- An entry that is found first is what its path finds.
found-view : (path : List ℕ) (m : Manifest) (w : Found path m.entries) → view m path ≡ some w.found
found-view path m w =
    ap (find_entry path) w.around
    ∙ find_entry_hit path w.before w.found w.after w.missing_before w.has

store_entry-view :
    (fresh : Entry) (m : Manifest) (q : List ℕ)
    → view (store_entry fresh m).1 q
      ≡ (if is_ok (store_entry fresh m).0
            then with_answer fresh.path (some (merged fresh (view m fresh.path))) (view m)
            else view m)
          q
unfolding keep_known entries_of
store_entry-view fresh m q = elim (store_entry_cases fresh m) [
  | inl (w, e) ↦
      rw (e, found-view fresh.path m w)
        (find_entry-replace fresh.path q w.before w.found (keep_known fresh w.found) w.after
            w.missing_before w.has refl
          ∙ ap (λ o. if same_path fresh.path q then some (keep_known fresh w.found) else o)
              (ap (find_entry q) (sym w.around)))
  | inr (missing, inl (room, e)) ↦
      rw (e, find_entry_missing fresh.path m.entries missing)
        (find_entry-last q m.entries fresh missing)
  | inr (missing, inr (full, e)) ↦ rw e refl
]

-- An entry that is stored is what its path finds afterwards, merged with what the path found before; no
-- other path finds anything else, and an entry that is refused changes nothing.
pub view-upsert_at :
    (e : Entry) (m : Manifest)
    → view (upsert_entry e m).1 ≡ (
        if is_ok (upsert_entry e m).0
        then with_answer e.path (some (merged (unlisted e) (view m e.path))) (view m)
        else view m)
unfolding upsert_at
view-upsert_at e m = fun_ext (λ q.
    elim (Bool-cases
      (e.size == 0 || not (valid_path (some e.path)) || not (valid_name (some e.cache_name)))) [
        | inl bad ↦ rw bad refl
        | inr good ↦ rw good (store_entry-view (unlisted e) m q)
      ])

-- What `set_presence` answers is whether the path finds an entry, and that entry's presence is all that it
-- changes.
pub view-set_presence :
    (m : Manifest) (path : List ℕ) (presence : Presence)
    → ((set_presence m (some path) presence).0 ≡ is_some (find m (some path)))
      × (view (set_presence m (some path) presence).1 ≡ (
          if (set_presence m (some path) presence).0
          then with_answer path (marked presence (view m path)) (view m)
          else view m))
unfolding set_presence find
view-set_presence m path presence = elim (Bool-cases (valid_path (some path))) [
  | inl valid ↦ elim (find_cases path m.entries) [
    | inl missing ↦
        rw
          (
            valid,
            update_entry_missing (with_presence presence) path m.entries missing,
            find_entry_missing path m.entries missing,
          )
          (refl, refl)
    | inr w ↦
        let updated =
          ap (update_entry (with_presence presence) path) w.around
          ∙ update_entry_found (with_presence presence) path w.before w.found w.after
              w.missing_before w.has in
        rw (valid, updated, found-view path m w)
          (
            refl,
            fun_ext (λ q.
                find_entry-replace path q w.before w.found (with_presence presence w.found) w.after
                  w.missing_before w.has w.has
                ∙ ap (λ o. if same_path path q then some (with_presence presence w.found) else o)
                    (ap (find_entry q) (sym w.around))),
          )
  ]
  | inr refused ↦ rw refused (refl, refl)
]

-- Where no two entries have one path, a removed path finds nothing, every other path finds what it
-- found, and `remove` answers whether the path found an entry.
pub view-remove :
    (m : Manifest) (path : List ℕ)
    → HasOwnPaths m.entries
    → ((remove m (some path)).0 ≡ is_some (find m (some path)))
      × (view (remove m (some path)).1
          ≡ (if (remove m (some path)).0 then with_answer path none (view m) else view m))
unfolding remove find
view-remove m path h = elim (Bool-cases (valid_path (some path))) [
  | inl valid ↦ elim (find_cases path m.entries) [
    | inl missing ↦
        rw
          (
            valid,
            remove_entry_missing path m.entries missing,
            find_entry_missing path m.entries missing,
          )
          (refl, refl)
    | inr w ↦
        let dropped =
          ap (remove_entry path) w.around
          ∙ remove_entry_found path w.before w.found w.after w.missing_before w.has in
        rw (valid, dropped, found-view path m w)
          (
            refl,
            fun_ext (λ q.
                find_entry-drop path q w.before w.found w.after (subst HasOwnPaths w.around h) w.has
                  w.missing_before
                ∙ ap (λ o. if same_path path q then none else o)
                    (ap (find_entry q) (sym w.around))),
          )
  ]
  | inr refused ↦ rw refused (refl, refl)
]
