-- ===== src/Sync/Manifest/Sound.antt =====
-- Well-formed manifests: entries that the text file can hold, each with a path of its own, within the
-- capacity. Every operation keeps them.
use revlink_sidecar.Base.{
  ℕ, ◌≡◌, ◌≢◌, ◌≤◌, ◌<◌, inl, inr, refl, ap, sym, ◌∙◌, subst, not, ◌||◌, ◌==◌, Bool-cases, true,
  Option, none, some, List, [], ◌∷◌, ◌++◌, length, length-append, All, All-append, All-append_left,
  All-append_right, All-map, Pairwise-append, Pairwise-append_left, Pairwise-append_right,
  Pairwise-append_across, uint32_max, uint64_max, arith,
}
use revlink_sidecar.Sync.Text.{valid_path, valid_name, sha256_bytes}
use revlink_sidecar.Sync.Text.Digests.{IsBytes}
use revlink_sidecar.Sync.Manifest.{
  Presence, Entry, Manifest, manifest_capacity, init, update_entry, keep_known, store_entry,
  upsert_at, with_presence, set_presence, move_last, remove_entry, remove,
}
use revlink_sidecar.Sync.Manifest.Entries.{
  Found, IsMissing, find_cases, update_entry_missing, update_entry_found, remove_entry_missing,
  remove_entry_found,
}
use revlink_sidecar.Sync.Manifest.Changes.{
  Differ, HasOwnPaths, move_last-All, move_last-HasOwnPaths, length-move_last,
}
use revlink_sidecar.Sync.Manifest.Catalogue.{entries_of, store_entry_cases, upsert_entry, unlisted}

-- The widths of the fields: `uint32_t`, `uint64_t`, and 32 bytes of digest.
pub record IsTyped (e : Entry) : Type 0 where
  pub device_time_fits : e.device_time_raw ≤ uint32_max
  pub size_fits : e.size ≤ uint32_max
  pub sync_time_fits : e.initial_sync_utc ≤ uint64_max
  pub digest_length : length e.sha256 ≡ sha256_bytes
  pub digest_bytes : IsBytes e.sha256

pub record IsValid (e : Entry) : Type 0 where
  pub typed : IsTyped e
  pub path_valid : valid_path (some e.path) ≡ true
  pub name_valid : valid_name (some e.cache_name) ≡ true
  pub not_empty : 0 < e.size

pub record IsSound (m : Manifest) : Type 0 where
  pub valid : All IsValid m.entries
  pub own_paths : HasOwnPaths m.entries
  pub within : length m.entries ≤ manifest_capacity

pub init-IsSound : IsSound init
init-IsSound = record { valid = tt; own_paths = tt; within = omega arith }

All-replace {ℓ} :
    (P : Entry → Type ℓ) (before : List Entry) (e fresh : Entry) (after : List Entry)
    → (P e → P fresh)
    → All P (before ++ e ∷ after)
    → All P (before ++ fresh ∷ after)
All-replace P [] e fresh after f p = (f p.0, p.1)
All-replace P (b ∷ before) e fresh after f p = (p.0, All-replace P before e fresh after f p.1)

replace-HasOwnPaths :
    (before : List Entry) (e fresh : Entry) (after : List Entry)
    → fresh.path ≡ e.path
    → HasOwnPaths (before ++ e ∷ after)
    → HasOwnPaths (before ++ fresh ∷ after)
replace-HasOwnPaths [] e fresh after h p =
    (All-map (Differ e) (Differ fresh) after (λ x differs eq. differs (sym h ∙ eq)) p.0, p.1)
replace-HasOwnPaths (b ∷ before) e fresh after h p = (
  All-replace (Differ b) before e fresh after (λ differs eq. differs (eq ∙ h)) p.0,
  replace-HasOwnPaths before e fresh after h p.1,
)

length-replace :
    (before : List Entry) (e fresh : Entry) (after : List Entry)
    → length (before ++ fresh ∷ after) ≡ length (before ++ e ∷ after)
length-replace before e fresh after =
    let l = length-append before (e ∷ after) in
    let r = length-append before (fresh ∷ after) in omega arith

-- A changed entry with the path that it had.
replace-IsSound :
    {path : List ℕ} (m : Manifest) (w : Found path m.entries) (fresh : Entry)
    → IsSound m
    → fresh.path ≡ w.found.path
    → (IsValid w.found → IsValid fresh)
    → IsSound (entries_of (w.before ++ fresh ∷ w.after))
unfolding entries_of
replace-IsSound m w fresh s h f = record {
  valid =
      All-replace IsValid w.before w.found fresh w.after f (subst (All IsValid) w.around s.valid);
  own_paths =
      replace-HasOwnPaths w.before w.found fresh w.after h (subst HasOwnPaths w.around s.own_paths);
  within =
      subst (λ n. n ≤ manifest_capacity)
        (ap length w.around ∙ sym (length-replace w.before w.found fresh w.after)) s.within;
}

keep_known-IsValid :
    (fresh known : Entry) → IsValid fresh → IsValid known → IsValid (keep_known fresh known)
unfolding keep_known
keep_known-IsValid fresh known p q = record {
  typed = record {
    device_time_fits = p.typed.device_time_fits;
    size_fits = p.typed.size_fits;
    sync_time_fits = ground arith;
    digest_length = p.typed.digest_length;
    digest_bytes = p.typed.digest_bytes;
  };
  path_valid = p.path_valid;
  name_valid = p.name_valid;
  not_empty = p.not_empty;
}

append-IsSound :
    (fresh : Entry) (m : Manifest)
    → IsValid fresh
    → IsMissing fresh.path m.entries
    → length m.entries < manifest_capacity
    → IsSound m
    → IsSound (entries_of (m.entries ++ fresh ∷ []))
unfolding entries_of
append-IsSound fresh m p missing room s = record {
  valid = All-append IsValid m.entries (fresh ∷ []) s.valid (p, tt);
  own_paths =
      Pairwise-append Differ m.entries (fresh ∷ []) s.own_paths (tt, tt)
        (All-map (λ (x : Entry). x.path ≢ fresh.path) (λ (x : Entry). All (Differ x) (fresh ∷ []))
          m.entries (λ x differs. (differs, tt)) missing);
  within = let l = length-append m.entries (fresh ∷ []) in omega arith;
}

pub store_entry-IsSound :
    (fresh : Entry) (m : Manifest) → IsValid fresh → IsSound m → IsSound (store_entry fresh m).1
unfolding keep_known
store_entry-IsSound fresh m p s = elim (store_entry_cases fresh m) [
  | inl (w, e) ↦
      subst (λ r. IsSound r.1) (sym e)
        (replace-IsSound m w (keep_known fresh w.found) s (same w)
          (keep_known-IsValid fresh w.found p))
  | inr (missing, inl (room, e)) ↦
      subst (λ r. IsSound r.1) (sym e) (append-IsSound fresh m p missing room s)
  | inr (missing, inr (full, e)) ↦ subst (λ r. IsSound r.1) (sym e) s
]
  where
    same : (w : Found fresh.path m.entries) → (keep_known fresh w.found).path ≡ w.found.path
    same w = sym w.has

pub upsert_at-IsSound :
    (e : Entry) (m : Manifest) → IsTyped e → IsSound m → IsSound (upsert_entry e m).1
unfolding upsert_at
upsert_at-IsSound e m p s =
    elim (Bool-cases
      (e.size == 0 || not (valid_path (some e.path)) || not (valid_name (some e.cache_name)))) [
        | inl bad ↦ rw bad s
        | inr good ↦ rw good (
            store_entry-IsSound (unlisted e) m
              (record {
                typed = record {
                  device_time_fits = p.device_time_fits;
                  size_fits = p.size_fits;
                  sync_time_fits = p.sync_time_fits;
                  digest_length = p.digest_length;
                  digest_bytes = p.digest_bytes;
                };
                path_valid = ground arith;
                name_valid = ground arith;
                not_empty = ground arith;
              })
              s)
      ]

with_presence-IsValid :
    (presence : Presence) (e : Entry) → IsValid e → IsValid (with_presence presence e)
with_presence-IsValid presence e p = record {
  typed = record {
    device_time_fits = p.typed.device_time_fits;
    size_fits = p.typed.size_fits;
    sync_time_fits = p.typed.sync_time_fits;
    digest_length = p.typed.digest_length;
    digest_bytes = p.typed.digest_bytes;
  };
  path_valid = p.path_valid;
  name_valid = p.name_valid;
  not_empty = p.not_empty;
}

pub set_presence-IsSound :
    (m : Manifest) (path : Option (List ℕ)) (presence : Presence)
    → IsSound m
    → IsSound (set_presence m path presence).1
unfolding set_presence entries_of
set_presence-IsSound m none presence s = s
set_presence-IsSound m (some path) presence s = elim (Bool-cases (valid_path (some path))) [
  | inl valid ↦ elim (find_cases path m.entries) [
    | inl missing ↦
        rw (valid, update_entry_missing (with_presence presence) path m.entries missing) s
    | inr w ↦
        rw
          (
            valid,
            ap (update_entry (with_presence presence) path) w.around
                ∙ update_entry_found (with_presence presence) path w.before w.found w.after
                    w.missing_before w.has,
          )
          (replace-IsSound m w (with_presence presence w.found) s refl
            (with_presence-IsValid presence w.found))
  ]
  | inr refused ↦ rw refused s
]

drop-IsSound :
    {path : List ℕ} (m : Manifest) (w : Found path m.entries)
    → IsSound m
    → IsSound (entries_of (w.before ++ move_last w.after))
unfolding entries_of
drop-IsSound m w s =
    let valid = subst (All IsValid) w.around s.valid in
    let own = subst HasOwnPaths w.around s.own_paths in
    let behind = Pairwise-append_right Differ w.before (w.found ∷ w.after) own in
    record {
      valid =
          All-append IsValid w.before (move_last w.after)
            (All-append_left IsValid w.before (w.found ∷ w.after) valid)
            (move_last-All IsValid w.after
              (All-append_right IsValid w.before (w.found ∷ w.after) valid).1);
      own_paths =
          Pairwise-append Differ w.before (move_last w.after)
            (Pairwise-append_left Differ w.before (w.found ∷ w.after) own)
            (move_last-HasOwnPaths w.after behind.1)
            (All-map (λ (x : Entry). All (Differ x) (w.found ∷ w.after))
              (λ (x : Entry). All (Differ x) (move_last w.after)) w.before
              (λ x differs. move_last-All (Differ x) w.after differs.1)
              (Pairwise-append_across Differ w.before (w.found ∷ w.after) own));
      within =
          let k = ap length w.around in
          let l = length-append w.before (w.found ∷ w.after) in
          let r = length-append w.before (move_last w.after) in
          let e = length-move_last w.after in let within = s.within in omega arith;
    }

pub remove-IsSound : (m : Manifest) (path : Option (List ℕ)) → IsSound m → IsSound (remove m path).1
unfolding remove entries_of
remove-IsSound m none s = s
remove-IsSound m (some path) s = elim (Bool-cases (valid_path (some path))) [
  | inl valid ↦ elim (find_cases path m.entries) [
    | inl missing ↦ rw (valid, remove_entry_missing path m.entries missing) s
    | inr w ↦
        rw
          (
            valid,
            ap (remove_entry path) w.around
                ∙ remove_entry_found path w.before w.found w.after w.missing_before w.has,
          )
          (drop-IsSound m w s)
  ]
  | inr refused ↦ rw refused s
]
