-- ===== src/Sync/History/Recording.antt =====
-- Recording versions one after the other: nothing that is recorded changes, and a version that is seen again
-- keeps its number.
use revlink_sidecar.Base.{
  ℕ, ◌≡◌, ◌≤◌, ◌<◌, refl, ap, sym, ◌∙◌, subst, Bool-cases, true, false, inl, inr, none, some, List,
  [], ◌∷◌, ◌++◌, append-nil, append_assoc, All, mem_eq, uint32_max, arith,
}
use revlink_sidecar.Sync.Text.{valid_path, valid_name}
use revlink_sidecar.Sync.Manifest.{ok, invalid_argument, capacity_exceeded}
use revlink_sidecar.Sync.Manifest.Entries.{same_path_self, mem_eq_self}
use revlink_sidecar.Sync.History.{
  HistoryEntry, History, is_version, find_entry, find_version, Version, entry_of, record_found,
  record_at,
}
use revlink_sidecar.Sync.History.Sound.{
  IsSound, IsTyped, record_of, is_refused, extended, refused, known, full, added, outcome,
  record_at-IsSound,
}

record_of_known :
    (w : Version) (h : History) (e : HistoryEntry)
    → is_refused w h ≡ false
    → find_entry w.path w.sha256 h.entries ≡ some e
    → record_of w h ≡ record { status = ok; history = h; sequence = some e.sequence }
unfolding record_at record_found find_version
record_of_known w h e good found =
    let valid : valid_path (some w.path) ≡ true = ground arith in rw (good, valid, found) refl

find_entry_last :
    (path sha256 : List ℕ) (es : List HistoryEntry) (e : HistoryEntry)
    → find_entry path sha256 es ≡ none
    → is_version path sha256 e ≡ true
    → find_entry path sha256 (es ++ e ∷ []) ≡ some e
unfolding find_entry
find_entry_last path sha256 [] e h p = rw p refl
find_entry_last path sha256 (x ∷ es) e h p = elim (Bool-cases (is_version path sha256 x)) [
  | inl same ↦ absurd (let first : some x ≡ none = rw same at h in cc)
  | inr other ↦ rw other (find_entry_last path sha256 es e (rw other at h) p)
]

is_version_self :
    (sequence : ℕ) (v : Version)
    → IsTyped v
    → is_version v.path v.sha256 (entry_of sequence v) ≡ true
unfolding is_version
is_version_self sequence v t =
    rw (same_path_self v.path)
      (subst (λ n. mem_eq n v.sha256 v.sha256 ≡ true) t.digest_length (mem_eq_self v.sha256))

-- A file that is seen again with the same contents, whatever else is said of it, gets the number that it
-- was given, and the history stays as it was.
record_at_again :
    (v w : Version) (h : History)
    → IsTyped v
    → IsSound h
    → (record_of v h).status ≡ ok
    → (w.path ≡ v.path) × (w.sha256 ≡ v.sha256)
    → (0 < w.size) × (valid_name (some w.object_name) ≡ true)
    → record_of w (record_of v h).history ≡ record {
      status = ok;
      history = (record_of v h).history;
      sequence = (record_of v h).sequence;
    }
unfolding extended
record_at_again v w h t s done same good = elim (outcome v h s.next_fits) [
  | refused bad e ↦ absurd (let other : invalid_argument ≡ ok = rw e at done in cc)
  | full e ↦ absurd (let other : capacity_exceeded ≡ ok = rw e at done in cc)
  | known entry fine found e ↦
      rw e (record_of_known w h entry (rw same.0 (ground arith)) (rw (same.0, same.1) found))
  | added fine missing room next e ↦ rw e (
      record_of_known w (extended v h) (entry_of h.next_sequence v) (rw same.0 (ground arith)) (
        rw (same.0, same.1)
          (find_entry_last v.path v.sha256 h.entries (entry_of h.next_sequence v) missing
            (is_version_self h.next_sequence v t))))
]

abbrev pub record_all : List Version → History → History
record_all [] h = h
record_all (v ∷ vs) h = record_all vs (record_of v h).history

-- The entries that are there stay in their places, and others may follow.
abbrev pub Grows : History → History → Type 0
Grows h later = (new : List HistoryEntry) × (later.entries ≡ h.entries ++ new)

record_at-Grows :
    (v : Version) (h : History) → h.next_sequence ≤ uint32_max → Grows h (record_of v h).history
unfolding extended
record_at-Grows v h fits = elim (outcome v h fits) [
  | refused bad e ↦ subst (λ r. Grows h r.history) (sym e) ([], sym (append-nil h.entries))
  | known entry fine found e ↦
      subst (λ r. Grows h r.history) (sym e) ([], sym (append-nil h.entries))
  | full e ↦ subst (λ r. Grows h r.history) (sym e) ([], sym (append-nil h.entries))
  | added fine missing room next e ↦
      subst (λ r. Grows h r.history) (sym e) (entry_of h.next_sequence v ∷ [], refl)
]

-- Recording any versions in any order keeps a history well-formed, so the sequence numbers rise, and leaves
-- every entry that was there as it was and where it was.
pub record_all-Grows :
    (vs : List Version) (h : History)
    → All IsTyped vs
    → IsSound h
    → IsSound (record_all vs h) × Grows h (record_all vs h)
record_all-Grows [] h t s = (s, ([], sym (append-nil h.entries)))
record_all-Grows (v ∷ vs) h t s =
    let first = record_at-Grows v h s.next_fits in
    let rest = record_all-Grows vs (record_of v h).history t.1 (record_at-IsSound v h t.0 s) in
    (
      rest.0,
      (
        first.0 ++ rest.1.0,
        rest.1.1 ∙ ap (λ es. es ++ rest.1.0) first.1 ∙ append_assoc h.entries first.0 rest.1.0,
      ),
    )
