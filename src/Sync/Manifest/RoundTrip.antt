-- ===== src/Sync/Manifest/RoundTrip.antt =====
-- Reading the file: what `parse` reads of what `serialize` wrote.
use revlink_sidecar.Base.{
  ℕ, zero, suc, ◌≡◌, ◌≢◌, ◌≤◌, ◌<◌, inl, inr, refl, ap, sym, ◌∙◌, subst, ◌==◌, true, false, some,
  List, [], ◌∷◌, ◌++◌, append_assoc, append-nil, length, length-append, All, All-map,
  Pairwise-append_across, mem_eq, arith,
}
use revlink_sidecar.Sync.Loop.{then_load, read_lines, read_lines-line}
use revlink_sidecar.Sync.Manifest.{
  ok, Entry, Manifest, manifest_capacity, init, upsert_at, set_presence, with_presence, keep_known,
}
use revlink_sidecar.Sync.Manifest.Entries.{IsMissing, update_entry_missing, update_entry_found}
use revlink_sidecar.Sync.Manifest.Changes.{Differ, HasOwnPaths}
use revlink_sidecar.Sync.Manifest.Catalogue.{
  entries_of, store_entry_missing, unlisted, upsert_entry,
}
use revlink_sidecar.Sync.Manifest.File.{
  header_v3, serialize, read_header, load_entry, finish_entry, parse_line, parse_lines, keep_parsed,
  load_rest, parse,
}
use revlink_sidecar.Sync.Manifest.Sound.{IsValid, IsSound}
use revlink_sidecar.Sync.Manifest.Lines.{
  entry_line, joined-entry_pieces, parse_line-entry_line, entry_line-IsLine,
}
use revlink_sidecar.Sync.Manifest.Writing.{entries_text, manifest_text, serialize_fits}

upsert_entry-new :
    (e : Entry) (m : Manifest)
    → IsValid e
    → IsMissing e.path m.entries
    → length m.entries < manifest_capacity
    → upsert_entry e m ≡ (ok, entries_of (m.entries ++ unlisted e ∷ []))
unfolding upsert_at
upsert_entry-new e m v missing room =
    let size : (e.size == 0) ≡ false = let n = v.not_empty in ground arith in
    rw (size, v.path_valid, v.name_valid)
      (elim (store_entry_missing (unlisted e) m
        (update_entry_missing (keep_known (unlisted e)) e.path m.entries missing)) [
          | inl p ↦ p.1
          | inr p ↦ absurd (let full = p.0 in omega arith)
        ])

set_presence-last :
    (e : Entry) (es : List Entry)
    → IsValid e
    → IsMissing e.path es
    → set_presence (entries_of (es ++ unlisted e ∷ [])) (some e.path) e.presence
      ≡ (true, entries_of (es ++ e ∷ []))
unfolding set_presence entries_of
set_presence-last e es v missing =
    rw
      (
        v.path_valid,
        update_entry_found (with_presence e.presence) e.path es (unlisted e) [] missing refl,
      )
      refl

-- A new entry comes last, with its presence.
load_entry-new :
    (e : Entry) (m : Manifest)
    → IsValid e
    → IsMissing e.path m.entries
    → length m.entries < manifest_capacity
    → load_entry e m ≡ (ok, entries_of (m.entries ++ e ∷ []))
unfolding load_entry finish_entry
load_entry-new e m v missing room =
    ap (finish_entry e) (upsert_entry-new e m v missing room)
    ∙ ap (λ r. (ok, r.1)) (set_presence-last e m.entries v missing)

-- An entry's text is its line.
entries_text-line :
    (e : Entry) (es : List Entry) → entries_text (e ∷ es) ≡ entry_line e ++ b'\n' ∷ entries_text es
entries_text-line e es =
    ap (λ line. line ++ entries_text es) (joined-entry_pieces e)
    ∙ append_assoc (entry_line e) (b'\n' ∷ []) (entries_text es)

read_lines-entries_text :
    (fuel : ℕ) (es : List Entry) (m : Manifest)
    → length (entries_text es) ≤ fuel
    → All IsValid es
    → HasOwnPaths (m.entries ++ es)
    → length (m.entries ++ es) ≤ manifest_capacity
    → read_lines (parse_line 3) fuel (entries_text es) m ≡ (ok, entries_of (m.entries ++ es))
unfolding read_lines entries_of
read_lines-entries_text fuel [] m h v own room =
    ap (λ es. (ok, entries_of es)) (sym (append-nil m.entries))
read_lines-entries_text zero (e ∷ es) m h v own room =
    let text = ap length (entries_text-line e es) in
    let l = length-append (entry_line e) (b'\n' ∷ entries_text es) in absurd (omega arith)
read_lines-entries_text (suc fuel) (e ∷ es) m h v own room =
    let text = ap length (entries_text-line e es) in
    let l = length-append (entry_line e) (b'\n' ∷ entries_text es) in
    let n = length-append m.entries (e ∷ es) in
    let same = append_assoc m.entries (e ∷ []) es in
    let missing =
      All-map (λ (x : Entry). All (Differ x) (e ∷ es)) (λ (x : Entry). x.path ≢ e.path) m.entries
        (λ x differs. differs.0) (Pairwise-append_across Differ m.entries (e ∷ es) own) in
    ap (λ text. read_lines (parse_line 3) (suc fuel) text m) (entries_text-line e es)
    ∙ read_lines-line (parse_line 3) fuel (entry_line e) (entries_text es) m
        (entry_line-IsLine e v.0)
    ∙ ap (λ r. then_load r (read_lines (parse_line 3) fuel (entries_text es)))
        (parse_line-entry_line e m v.0 ∙ load_entry-new e m v.0 missing (omega arith))
    ∙ read_lines-entries_text fuel es (entries_of (m.entries ++ e ∷ [])) (omega arith) v.1
        (subst HasOwnPaths (sym same) own)
        (subst (λ xs. length xs ≤ manifest_capacity) (sym same) room)
    ∙ ap (λ es. (ok, entries_of es)) same

read_header-text : (text : List ℕ) → read_header (header_v3 ++ text) ≡ some (3, text)
unfolding read_header mem_eq
read_header-text text = ground arith

-- A well-formed manifest that is serialized into a buffer with room for it is parsed back as it was,
-- whatever manifest stood where it is parsed to.
pub parse-serialize :
    (m old : Manifest) (capacity : ℕ)
    → IsSound m
    → length (manifest_text m) ≤ capacity
    → parse (some (serialize m true capacity true).output) true old ≡ (ok, m)
unfolding parse load_rest parse_lines entries_of
parse-serialize m old capacity s h =
    ap (λ w. parse (some w.output) true old) (serialize_fits m capacity s h)
    ∙ ap (load_rest true old) (read_header-text (entries_text m.entries))
    ∙ ap (keep_parsed old) (
        read_lines-entries_text (length (entries_text m.entries)) m.entries init (omega arith)
          s.valid s.own_paths s.within)
