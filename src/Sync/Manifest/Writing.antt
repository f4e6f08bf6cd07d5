-- ===== src/Sync/Manifest/Writing.antt =====
-- Writing the file: what `serialize` writes for a well-formed manifest, and when the buffer is too small.
use revlink_sidecar.Base.{
  ℕ, ◌+◌, ◌-◌, ◌≡◌, ltb→lt, Bool-cases, ◌≤◌, ◌<◌, ◌⊎◌, inl, inr, refl, sym, subst, ltb, true, false,
  some, List, [], ◌++◌, length, All, arith,
}
use revlink_sidecar.Sync.Text.Output.{
  Output, wrote, too_small, refused, append_bytes, append_pieces, IsTooSmall,
}
use revlink_sidecar.Sync.Text.Writing.{pieces_text, write_all-fits, write_all-IsTooSmall}
use revlink_sidecar.Sync.Manifest.{buffer_too_small, Entry, Manifest, manifest_capacity}
use revlink_sidecar.Sync.Manifest.File.{
  header_v3, entry_pieces, write_entry, write_entries, Written, report, serialize,
}
use revlink_sidecar.Sync.Manifest.Sound.{IsValid, IsSound}
use revlink_sidecar.Sync.Manifest.Lines.{entry_prefix_short}

-- The text of the entries, and of the whole file.
abbrev pub entries_text : List Entry → List ℕ
entries_text = pieces_text entry_pieces

abbrev pub manifest_text : Manifest → List ℕ
manifest_text m = header_v3 ++ entries_text m.entries

-- The two guards of a valid entry hold.
write_entry-valid :
    (capacity : ℕ) (e : Entry) (out : List ℕ)
    → IsValid e
    → write_entry capacity e out ≡ append_pieces capacity (entry_pieces e) out
unfolding write_entry
write_entry-valid capacity e out v =
    let short = entry_prefix_short e v in
    let path = v.path_valid in let name = v.name_valid in let size = v.not_empty in ground arith

write_entries-fits :
    (capacity : ℕ) (es : List Entry) (out : List ℕ)
    → All IsValid es
    → length out + length (entries_text es) ≤ capacity
    → write_entries capacity es out ≡ wrote (out ++ entries_text es)
unfolding write_entries
write_entries-fits capacity =
    write_all-fits (write_entry capacity) entry_pieces IsValid capacity (write_entry-valid capacity)

write_entries-IsTooSmall :
    (capacity : ℕ) (es : List Entry) (out : List ℕ)
    → All IsValid es
    → length out ≤ capacity
    → capacity < length out + length (entries_text es)
    → IsTooSmall capacity (write_entries capacity es out)
unfolding write_entries
write_entries-IsTooSmall capacity =
    write_all-IsTooSmall (write_entry capacity) entry_pieces IsValid capacity
      (write_entry-valid capacity)

pub serialize_fits :
    (m : Manifest) (capacity : ℕ)
    → IsSound m
    → length (manifest_text m) ≤ capacity
    → serialize m true capacity true ≡ report (wrote (manifest_text m))
unfolding serialize append_bytes
serialize_fits m capacity s h =
    let few : ltb manifest_capacity (length m.entries) ≡ false =
      let within = s.within in ground arith in
    let room : ltb (capacity - 0) 19 ≡ false = ground arith in
    rw (few, room, write_entries-fits capacity m.entries header_v3 s.valid (omega arith)) refl

serialize-IsTooSmall :
    (m : Manifest) (capacity : ℕ)
    → IsSound m
    → capacity < length (manifest_text m)
    → (o : Output) × (serialize m true capacity true ≡ report o) × IsTooSmall capacity o
unfolding serialize append_bytes
serialize-IsTooSmall m capacity s h =
    let few : ltb manifest_capacity (length m.entries) ≡ false =
      let within = s.within in ground arith in
    elim (Bool-cases (ltb (capacity - 0) 19)) [
      | inl short ↦ (too_small [] 19, rw (few, short) refl, (omega arith, ground arith))
      | inr room ↦ (
        write_entries capacity m.entries header_v3,
        rw (few, room) refl,
        write_entries-IsTooSmall capacity m.entries header_v3 s.valid (ground arith) (omega arith),
      )
    ]

abbrev pub IsRefused : ℕ → Written → Type 0
IsRefused capacity w =
    (w.status ≡ buffer_too_small)
    × (length w.output ≤ capacity)
    × ((needed : ℕ) × (w.output_length ≡ some needed) × (capacity < needed))

too_small→IsRefused :
    (capacity : ℕ) (o : Output) → IsTooSmall capacity o → IsRefused capacity (report o)
too_small→IsRefused capacity (wrote out) h = absurd h
too_small→IsRefused capacity (too_small out needed) h = (refl, h.0, (needed, refl, h.1))
too_small→IsRefused capacity (refused out) h = absurd h

-- The serializer of a well-formed manifest either writes the whole text, which fits the buffer, or the
-- text does not fit, and then it says so, has written no more than the buffer holds, and asks for more.
pub serialize-room :
    (m : Manifest) (capacity : ℕ)
    → IsSound m
    → (length (manifest_text m) ≤ capacity)
        × (serialize m true capacity true ≡ report (wrote (manifest_text m)))
      ⊎ (capacity < length (manifest_text m)) × IsRefused capacity (serialize m true capacity true)
serialize-room m capacity s = elim (Bool-cases (ltb capacity (length (manifest_text m)))) [
  | inl short ↦
      let long = ltb→lt capacity (length (manifest_text m)) short in
      let refusal = serialize-IsTooSmall m capacity s long in
      inr (
        long,
        subst (IsRefused capacity) (sym refusal.1)
            (too_small→IsRefused capacity refusal.0 refusal.2),
      )
  | inr fits ↦
      let room : length (manifest_text m) ≤ capacity = ground arith in
      inl (room, serialize_fits m capacity s room)
]
