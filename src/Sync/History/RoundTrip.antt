-- ===== src/Sync/History/RoundTrip.antt =====
-- The history's whole file: what `serialize` writes for a well-formed history, and what `parse` reads of it.
use revlink_sidecar.Base.{
  ℕ, zero, suc, ◌+◌, ◌-◌, ◌≡◌, ◌≤◌, ◌<◌, refl, ap, sym, ◌∙◌, ltb, leb, ◌==◌, true, false, ◌||◌,
  some, List, [], ◌∷◌, ◌++◌, append_assoc, append-nil, length, length-append, All, All-map,
  Pairwise, mem_eq, uint32_max, arith,
}
use revlink_sidecar.Sync.Text.{decimal}
use revlink_sidecar.Sync.Text.Numbers.{decimal-IsPlain, length-decimal, parse_u32-decimal}
use revlink_sidecar.Sync.Text.Fields.{IsPlain→IsLine, take_line-append}
use revlink_sidecar.Sync.Text.Output.{wrote, append_bytes, append_pieces}
use revlink_sidecar.Sync.Text.Writing.{pieces_text, write_all-fits}
use revlink_sidecar.Sync.Loop.{then_load, read_lines, read_lines-line}
use revlink_sidecar.Sync.Manifest.{ok}
use revlink_sidecar.Sync.Manifest.File.{report}
use revlink_sidecar.Sync.History.{HistoryEntry, History, history_capacity}
use revlink_sidecar.Sync.History.File.{
  header_prefix_v2, header_line, entry_pieces, write_entry, write_entries, serialize, has_prefix,
  read_next, read_header, Parsed, load_entry, parse_line, parse_lines, keep_parsed, load_rest,
  parse,
}
use revlink_sidecar.Sync.History.Sound.{IsValid, Precedes, IsSound}
use revlink_sidecar.Sync.History.Lines.{
  entry_line, joined-entry_pieces, entry_prefix_short, parse_line-entry_line, entry_line-IsLine,
}

-- The text of the entries, and of the whole file.
abbrev pub entries_text : List HistoryEntry → List ℕ
entries_text = pieces_text entry_pieces

abbrev pub history_text : History → List ℕ
history_text h = header_line h.next_sequence ++ entries_text h.entries

-- The two guards of a valid entry hold.
write_entry-valid :
    (capacity : ℕ) (e : HistoryEntry) (out : List ℕ)
    → IsValid e
    → write_entry capacity e out ≡ append_pieces capacity (entry_pieces e) out
unfolding write_entry
write_entry-valid capacity e out v =
    let short = entry_prefix_short e v in
    let path = v.path_valid in
    let name = v.name_valid in let size = v.not_empty in let number = v.numbered in ground arith

length-header_line : (n : ℕ) → n ≤ uint32_max → length (header_line n) < 64
unfolding header_line
length-header_line n h =
    let digits = length-decimal 10 n (omega arith) (omega arith) in
    let l = length-append (decimal n) (b'\n' ∷ []) in omega arith

-- A well-formed history's text is written where it fits.
pub serialize_fits :
    (h : History) (capacity : ℕ)
    → IsSound h
    → length (history_text h) ≤ capacity
    → serialize h true capacity true ≡ report (wrote (history_text h))
unfolding serialize append_bytes write_entries
serialize_fits h capacity s fits =
    let l = length-append (header_line h.next_sequence) (entries_text h.entries) in
    let few : ltb history_capacity (length h.entries) ≡ false =
      let within = s.within in ground arith in
    let started : (h.next_sequence == 0) ≡ false = let n = s.started in ground arith in
    let short : leb 64 (length (header_line h.next_sequence)) ≡ false =
      let n = length-header_line h.next_sequence s.next_fits in ground arith in
    let room : ltb (capacity - 0) (length (header_line h.next_sequence)) ≡ false = ground arith in
    let written =
      write_all-fits (write_entry capacity) entry_pieces IsValid capacity
        (write_entry-valid capacity) h.entries (header_line h.next_sequence) s.valid
        (omega arith) in
    rw (few, started, short, room, written) refl

-- The number of the last entry, or the one before.
abbrev pub last_sequence : ℕ → List HistoryEntry → ℕ
last_sequence n [] = n
last_sequence n (e ∷ es) = last_sequence e.sequence es

last_sequence_lt :
    (n next : ℕ) (es : List HistoryEntry)
    → n < next
    → All (λ (e : HistoryEntry). e.sequence < next) es
    → last_sequence n es < next
last_sequence_lt n next [] h p = h
last_sequence_lt n next (e ∷ es) h p = last_sequence_lt e.sequence next es p.0 p.1

load_entry-new :
    (e : HistoryEntry) (p : Parsed)
    → IsValid e
    → p.highest_sequence < e.sequence
    → length p.entries < history_capacity
    → load_entry e p ≡ (ok, record { entries = p.entries ++ e ∷ []; highest_sequence = e.sequence })
unfolding load_entry
load_entry-new e p v above room =
    let name = v.name_valid in
    let number = v.numbered in
    let later : (e.sequence == 0 || leb e.sequence p.highest_sequence) ≡ false = ground arith in
    let few : leb history_capacity (length p.entries) ≡ false = ground arith in
    rw (later, few, name) refl

-- An entry's text is its line.
entries_text-line :
    (e : HistoryEntry) (es : List HistoryEntry)
    → entries_text (e ∷ es) ≡ entry_line e ++ b'\n' ∷ entries_text es
entries_text-line e es =
    ap (λ line. line ++ entries_text es) (joined-entry_pieces e)
    ∙ append_assoc (entry_line e) (b'\n' ∷ []) (entries_text es)

read_lines-entries_text :
    (fuel : ℕ) (es : List HistoryEntry) (p : Parsed)
    → length (entries_text es) ≤ fuel
    → All IsValid es
    → Pairwise Precedes es
    → All (λ (e : HistoryEntry). p.highest_sequence < e.sequence) es
    → length p.entries + length es ≤ history_capacity
    → read_lines (parse_line true) fuel (entries_text es) p ≡ (
      ok,
      record { entries = p.entries ++ es; highest_sequence = last_sequence p.highest_sequence es },
    )
unfolding read_lines
read_lines-entries_text fuel [] p h v rising above room =
    ap (λ es. (ok, record { entries = es; highest_sequence = p.highest_sequence }))
      (sym (append-nil p.entries))
read_lines-entries_text zero (e ∷ es) p h v rising above room =
    let text = ap length (entries_text-line e es) in
    let l = length-append (entry_line e) (b'\n' ∷ entries_text es) in absurd (omega arith)
read_lines-entries_text (suc fuel) (e ∷ es) p h v rising above room =
    let text = ap length (entries_text-line e es) in
    let l = length-append (entry_line e) (b'\n' ∷ entries_text es) in
    let n = length-append p.entries (e ∷ []) in
    ap (λ text. read_lines (parse_line true) (suc fuel) text p) (entries_text-line e es)
    ∙ read_lines-line (parse_line true) fuel (entry_line e) (entries_text es) p
        (entry_line-IsLine e v.0)
    ∙ ap (λ r. then_load r (read_lines (parse_line true) fuel (entries_text es)))
        (parse_line-entry_line e p v.0 ∙ load_entry-new e p v.0 above.0 (omega arith))
    ∙ read_lines-entries_text fuel es
        (record { entries = p.entries ++ e ∷ []; highest_sequence = e.sequence }) (omega arith) v.1
        rising.1 rising.0 (omega arith)
    ∙ ap (λ es'. (ok, record { entries = es'; highest_sequence = last_sequence e.sequence es }))
        (append_assoc p.entries (e ∷ []) es)

read_next-decimal :
    (n : ℕ) (text : List ℕ)
    → 0 < n
    → n ≤ uint32_max
    → read_next true (decimal n ++ b'\n' ∷ text) ≡ some (true, n, text)
read_next-decimal n text started fits =
    let line = take_line-append (decimal n) text (IsPlain→IsLine (decimal n) (decimal-IsPlain n)) in
    let other : (n == 0) ≡ false = ground arith in rw (line, parse_u32-decimal n fits, other) refl

has_prefix-text :
    (text : List ℕ)
    → 0 < length text
    → has_prefix header_prefix_v2 (header_prefix_v2 ++ text) ≡ true
unfolding mem_eq
has_prefix-text text h = ground arith

read_header-line :
    (n : ℕ) (text : List ℕ)
    → 0 < n
    → n ≤ uint32_max
    → read_header (header_line n ++ text) ≡ some (true, n, text)
unfolding read_header header_line mem_eq
read_header-line n text started fits =
    let same = append_assoc (decimal n) (b'\n' ∷ []) text in
    ap (λ t. read_header (header_prefix_v2 ++ t)) same
    ∙ (let l = length-append (decimal n) (b'\n' ∷ text) in
        rw (has_prefix-text (decimal n ++ b'\n' ∷ text) (omega arith))
          (read_next-decimal n text started fits))

-- A well-formed history that is serialized into a buffer with room for it is parsed back as it was, whatever
-- history stood where it is parsed to.
pub history_parse-serialize :
    (h old : History) (capacity : ℕ)
    → IsSound h
    → length (history_text h) ≤ capacity
    → parse (some (serialize h true capacity true).output) true old ≡ (ok, h)
unfolding parse load_rest parse_lines keep_parsed
history_parse-serialize h old capacity s fits =
    let above =
      All-map IsValid (λ (e : HistoryEntry). 0 < e.sequence) h.entries (λ e v. v.numbered)
        s.valid in
    let below : leb h.next_sequence (last_sequence 0 h.entries) ≡ false =
      let lt = last_sequence_lt 0 h.next_sequence h.entries s.started s.below in ground arith in
    ap (λ w. parse (some w.output) true old) (serialize_fits h capacity s fits)
    ∙ ap (load_rest true old)
        (read_header-line h.next_sequence (entries_text h.entries) s.started s.next_fits)
    ∙ ap (keep_parsed old h.next_sequence) (
        read_lines-entries_text (length (entries_text h.entries)) h.entries
          (record { entries = []; highest_sequence = 0 }) (omega arith) s.valid s.rising above
          (let within = s.within in omega arith))
    ∙ rw below refl
