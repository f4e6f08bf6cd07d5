-- ===== src/Sync/History/Reading.antt =====
-- Reading any file at all: the whole file or nothing of it, and what `parse` leaves is a well-formed history.
use revlink_sidecar.Base.{
  ℕ, ◌≡◌, ◌≤◌, ◌<◌, ◌⊎◌, inl, inr, refl, leb, ◌==◌, Bool, Bool-cases, true, false, Option, none,
  some, List, [], ◌∷◌, ◌++◌, drop, append_assoc, mem_eq→prefix, if◌then◌else◌, ◌≢◌, ap, sym, ◌∙◌,
  length, All-map, uint32_max, arith,
}
use revlink_sidecar.Sync.Text.{codes, parse_number, take_line}
use revlink_sidecar.Sync.Text.Numbers.{parse_number_le}
use revlink_sidecar.Sync.Loop.Lines.{IsReadWhole, read_lines-IsReadWhole, take_line→parts}
use revlink_sidecar.Sync.Loop.{OnSome, bind-OnSome, if-OnSome, read_lines_keeps}
use revlink_sidecar.Sync.Manifest.{
  ManifestStatus, ok, invalid_argument, invalid_format, capacity_exceeded, buffer_too_small,
  allocation_failed,
}
use revlink_sidecar.Sync.History.{HistoryEntry, History}
use revlink_sidecar.Sync.History.File.{
  Parsed, parse_line, parse_lines, keep_parsed, read_next, has_prefix, header_prefix_v1,
  header_prefix_v2, read_header, load_rest, parse,
}
use revlink_sidecar.Sync.History.Sound.{IsSound}
use revlink_sidecar.Sync.History.Loaded.{IsParsed, parse_line-IsParsed}

-- The first line of a version of the file, with the next number written as given.
abbrev pub first_line : Bool → List ℕ → List ℕ
first_line version_two number =
    codes "REVLINK-HISTORY\t"
    ++ (if version_two then b'2' else b'1') ∷ b'\t' ∷ (number ++ b'\n' ∷ [])

abbrev pub nothing_read : Parsed
nothing_read = record { entries = []; highest_sequence = 0 }

-- The whole of a file was read: it is a first line with the next number, and lines, each with its newline;
-- the entries are what loading each of them gives, and their numbers stay below the next.
pub record IsWholeFile (input : Option (List ℕ)) (h : History) : Type 0 where
  pub version_two : Bool
  pub number : List ℕ
  pub text : List ℕ
  pub highest : ℕ
  pub parts : input ≡ some (first_line version_two number ++ text)
  pub numbered : parse_number 10 uint32_max number ≡ some h.next_sequence
  pub started : 0 < h.next_sequence
  pub below : highest < h.next_sequence
  pub read :
      IsReadWhole
        (parse_line version_two)
        text
        nothing_read
        (record { entries = h.entries; highest_sequence = highest })

-- What the first line says.
record IsNext (input : List ℕ) (header : Bool × ℕ × List ℕ) : Type 0 where
  number : List ℕ
  parts : input ≡ first_line header.0 number ++ header.2
  numbered : parse_number 10 uint32_max number ≡ some header.1
  started : 0 < header.1
  fits : header.1 ≤ uint32_max

read_next-IsNext :
    (version_two : Bool) (input text : List ℕ)
    → ((number rest : List ℕ)
        → text ≡ number ++ b'\n' ∷ rest
        → input ≡ first_line version_two number ++ rest)
    → OnSome (IsNext input) (read_next version_two text)
read_next-IsNext version_two input text whole =
    bind-OnSome (IsNext input) (take_line text) _ (λ cut c.
      bind-OnSome (IsNext input) (parse_number 10 uint32_max cut.0) _ (λ next n.
        if-OnSome (IsNext input) (next == 0) _ (λ other. record {
          number = cut.0;
          parts = whole cut.0 cut.1 (take_line→parts text cut c);
          numbered = n;
          started = ground arith;
          fits = parse_number_le 10 uint32_max cut.0 next (omega arith) n;
        })))

first_line_parts :
    (version_two : Bool) (prefix input number rest : List ℕ)
    → prefix ≡ codes "REVLINK-HISTORY\t" ++ (if version_two then b'2' else b'1') ∷ b'\t' ∷ []
    → has_prefix prefix input ≡ true
    → drop (length prefix) input ≡ number ++ b'\n' ∷ rest
    → input ≡ first_line version_two number ++ rest
first_line_parts version_two prefix input number rest p h e =
    mem_eq→prefix prefix input (ground arith)
    ∙ ap (λ r. prefix ++ r) e
    ∙ ap (λ q. q ++ (number ++ b'\n' ∷ rest)) p
    ∙ ap (λ r. codes "REVLINK-HISTORY\t" ++ (if version_two then b'2' else b'1') ∷ b'\t' ∷ r)
        (sym (append_assoc number (b'\n' ∷ []) rest))

read_header-IsNext : (input : List ℕ) → OnSome (IsNext input) (read_header input)
unfolding read_header
read_header-IsNext input = elim (Bool-cases (has_prefix header_prefix_v2 input)) [
  | inl two ↦ rw two (
      read_next-IsNext true input (drop 18 input)
        (λ number rest. first_line_parts true header_prefix_v2 input number rest refl two))
  | inr older ↦ elim (Bool-cases (has_prefix header_prefix_v1 input)) [
    | inl one ↦
        rw (older, one)
          (read_next-IsNext false input (drop 18 input)
            (λ number rest. first_line_parts false header_prefix_v1 input number rest refl one))
    | inr other ↦ rw (older, other) tt
  ]
]

-- What is left of a history: what the whole file says, or the history as it was.
abbrev pub IsLeft : Option (List ℕ) → History → ManifestStatus × History → Type 0
IsLeft input h r = IsSound r.1 × ((r.0 ≡ ok) × IsWholeFile input r.1 ⊎ (r.0 ≢ ok) × (r.1 ≡ h))

keep_parsed-IsLeft :
    (input text : List ℕ) (version_two : Bool) (next : ℕ) (h : History)
    (r : ManifestStatus × Parsed)
    → IsSound h
    → IsNext input (version_two, next, text)
    → IsParsed r.1
    → ((p : Parsed) → r ≡ (ok, p) → IsReadWhole (parse_line version_two) text nothing_read p)
    → IsLeft (some input) h (keep_parsed h next r)
unfolding keep_parsed
keep_parsed-IsLeft input text version_two next h (ok, p) s n parsed whole =
    elim (Bool-cases (leb next p.highest_sequence)) [
      | inl low ↦ rw low (s, inr (λ e. absurd cc, refl))
      | inr below ↦ rw below (
        record {
          valid = parsed.valid;
          rising = parsed.rising;
          below =
              All-map (λ (x : HistoryEntry). x.sequence ≤ p.highest_sequence)
                (λ (x : HistoryEntry). x.sequence < next) p.entries (λ x le. ground arith)
                parsed.below;
          started = n.started;
          next_fits = n.fits;
          within = parsed.within;
        },
        inl (
          refl,
          record {
            version_two = version_two;
            number = n.number;
            text = text;
            highest = p.highest_sequence;
            parts = ap some n.parts;
            numbered = n.numbered;
            started = n.started;
            below = ground arith;
            read = whole p refl;
          },
        ),
      )
    ]
keep_parsed-IsLeft input text v next h (invalid_argument, p) s n parsed whole =
    (s, inr (λ e. absurd cc, refl))
keep_parsed-IsLeft input text v next h (invalid_format, p) s n parsed whole =
    (s, inr (λ e. absurd cc, refl))
keep_parsed-IsLeft input text v next h (capacity_exceeded, p) s n parsed whole =
    (s, inr (λ e. absurd cc, refl))
keep_parsed-IsLeft input text v next h (buffer_too_small, p) s n parsed whole =
    (s, inr (λ e. absurd cc, refl))
keep_parsed-IsLeft input text v next h (allocation_failed, p) s n parsed whole =
    (s, inr (λ e. absurd cc, refl))

load_rest-IsLeft :
    (input : List ℕ) (allocated : Bool) (h : History) (header : Option (Bool × ℕ × List ℕ))
    → IsSound h
    → OnSome (IsNext input) header
    → IsLeft (some input) h (load_rest allocated h header)
unfolding load_rest parse_lines
load_rest-IsLeft input allocated h none s n = (s, inr (λ e. absurd cc, refl))
load_rest-IsLeft input false h (some (version_two, next, rest)) s n =
    (s, inr (λ e. absurd cc, refl))
load_rest-IsLeft input true h (some (version_two, next, rest)) s n =
    keep_parsed-IsLeft input rest version_two next h (parse_lines version_two rest nothing_read) s n
      (read_lines_keeps IsParsed (parse_line version_two) (parse_line-IsParsed version_two)
        (length rest) rest nothing_read
        (record { valid = tt; rising = tt; below = tt; within = omega arith }))
      (λ p e. read_lines-IsReadWhole (parse_line version_two) rest nothing_read p e)

-- Whatever bytes a file holds, and whether there is memory or not, a well-formed history is followed by a
-- well-formed one. Either the answer is `ok`, the file is a first line with the next number and whole lines
-- to its last byte, and the entries are what these lines load, with numbers below the next, or the answer is an
-- error and the history is left as it was.
pub history_parse-IsSound :
    (input : Option (List ℕ)) (allocated : Bool) (h : History)
    → IsSound h
    → IsLeft input h (parse input allocated h)
unfolding parse
history_parse-IsSound none allocated h s = (s, inr (λ e. absurd cc, refl))
history_parse-IsSound (some input) allocated h s =
    load_rest-IsLeft input allocated h (read_header input) s (read_header-IsNext input)
