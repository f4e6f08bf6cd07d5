-- ===== src/Sync/Manifest/Reading.antt =====
-- Reading any file at all: the whole file or nothing of it, and what `parse` leaves is well-formed.
use revlink_sidecar.Base.{
  ℕ, ◌≡◌, ap, ◌≤◌, ◌⊎◌, inl, inr, refl, leb, ◌==◌, not, Bool, Bool-cases, true, false, ◌||◌, Option,
  none, some, ◌>>=◌, List, [], ◌∷◌, ◌++◌, ◌≢◌, ◌+◌, drop, mem_eq→prefix, length, get_or, text_of,
  uint32_max, uint64_max, arith,
}
use revlink_sidecar.Sync.Text.{
  codes, valid_path, valid_name, sha256_bytes, parse_number, parse_hex, split_fields, name_capacity,
}
use revlink_sidecar.Sync.Text.Numbers.{parse_number_le}
use revlink_sidecar.Sync.Text.Digests.{parse_hex-IsBytes}
use revlink_sidecar.Sync.Loop.{OnSome, bind-OnSome, if-OnSome, read_lines, read_lines_keeps}
use revlink_sidecar.Sync.Loop.Lines.{
  IsCut, IsCut_lem, load_lines, read_lines-load_lines, IsReadWhole, read_lines-IsReadWhole,
}
use revlink_sidecar.Sync.Manifest.{
  ManifestStatus, ok, invalid_argument, invalid_format, capacity_exceeded, buffer_too_small,
  allocation_failed, Entry, Manifest, init,
}
use revlink_sidecar.Sync.Manifest.File.{
  header_v1, header_v2, header_v3, has_header, read_header, cache_field, digest_field,
  expected_fields, parse_sync_time, parse_version_presence, parse_fields, finish_entry, load_entry,
  parse_line, load_parsed, parse_lines, keep_parsed, load_rest, parse,
}
use revlink_sidecar.Sync.Manifest.Catalogue.{upsert_entry}
use revlink_sidecar.Sync.Manifest.Sound.{
  IsTyped, IsSound, init-IsSound, upsert_at-IsSound, set_presence-IsSound,
}

sync_time_le :
    (version : ℕ) (text : List ℕ) (utc : ℕ)
    → parse_sync_time version text ≡ some utc
    → utc ≤ uint64_max
sync_time_le version text utc h = ground (arith, parse_number_le 20 uint64_max text utc)

-- What a line's fields say has the widths of the entry's fields.
parse_fields-IsTyped :
    (version : ℕ) (fields : List (List ℕ)) → OnSome IsTyped (parse_fields version fields)
unfolding parse_fields
parse_fields-IsTyped version fields =
    let field : ℕ → List ℕ = λ i. get_or fields i [] in
    let name = text_of (field (cache_field version)) (length (field (cache_field version))) in
    if-OnSome IsTyped
      (not (length fields == expected_fields version)
        || not (valid_path (some (field 0)))
        || leb name_capacity (length (field (cache_field version))))
      _
      (λ _. bind-OnSome IsTyped (parse_number 10 uint32_max (field 1)) _ (λ device_time_raw t.
        bind-OnSome IsTyped (parse_number 10 uint32_max (field 2)) _ (λ size z.
          bind-OnSome IsTyped (parse_sync_time version (field 3)) _ (λ utc u.
            bind-OnSome IsTyped (parse_hex sha256_bytes (field (digest_field version))) _
              (λ digest d.
                bind-OnSome IsTyped (parse_version_presence version (field 6)) _ (λ presence p.
                  if-OnSome IsTyped (size == 0 || not (valid_name (some name))) _ (λ _. record {
                    device_time_fits =
                        parse_number_le 10 uint32_max (field 1) device_time_raw (omega arith) t;
                    size_fits = parse_number_le 10 uint32_max (field 2) size (omega arith) z;
                    sync_time_fits = sync_time_le version (field 3) utc u;
                    digest_length =
                        (parse_hex-IsBytes sha256_bytes (field (digest_field version)) digest d).0;
                    digest_bytes =
                        (parse_hex-IsBytes sha256_bytes (field (digest_field version)) digest d).1;
                  })))))))

load_entry-IsSound : (e : Entry) (m : Manifest) → IsTyped e → IsSound m → IsSound (load_entry e m).1
unfolding load_entry finish_entry
load_entry-IsSound e m typed s = go (upsert_entry e m) (upsert_at-IsSound e m typed s)
  where
    go : (r : ManifestStatus × Manifest) → IsSound r.1 → IsSound (finish_entry e r).1
    go (ok, stored) h = set_presence-IsSound stored (some e.path) e.presence h
    go (capacity_exceeded, stored) h = h
    go (invalid_argument, stored) h = h
    go (invalid_format, stored) h = h
    go (buffer_too_small, stored) h = h
    go (allocation_failed, stored) h = h

parse_line-IsSound :
    (version : ℕ) (line : List ℕ) (m : Manifest) → IsSound m → IsSound (parse_line version line m).1
unfolding parse_line
parse_line-IsSound version line m s = elim (Bool-cases (length line == 0)) [
  | inl empty ↦ rw empty s
  | inr long ↦ rw long (
      go (split_fields 7 [] line >>= parse_fields version) (
        bind-OnSome IsTyped (split_fields 7 [] line) (parse_fields version)
          (λ fields _. parse_fields-IsTyped version fields)))
]
  where
    go : (o : Option Entry) → OnSome IsTyped o → IsSound (load_parsed m o).1
    go none h = s
    go (some e) h = load_entry-IsSound e m h s

-- The loop over the lines ends: on fuel of at least the text's length, whatever the text, it loads the lines
-- of the text one after the other, each of them once, up to the first that is refused, and refuses bytes
-- behind the last newline.
pub parse_lines_fuel :
    (fuel version : ℕ) (text : List ℕ) (m : Manifest)
    → length text ≤ fuel
    → (c : IsCut text) × (read_lines (parse_line version) fuel text m
        ≡ load_lines (parse_line version) c.lines c.tail m)
parse_lines_fuel fuel version text m h =
    (IsCut_lem text, read_lines-load_lines (parse_line version) fuel text m (IsCut_lem text) h)

-- The header of a version of the file.
abbrev pub header_of : ℕ → List ℕ
header_of version = codes "REVLINK-MANIFEST\t" ++ (b'0' + version) ∷ b'\n' ∷ []

-- The whole of a file was read: it is the header of one of the three versions and lines, each with its
-- newline, and the manifest is what loading each of them leaves of an empty one.
pub record IsWholeFile (input : Option (List ℕ)) (m : Manifest) : Type 0 where
  pub version : ℕ
  pub at_least : 1 ≤ version
  pub at_most : version ≤ 3
  pub text : List ℕ
  pub parts : input ≡ some (header_of version ++ text)
  pub read : IsReadWhole (parse_line version) text init m

abbrev pub IsFrom : List ℕ → ℕ × List ℕ → Type 0
IsFrom input header = (1 ≤ header.0) × (header.0 ≤ 3) × (input ≡ header_of header.0 ++ header.1)

has_header→parts :
    (header input : List ℕ)
    → has_header header input ≡ true
    → input ≡ header ++ drop (length header) input
has_header→parts header input h = mem_eq→prefix header input (ground arith)

read_header-IsFrom : (input : List ℕ) → OnSome (IsFrom input) (read_header input)
unfolding read_header
read_header-IsFrom input = elim (Bool-cases (has_header header_v3 input)) [
  | inl three ↦ rw three (omega arith, omega arith, has_header→parts header_v3 input three)
  | inr older ↦ elim (Bool-cases (has_header header_v2 input)) [
    | inl two ↦ rw (older, two) (omega arith, omega arith, has_header→parts header_v2 input two)
    | inr oldest ↦ elim (Bool-cases (has_header header_v1 input)) [
      | inl one ↦
          rw (older, oldest, one) (omega arith, omega arith, has_header→parts header_v1 input one)
      | inr other ↦ rw (older, oldest, other) tt
    ]
  ]
]

-- What is left of a manifest: what the whole file says, or the manifest as it was.
abbrev pub IsLeft : Option (List ℕ) → Manifest → ManifestStatus × Manifest → Type 0
IsLeft input m r = IsSound r.1 × ((r.0 ≡ ok) × IsWholeFile input r.1 ⊎ (r.0 ≢ ok) × (r.1 ≡ m))

keep_parsed-IsLeft :
    (input : Option (List ℕ)) (m : Manifest) (r : ManifestStatus × Manifest)
    → IsSound m
    → IsSound r.1
    → ((parsed : Manifest) → r ≡ (ok, parsed) → IsWholeFile input parsed)
    → IsLeft input m (keep_parsed m r)
keep_parsed-IsLeft input m (ok, parsed) s p whole = (p, inl (refl, whole parsed refl))
keep_parsed-IsLeft input m (invalid_argument, parsed) s p whole = (s, inr (λ e. absurd cc, refl))
keep_parsed-IsLeft input m (invalid_format, parsed) s p whole = (s, inr (λ e. absurd cc, refl))
keep_parsed-IsLeft input m (capacity_exceeded, parsed) s p whole = (s, inr (λ e. absurd cc, refl))
keep_parsed-IsLeft input m (buffer_too_small, parsed) s p whole = (s, inr (λ e. absurd cc, refl))
keep_parsed-IsLeft input m (allocation_failed, parsed) s p whole = (s, inr (λ e. absurd cc, refl))

load_rest-IsLeft :
    (input : List ℕ) (allocated : Bool) (m : Manifest) (header : Option (ℕ × List ℕ))
    → IsSound m
    → OnSome (IsFrom input) header
    → IsLeft (some input) m (load_rest allocated m header)
unfolding load_rest parse_lines
load_rest-IsLeft input allocated m none s f = (s, inr (λ e. absurd cc, refl))
load_rest-IsLeft input false m (some (version, rest)) s f = (s, inr (λ e. absurd cc, refl))
load_rest-IsLeft input true m (some (version, rest)) s f =
    keep_parsed-IsLeft (some input) m (parse_lines version rest init) s
      (read_lines_keeps IsSound (parse_line version) (parse_line-IsSound version) (length rest) rest
        init init-IsSound)
      (λ parsed e. record {
        version = version;
        at_least = f.0;
        at_most = f.1;
        text = rest;
        parts = ap some f.2;
        read = read_lines-IsReadWhole (parse_line version) rest init parsed e;
      })

-- Whatever bytes a file holds, and whether there is memory or not, a well-formed manifest is followed by a
-- well-formed one. Either the answer is `ok`, the file is a header and whole lines to its last byte, and the
-- manifest is what these lines load, or the answer is an error and the manifest is left as it was.
pub parse-IsSound :
    (input : Option (List ℕ)) (allocated : Bool) (m : Manifest)
    → IsSound m
    → IsLeft input m (parse input allocated m)
unfolding parse
parse-IsSound none allocated m s = (s, inr (λ e. absurd cc, refl))
parse-IsSound (some input) allocated m s =
    load_rest-IsLeft input allocated m (read_header input) s (read_header-IsFrom input)
