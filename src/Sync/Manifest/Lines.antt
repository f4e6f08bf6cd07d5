-- ===== src/Sync/Manifest/Lines.antt =====
-- A line of the manifest's file: the text of a valid entry is read back as the entry.
use revlink_sidecar.Base.{
  ℕ, ◌≡◌, ◌≤◌, ◌<◌, refl, ap, subst, leb, ◌==◌, not, true, false, ◌&&◌, some, List, [], ◌∷◌, ◌++◌,
  append_assoc, length, length-append, drop, strnlen, text_of, arith,
}
use revlink_sidecar.Sync.Text.{
  all_of, path_byte, name_byte, valid_path, valid_name, decimal, print_hex, parse_hex,
}
use revlink_sidecar.Sync.Text.Numbers.{
  IsPlain, decimal-IsPlain, decimal_ne_nil, length-decimal, parse_u32-decimal, parse_u64-decimal,
}
use revlink_sidecar.Sync.Text.Digests.{
  all_below, all_below→test, length-print_hex, print_hex-IsPlain, parse_hex-print_hex,
}
use revlink_sidecar.Sync.Text.Fields.{
  join_fields, IsFieldList, split_fields-join_fields, IsLine, join_fields-IsLine,
}
use revlink_sidecar.Sync.Text.Output.{joined}
use revlink_sidecar.Sync.Manifest.{Presence, unknown, on_device, absent, Entry, Manifest}
use revlink_sidecar.Sync.Manifest.File.{
  prefix_capacity, entry_prefix, presence_text, entry_pieces, parse_presence, parse_fields,
  load_entry, parse_line,
}
use revlink_sidecar.Sync.Manifest.Sound.{IsValid}

abbrev pub entry_fields : Entry → List (List ℕ)
entry_fields e =
    e.path
    ∷ decimal e.device_time_raw
    ∷ decimal e.size
    ∷ decimal e.initial_sync_utc
    ∷ print_hex e.sha256
    ∷ e.cache_name
    ∷ presence_text e.presence
    ∷ []

unfoldable pub entry_line : Entry → List ℕ
entry_line e = join_fields (entry_fields e)

pub joined-entry_pieces : (e : Entry) → joined (entry_pieces e) ≡ entry_line e ++ b'\n' ∷ []
unfolding entry_prefix entry_line join_fields
joined-entry_pieces e = simp append_assoc

-- None of the bytes below 32 is allowed in a path or a name.
control_bytes : all_below (λ b. not (path_byte b) && not (name_byte b)) 32 ≡ true
unfolding all_below path_byte name_byte
control_bytes = refl

path_byte_plain : (b : ℕ) → path_byte b ≡ true → 32 ≤ b
path_byte_plain b h =
    let below = all_below→test (λ c. not (path_byte c) && not (name_byte c)) 32 b control_bytes in
    ground arith

name_byte_plain : (b : ℕ) → name_byte b ≡ true → 32 ≤ b
name_byte_plain b h =
    let below = all_below→test (λ c. not (path_byte c) && not (name_byte c)) 32 b control_bytes in
    ground arith

path_bytes-IsPlain : (xs : List ℕ) → all_of path_byte xs ≡ true → IsPlain xs
path_bytes-IsPlain [] h = tt
path_bytes-IsPlain (x ∷ xs) h =
    (path_byte_plain x (ground arith), path_bytes-IsPlain xs (ground arith))

name_bytes-IsPlain : (xs : List ℕ) → all_of name_byte xs ≡ true → IsPlain xs
name_bytes-IsPlain [] h = tt
name_bytes-IsPlain (x ∷ xs) h =
    (name_byte_plain x (ground arith), name_bytes-IsPlain xs (ground arith))

pub valid_path→IsPlain :
    (path : List ℕ)
    → valid_path (some path) ≡ true
    → (0 < length path) × (length path < 256) × IsPlain path
unfolding valid_path
valid_path→IsPlain path h = (ground arith, ground arith, path_bytes-IsPlain path (ground arith))

pub valid_name→IsPlain :
    (name : List ℕ)
    → valid_name (some name) ≡ true
    → (0 < length name) × (length name < 160) × IsPlain name
unfolding valid_name
valid_name→IsPlain name h = (ground arith, ground arith, name_bytes-IsPlain name (ground arith))

-- A text without control characters is its own text before the NUL.
pub text_of_plain : (xs : List ℕ) → IsPlain xs → text_of xs (length xs) ≡ xs
unfolding strnlen
text_of_plain [] h = refl
text_of_plain (x ∷ xs) h =
    let first : (x == 0) ≡ false = ground arith in rw first (ap (λ r. x ∷ r) (text_of_plain xs h.1))

presence_cases :
    (p : Presence)
    → (parse_presence (presence_text p) ≡ some p)
      × (0 < length (presence_text p))
      × IsPlain (presence_text p)
unfolding parse_presence
presence_cases on_device = (refl, omega arith, (omega arith, tt))
presence_cases absent = (refl, omega arith, (omega arith, tt))
presence_cases unknown = (refl, omega arith, (omega arith, tt))

-- `snprintf` never fills the prefix's buffer.
pub entry_prefix_short : (e : Entry) → IsValid e → length (entry_prefix e) < prefix_capacity
unfolding entry_prefix
entry_prefix_short e v =
    let path = (valid_path→IsPlain e.path v.path_valid).1 in
    let t = length-decimal 10 e.device_time_raw (omega arith) (grind arith) in
    let s = length-decimal 10 e.size (omega arith) (grind arith) in
    let u = length-decimal 20 e.initial_sync_utc (omega arith) (grind arith) in
    let after_size = b'\t' ∷ (decimal e.initial_sync_utc ++ (b'\t' ∷ [])) in
    let after_time = b'\t' ∷ (decimal e.size ++ after_size) in
    let after_path = b'\t' ∷ (decimal e.device_time_raw ++ after_time) in
    let fourth = length-append (decimal e.initial_sync_utc) (b'\t' ∷ []) in
    let third = length-append (decimal e.size) after_size in
    let second = length-append (decimal e.device_time_raw) after_time in
    let first = length-append e.path after_path in
    let whole : length (e.path ++ after_path) < prefix_capacity = omega arith in whole

entry_fields-IsFieldList : (e : Entry) → IsValid e → IsFieldList (entry_fields e)
entry_fields-IsFieldList e v =
    let path = valid_path→IsPlain e.path v.path_valid in
    let name = valid_name→IsPlain e.cache_name v.name_valid in
    let presence = presence_cases e.presence in
    let digest = length-print_hex e.sha256 in
    let bytes = v.typed.digest_length in
    (
      (path.0, path.2),
      (
        (decimal_ne_nil e.device_time_raw, decimal-IsPlain e.device_time_raw),
        (
          (decimal_ne_nil e.size, decimal-IsPlain e.size),
          (
            (decimal_ne_nil e.initial_sync_utc, decimal-IsPlain e.initial_sync_utc),
            (
              (omega arith, print_hex-IsPlain e.sha256 v.typed.digest_bytes),
              ((name.0, name.2), ((presence.1, presence.2), tt)),
            ),
          ),
        ),
      ),
    )

parse_fields-entry_fields : (e : Entry) → IsValid e → parse_fields 3 (entry_fields e) ≡ some e
unfolding parse_fields
parse_fields-entry_fields e v =
    let name = valid_name→IsPlain e.cache_name v.name_valid in
    let short : leb 160 (length e.cache_name) ≡ false = ground arith in
    let big : (e.size == 0) ≡ false = ground arith in
    let digest =
      subst (λ n. parse_hex n (print_hex e.sha256) ≡ some e.sha256) v.typed.digest_length
        (parse_hex-print_hex e.sha256 v.typed.digest_bytes) in
    rw
      (
        v.path_valid,
        short,
        parse_u32-decimal e.device_time_raw v.typed.device_time_fits,
        parse_u32-decimal e.size v.typed.size_fits,
        parse_u64-decimal e.initial_sync_utc v.typed.sync_time_fits,
        digest,
        (presence_cases e.presence).0,
        text_of_plain e.cache_name name.2,
        big,
        v.name_valid,
      )
      refl

entry_line_ne_nil : (e : Entry) → IsValid e → (length (entry_line e) == 0) ≡ false
unfolding entry_line join_fields
entry_line_ne_nil e v =
    let path = valid_path→IsPlain e.path v.path_valid in
    let l = length-append e.path (b'\t' ∷ join_fields (drop 1 (entry_fields e))) in ground arith

pub parse_line-entry_line :
    (e : Entry) (m : Manifest) → IsValid e → parse_line 3 (entry_line e) m ≡ load_entry e m
unfolding parse_line entry_line
parse_line-entry_line e m v =
    let path = valid_path→IsPlain e.path v.path_valid in
    let split =
      split_fields-join_fields 7 e.path
        (decimal e.device_time_raw
          ∷ decimal e.size
          ∷ decimal e.initial_sync_utc
          ∷ print_hex e.sha256
          ∷ e.cache_name
          ∷ presence_text e.presence
          ∷ [])
        (omega arith) (entry_fields-IsFieldList e v) in
    let long = entry_line_ne_nil e v in rw (long, split, parse_fields-entry_fields e v) refl

pub entry_line-IsLine : (e : Entry) → IsValid e → IsLine (entry_line e)
unfolding entry_line
entry_line-IsLine e v = join_fields-IsLine (entry_fields e) (entry_fields-IsFieldList e v)
