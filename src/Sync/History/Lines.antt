-- ===== src/Sync/History/Lines.antt =====
-- A line of the history's file: the text of a valid entry is read back as the entry.
use revlink_sidecar.Base.{
  ℕ, ◌≡◌, ◌<◌, refl, subst, leb, ◌==◌, true, false, some, List, [], ◌∷◌, ◌++◌, append_assoc, length,
  length-append, drop, arith,
}
use revlink_sidecar.Sync.Text.{decimal, print_hex, parse_hex}
use revlink_sidecar.Sync.Text.Numbers.{
  decimal-IsPlain, decimal_ne_nil, length-decimal, parse_u32-decimal, parse_u64-decimal,
}
use revlink_sidecar.Sync.Text.Digests.{length-print_hex, print_hex-IsPlain, parse_hex-print_hex}
use revlink_sidecar.Sync.Text.Fields.{
  join_fields, IsFieldList, split_fields-join_fields, IsLine, join_fields-IsLine,
}
use revlink_sidecar.Sync.Text.Output.{joined}
use revlink_sidecar.Sync.Manifest.Lines.{valid_path→IsPlain, valid_name→IsPlain, text_of_plain}
use revlink_sidecar.Sync.History.{HistoryEntry}
use revlink_sidecar.Sync.History.File.{
  prefix_capacity, entry_prefix, entry_pieces, parse_fields, Parsed, load_entry, parse_line,
}
use revlink_sidecar.Sync.History.Sound.{IsValid}

abbrev pub entry_fields : HistoryEntry → List (List ℕ)
entry_fields e =
    decimal e.sequence
    ∷ e.path
    ∷ decimal e.device_time_raw
    ∷ decimal e.size
    ∷ decimal e.initial_sync_utc
    ∷ print_hex e.sha256
    ∷ e.object_name
    ∷ []

unfoldable pub entry_line : HistoryEntry → List ℕ
entry_line e = join_fields (entry_fields e)

pub joined-entry_pieces : (e : HistoryEntry) → joined (entry_pieces e) ≡ entry_line e ++ b'\n' ∷ []
unfolding entry_prefix entry_line join_fields
joined-entry_pieces e = simp append_assoc

-- `snprintf` never fills the prefix's buffer.
pub entry_prefix_short : (e : HistoryEntry) → IsValid e → length (entry_prefix e) < prefix_capacity
unfolding entry_prefix
entry_prefix_short e v =
    let path = (valid_path→IsPlain e.path v.path_valid).1 in
    let n = length-decimal 10 e.sequence (omega arith) (grind arith) in
    let t = length-decimal 10 e.device_time_raw (omega arith) (grind arith) in
    let s = length-decimal 10 e.size (omega arith) (grind arith) in
    let u = length-decimal 20 e.initial_sync_utc (omega arith) (grind arith) in
    let after_size = b'\t' ∷ (decimal e.initial_sync_utc ++ b'\t' ∷ []) in
    let after_time = b'\t' ∷ (decimal e.size ++ after_size) in
    let after_path = b'\t' ∷ (decimal e.device_time_raw ++ after_time) in
    let after_sequence = b'\t' ∷ (e.path ++ after_path) in
    let fifth = length-append (decimal e.initial_sync_utc) (b'\t' ∷ []) in
    let fourth = length-append (decimal e.size) after_size in
    let third = length-append (decimal e.device_time_raw) after_time in
    let second = length-append e.path after_path in
    let first = length-append (decimal e.sequence) after_sequence in
    let whole : length (decimal e.sequence ++ after_sequence) < prefix_capacity = omega arith in
    whole

entry_fields-IsFieldList : (e : HistoryEntry) → IsValid e → IsFieldList (entry_fields e)
entry_fields-IsFieldList e v =
    let path = valid_path→IsPlain e.path v.path_valid in
    let name = valid_name→IsPlain e.object_name v.name_valid in
    let digest = length-print_hex e.sha256 in
    let bytes = v.digest_length in
    (
      (decimal_ne_nil e.sequence, decimal-IsPlain e.sequence),
      (
        (path.0, path.2),
        (
          (decimal_ne_nil e.device_time_raw, decimal-IsPlain e.device_time_raw),
          (
            (decimal_ne_nil e.size, decimal-IsPlain e.size),
            (
              (decimal_ne_nil e.initial_sync_utc, decimal-IsPlain e.initial_sync_utc),
              ((omega arith, print_hex-IsPlain e.sha256 v.digest_bytes), ((name.0, name.2), tt)),
            ),
          ),
        ),
      ),
    )

parse_fields-entry_fields :
    (e : HistoryEntry) → IsValid e → parse_fields true (entry_fields e) ≡ some e
unfolding parse_fields
parse_fields-entry_fields e v =
    let name = valid_name→IsPlain e.object_name v.name_valid in
    let short : leb 160 (length e.object_name) ≡ false = ground arith in
    let big : (e.size == 0) ≡ false = let n = v.not_empty in ground arith in
    let digest =
      subst (λ n. parse_hex n (print_hex e.sha256) ≡ some e.sha256) v.digest_length
        (parse_hex-print_hex e.sha256 v.digest_bytes) in
    rw
      (
        v.path_valid,
        short,
        parse_u32-decimal e.sequence v.sequence_fits,
        parse_u32-decimal e.device_time_raw v.device_time_fits,
        parse_u32-decimal e.size v.size_fits,
        parse_u64-decimal e.initial_sync_utc v.sync_time_fits,
        digest,
        text_of_plain e.object_name name.2,
        big,
      )
      refl

entry_line_ne_nil : (e : HistoryEntry) → (length (entry_line e) == 0) ≡ false
unfolding entry_line join_fields
entry_line_ne_nil e =
    let n = decimal_ne_nil e.sequence in
    let l = length-append (decimal e.sequence) (b'\t' ∷ join_fields (drop 1 (entry_fields e))) in
    ground arith

pub parse_line-entry_line :
    (e : HistoryEntry) (p : Parsed) → IsValid e → parse_line true (entry_line e) p ≡ load_entry e p
unfolding parse_line entry_line
parse_line-entry_line e p v =
    let split =
      split_fields-join_fields 7 (decimal e.sequence) (drop 1 (entry_fields e)) (omega arith)
        (entry_fields-IsFieldList e v) in
    let long = entry_line_ne_nil e in rw (long, split, parse_fields-entry_fields e v) refl

pub entry_line-IsLine : (e : HistoryEntry) → IsValid e → IsLine (entry_line e)
unfolding entry_line
entry_line-IsLine e v = join_fields-IsLine (entry_fields e) (entry_fields-IsFieldList e v)
