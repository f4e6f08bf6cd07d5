-- ===== src/Sync/Text.antt =====
-- The text files of firmware/components/revlink_sync: numbers, digests, tab-separated fields and lines, as
-- revlink_sync_manifest.c, revlink_sync_history.c and revlink_sync_annotations.c each spell them out.
pub mod Numbers
pub mod Digests
pub mod Fields
pub mod Output
pub mod Writing
use Prim.Native.Char.{code}
use Prim.Native.String.{String}
use revlink_sidecar.Base.{
  ℕ, zero, suc, ◌+◌, ◌-◌, ◌*◌, ◌/◌, ◌%◌, ltb, leb, ◌==◌, if◌then◌else◌, Bool, true, false, ◌&&◌,
  ◌||◌, Option, none, some, ◌>>=◌, List, [], ◌∷◌, ◌++◌, length, get_or,
}

-- The bytes of an ASCII text.
abbrev pub codes : String → List ℕ
codes String.[] = []
codes (String.◌∷◌ c s) = code c ∷ codes s

abbrev pub is_between : ℕ → ℕ → ℕ → Bool
is_between low high b = leb low b && leb b high

abbrev pub all_of : (ℕ → Bool) → List ℕ → Bool
all_of f [] = true
all_of f (b ∷ bs) = f b && all_of f bs

unfoldable pub name_byte : ℕ → Bool
name_byte b =
    is_between b'a' b'z' b
    || is_between b'A' b'Z' b
    || is_between b'0' b'9' b
    || b == b'.'
    || b == b'_'
    || b == b'-'

unfoldable pub path_byte : ℕ → Bool
path_byte b =
    is_between b'a' b'z' b
    || is_between b'A' b'Z' b
    || is_between b'0' b'9' b
    || b == b'/'
    || b == b'.'
    || b == b'_'
    || b == b'-'
    || b == b' '
    || b == b'('
    || b == b')'

abbrev pub path_capacity : ℕ
path_capacity = 256

abbrev pub name_capacity : ℕ
name_capacity = 160

abbrev pub sha256_bytes : ℕ
sha256_bytes = 32

-- A pointer with a length is the list of so many bytes.
unfoldable pub valid_path : Option (List ℕ) → Bool
valid_path none = false
valid_path (some p) = ltb 0 (length p) && ltb (length p) path_capacity && all_of path_byte p

-- A C string is the list of the bytes before its NUL.
unfoldable pub valid_name : Option (List ℕ) → Bool
valid_name none = false
valid_name (some s) = ltb 0 (length s) && ltb (length s) name_capacity && all_of name_byte s

abbrev pub append_digit : ℕ → ℕ → ℕ → Option ℕ
append_digit max parsed b =
    if is_between b'0' b'9' b
    then if ltb ((max - (b - b'0')) / 10) parsed then none else some (parsed * 10 + (b - b'0'))
    else none

unfoldable pub parse_digits : ℕ → ℕ → List ℕ → Option ℕ
parse_digits max parsed [] = some parsed
parse_digits max parsed (b ∷ bs) = append_digit max parsed b >>= (λ n. parse_digits max n bs)

-- `parse_u32` with 10 digits and UINT32_MAX, `parse_u64` with 20 and UINT64_MAX.
unfoldable pub parse_number : ℕ → ℕ → List ℕ → Option ℕ
parse_number digits max text =
    if length text == 0 || ltb digits (length text) then none else parse_digits max 0 text

-- What `%u` and `%llu` print, for a number of at most so many digits.
unfoldable pub decimal_in : ℕ → ℕ → List ℕ
decimal_in zero n = []
decimal_in (suc digits) n =
    let rest = decimal_in digits (n / 10) in
    if ltb n 10 then (b'0' + n) ∷ [] else rest ++ (b'0' + n % 10) ∷ []

-- No number of 64 bits has more than 20 digits.
abbrev pub decimal : ℕ → List ℕ
decimal = decimal_in 20

unfoldable pub hex_value : ℕ → Option ℕ
hex_value b =
    if is_between b'0' b'9' b
    then some (b - b'0')
    else if is_between b'a' b'f' b
    then some (b - b'a' + 10)
    else if is_between b'A' b'F' b
    then some (b - b'A' + 10)
    else none

abbrev pub hex : List ℕ
hex = codes "0123456789abcdef"

unfoldable pub print_hex : List ℕ → List ℕ
print_hex [] = []
print_hex (b ∷ bs) = get_or hex (b / 16) 0 ∷ get_or hex (b % 16) 0 ∷ print_hex bs

-- The two halves occupy disjoint bits, so the source's `|` is a sum.
unfoldable pub parse_pairs : List ℕ → Option (List ℕ)
parse_pairs [] = some []
parse_pairs (h ∷ []) = none
parse_pairs (h ∷ l ∷ rest) = hex_value h >>= (λ high.
    hex_value l >>= (λ low. parse_pairs rest >>= (λ bytes. some ((high * 16 + low) ∷ bytes))))

-- `parse_hex` of the annotations, and with 32 bytes `parse_digest`.
unfoldable pub parse_hex : ℕ → List ℕ → Option (List ℕ)
parse_hex bytes text = if length text == bytes * 2 then parse_pairs text else none

-- A field ends: not empty, and one of at most `room`.
abbrev pub close_field : ℕ → List ℕ → Option (List (List ℕ)) → Option (List (List ℕ))
close_field zero field rest = none
close_field (suc room) [] rest = none
close_field (suc room) (b ∷ bs) rest = rest >>= (λ fields. some ((b ∷ bs) ∷ fields))

-- The loop over a line, with the field so far and the room for fields that is left.
unfoldable pub split_fields : ℕ → List ℕ → List ℕ → Option (List (List ℕ))
split_fields room field [] = close_field room field (some [])
split_fields room field (b ∷ bs) =
    let next = split_fields (room - 1) [] bs in
    let longer = split_fields room (field ++ b ∷ []) bs in
    if b == b'\t' then close_field room field next else longer

-- `memchr` for the newline: the line before it and what follows it.
unfoldable pub take_line : List ℕ → Option (List ℕ × List ℕ)
take_line [] = none
take_line (b ∷ bs) =
    let rest = take_line bs in
    if b == b'\n' then some ([], bs) else rest >>= (λ (line, rest). some (b ∷ line, rest))
