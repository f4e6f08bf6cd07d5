-- ===== src/Protocol.antt =====
-- firmware/components/accessport_protocol: the records, chunks and acknowledgements that RevLink exchanges
-- with an AccessPort. This file has the types of include/revlink_accessport_protocol.h, pointers with a
-- length, and the byte order of integers.
pub mod Writer
pub mod Record
pub mod Frame
pub mod Parse
pub mod RoundTrip
pub mod Payloads
pub mod Requests
pub mod Accepted
pub mod Chunk
pub mod ChunkLaws
pub mod ChunkAccepted
pub mod Decoder
pub mod DecoderGood
pub mod DecoderKeeps
pub mod DecoderParts
pub mod DecoderCut
pub mod DecoderLaws
pub mod DecoderFed
pub mod DownloadBlocks
pub mod Download
pub mod Ack
pub mod AckLaws
pub mod Listing
pub mod ListingLaws
pub mod Identity
pub mod IdentityLaws
pub mod Target
pub mod TargetLaws
pub mod Tests
use revlink_sidecar.Base.{
  ℕ, ◌+◌, ◌-◌, ◌*◌, ◌/◌, ◌%◌, ◌^◌, ◌≡◌, ◌≤◌, ◌<◌, ltb, if◌then◌else◌, Bool, true, false, ◌&&◌,
  Option, none, some, List, [], ◌∷◌, length, get_or, arith, refl, All,
}

pub data ApStatus : Type 0 where
  ok invalid_argument buffer_too_small record_too_large invalid_frame : ApStatus
  invalid_checksum sink_error upload_target_rejected : ApStatus

abbrev pub prefix_size : ℕ
prefix_size = 11

abbrev pub checksum_size : ℕ
checksum_size = 4

abbrev pub chunk_prefix_size : ℕ
chunk_prefix_size = 7

abbrev pub boost_header_size : ℕ
boost_header_size = 31

abbrev pub record_overhead : ℕ
record_overhead = prefix_size + boost_header_size + checksum_size

-- `UINT16_MAX + 7`.
abbrev pub max_record_size : ℕ
max_record_size = 65542

abbrev pub max_chunk_payload : ℕ
max_chunk_payload = 2 ^ 24 - 5

-- `SIZE_MAX` of the 32-bit target.
abbrev pub size_max : ℕ
size_max = 2 ^ 32 - 1

abbrev pub opcode_response : ℕ
opcode_response = 0x1601

abbrev pub opcode_select_map : ℕ
opcode_select_map = 0x1612

abbrev pub opcode_download : ℕ
opcode_download = 0x1620

abbrev pub opcode_temp_notice : ℕ
opcode_temp_notice = 0x1621

abbrev pub opcode_upload : ℕ
opcode_upload = 0x1622

abbrev pub opcode_delete : ℕ
opcode_delete = 0x1625

abbrev pub opcode_list : ℕ
opcode_list = 0x1626

-- "serialization::archive" and the archive's fixed header.
abbrev pub boost_header : List ℕ
boost_header =
    0x73 ∷ 0x65 ∷ 0x72 ∷ 0x69 ∷ 0x61 ∷ 0x6c ∷ 0x69 ∷ 0x7a ∷ 0x61 ∷ 0x74 ∷ 0x69 ∷ 0x6f ∷ 0x6e ∷ 0x3a
    ∷ 0x3a ∷ 0x61 ∷ 0x72 ∷ 0x63 ∷ 0x68 ∷ 0x69 ∷ 0x76 ∷ 0x65 ∷ 0x03 ∷ 0x04 ∷ 0x04 ∷ 0x04 ∷ 0x08
    ∷ 0x01 ∷ 0x00 ∷ 0x00 ∷ 0x00 ∷ []

-- A pointer with the length that the caller gives for it; `none` is NULL.
pub record Slice : Type 0 where
  pub bytes : Option (List ℕ)
  pub len : ℕ

abbrev pub slice_of : List ℕ → Slice
slice_of bs = record { bytes = some bs; len = length bs }

abbrev pub bytes_of : Option (List ℕ) → List ℕ
bytes_of none = []
bytes_of (some bs) = bs

abbrev pub is_null : Option (List ℕ) → Bool
is_null none = true
is_null (some bs) = false

-- A NULL pointer that should hold something.
abbrev pub is_missing : Slice → Bool
is_missing s = ltb 0 s.len && is_null s.bytes

unfoldable pub checked_add : ℕ → ℕ → Option ℕ
checked_add left right = if ltb (size_max - right) left then none else some (left + right)

-- The casts to `uint8_t` keep the low byte.
unfoldable pub u16_be : ℕ → List ℕ
u16_be v = v / 2 ^ 8 % 256 ∷ v % 256 ∷ []

unfoldable pub u16_le : ℕ → List ℕ
u16_le v = v % 256 ∷ v / 2 ^ 8 % 256 ∷ []

unfoldable pub u24_be : ℕ → List ℕ
u24_be v = v / 2 ^ 16 % 256 ∷ v / 2 ^ 8 % 256 ∷ v % 256 ∷ []

unfoldable pub u32_be : ℕ → List ℕ
u32_be v = v / 2 ^ 24 % 256 ∷ v / 2 ^ 16 % 256 ∷ v / 2 ^ 8 % 256 ∷ v % 256 ∷ []

-- `input[i]`; what lies past the end reads as 0.
abbrev pub byte : List ℕ → ℕ → ℕ
byte input i = get_or input i 0

-- The bytes occupy disjoint bits, so the source's `|` is a sum.
unfoldable pub of_u16_be : List ℕ → ℕ
of_u16_be input = byte input 0 * 2 ^ 8 + byte input 1

unfoldable pub of_u16_le : List ℕ → ℕ
of_u16_le input = byte input 0 + byte input 1 * 2 ^ 8

unfoldable pub of_u24_be : List ℕ → ℕ
of_u24_be input = byte input 0 * 2 ^ 16 + byte input 1 * 2 ^ 8 + byte input 2

unfoldable pub of_u32_be : List ℕ → ℕ
of_u32_be input =
    byte input 0 * 2 ^ 24 + byte input 1 * 2 ^ 16 + byte input 2 * 2 ^ 8 + byte input 3

-- Every element is a byte.
abbrev pub IsBytes : List ℕ → Type 0
IsBytes = All (λ (b : ℕ). b < 256)
