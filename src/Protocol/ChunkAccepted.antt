-- ===== src/Protocol/ChunkAccepted.antt =====
-- Chunks of firmware/components/accessport_protocol: only what a builder makes is accepted.
use revlink_sidecar.Base.{
  ℕ, ◌+◌, ◌-◌, ◌*◌, ◌/◌, ◌%◌, ◌^◌, ◌≡◌, ◌≤◌, ap, ◌∙◌, true, some, List, [], ◌∷◌, ◌++◌, length,
  length-drop, length-take, take, drop, take_add, take-tabulate, get_or-drop, arith,
}
use revlink_sidecar.Protocol.{ok, IsBytes, checksum_size, byte, u24_be, u32_be, of_u24_be}
use revlink_sidecar.Protocol.Frame.{trailer_of}
use revlink_sidecar.Protocol.Parse.{checksum_holds}
use revlink_sidecar.Protocol.Accepted.{checksum_holds→trailer, byte-lt}
use revlink_sidecar.Protocol.Chunk.{bad_chunk, validate_chunk}
use revlink_sidecar.Protocol.ChunkLaws.{chunk_start, chunk_body, chunk}

-- The bytes of a chunk that is accepted.
abbrev ChunkPrefix : List ℕ → ℕ → Type 0
ChunkPrefix c len =
    (11 ≤ len)
    × ((of_u24_be (drop 2 c) + 7 ≡ len)
        × ((byte c 0 ≡ 2) × ((byte c 1 ≡ 0) × ((byte c 5 ≡ 0) × (checksum_holds c len ≡ true)))))

accepted-ChunkPrefix : (c : List ℕ) (len : ℕ) → validate_chunk (some c) len ≡ ok → ChunkPrefix c len
unfolding validate_chunk bad_chunk
accepted-ChunkPrefix c len h = ground arith

chunk_start_lem :
    (c : List ℕ) (len : ℕ)
    → IsBytes c
    → len ≤ length c
    → ChunkPrefix c len
    → take 7 c ≡ chunk_start (len - 11) (byte c 6)
unfolding of_u24_be u24_be
chunk_start_lem c len all room (p, (size, (b0, (b1, (b5, holds))))) =
    take-tabulate 7 c 0 (omega arith) ∙ λ i. b0 i ∷ b1 i ∷ s2 i ∷ s3 i ∷ s4 i ∷ b5 i ∷ byte c 6 ∷ []
  where
    declared : byte c 2 * 2 ^ 16 + byte c 3 * 2 ^ 8 + byte c 4 + 7 ≡ len
    declared = omega (arith, get_or-drop 2 0 c 0, get_or-drop 2 1 c 0, get_or-drop 2 2 c 0)

    s2 : byte c 2 ≡ (len - 11 + 4) / 2 ^ 16 % 256
    s2 = omega (arith, declared, byte-lt c 2 all, byte-lt c 3 all, byte-lt c 4 all)

    s3 : byte c 3 ≡ (len - 11 + 4) / 2 ^ 8 % 256
    s3 = omega (arith, declared, byte-lt c 2 all, byte-lt c 3 all, byte-lt c 4 all)

    s4 : byte c 4 ≡ (len - 11 + 4) % 256
    s4 = omega (arith, declared, byte-lt c 2 all, byte-lt c 3 all, byte-lt c 4 all)

-- Bytes that pass the validation, within the buffer, are exactly the chunk that a builder makes of
-- the flag in them and the payload behind the prefix.
pub validate_chunk→chunk :
    (c : List ℕ) (len : ℕ)
    → IsBytes c
    → len ≤ length c
    → validate_chunk (some c) len ≡ ok
    → take len c ≡ chunk (byte c 6) (take (len - 11) (drop 7 c))
validate_chunk→chunk c len all room h =
    let facts = accepted-ChunkPrefix c len h in
    checksum_holds→trailer c len all (omega arith) room facts.1.1.1.1.1
    ∙ ap (λ b. b ++ u32_be (trailer_of b)) (body facts)
  where
    payload : List ℕ
    payload = take (len - 11) (drop 7 c)

    body : ChunkPrefix c len → take (len - checksum_size) c ≡ chunk_body (byte c 6) payload
    body facts =
        let split : len - checksum_size ≡ 7 + (len - 11) = omega arith in
        let size : len - 11 ≡ length payload =
          omega (arith, length-take (len - 11) (drop 7 c), length-drop 7 c) in
        ap (λ k. take k c) split
        ∙ take_add 7 (len - 11) c
        ∙ ap (λ a. a ++ payload)
            (chunk_start_lem c len all room facts ∙ ap (λ n. chunk_start n (byte c 6)) size)
