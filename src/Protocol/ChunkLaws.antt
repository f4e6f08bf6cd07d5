-- ===== src/Protocol/ChunkLaws.antt =====
-- Chunks of firmware/components/accessport_protocol: what is built is accepted.
use revlink_sidecar.Base.{
  ℕ, ◌+◌, ◌-◌, ◌*◌, ◌/◌, ◌%◌, ◌≡◌, ◌≤◌, ◌<◌, refl, ap, ap₂, sym, ◌∙◌, true, false, none, some, List,
  [], ◌∷◌, ◌++◌, append_assoc, append-nil, length, length-append, length-drop, take, drop, take_all,
  take-append-drop, take-tabulate, All-append, write_at, write_at-append, arith,
}
use revlink_sidecar.Protocol.{
  ApStatus, ok, IsBytes, slice_of, max_chunk_payload, chunk_prefix_size, checksum_size, checked_add,
  u24_be, u32_be, of_u24_be,
}
use revlink_sidecar.Protocol.Record.{zero_trailer, Built}
use revlink_sidecar.Protocol.Frame.{trailer_of, built, jamcrc_zeroed_trailer-append}
use revlink_sidecar.Protocol.Parse.{checksum_holds}
use revlink_sidecar.Protocol.RoundTrip.{checksum_holds-trailer}
use revlink_sidecar.Protocol.Payloads.{present}
use revlink_sidecar.Protocol.Chunk.{
  prefix_buffer, build_chunk_prefix, chunk_buffer, copy_payload, store_checksum, build_chunk,
  bad_chunk, validate_chunk,
}

abbrev pub chunk_start : ℕ → ℕ → List ℕ
chunk_start n flag = 0x02 ∷ 0 ∷ (u24_be (n + checksum_size) ++ 0 ∷ flag ∷ [])

abbrev pub chunk_body : ℕ → List ℕ → List ℕ
chunk_body flag payload = chunk_start (length payload) flag ++ payload

abbrev pub chunk : ℕ → List ℕ → List ℕ
chunk flag payload = chunk_body flag payload ++ u32_be (trailer_of (chunk_body flag payload))

prefix_buffer_lem :
    (n flag : ℕ) (out : List ℕ)
    → chunk_prefix_size ≤ length out
    → prefix_buffer n flag out ≡ chunk_start n flag ++ drop 7 out
unfolding prefix_buffer write_at u24_be
prefix_buffer_lem n flag out room =
    ap (prefix_buffer n flag)
      (sym (take-append-drop 7 out) ∙ ap (λ t. t ++ drop 7 out) (take-tabulate 7 out 0 room))

copy_payload_lem :
    (payload start rest : List ℕ)
    → length start ≡ 7
    → length payload ≤ length rest
    → copy_payload (slice_of payload) (start ++ rest)
      ≡ (start ++ payload) ++ drop (length payload) rest
copy_payload_lem [] start rest h room = ap (λ t. t ++ rest) (sym (append-nil start))
copy_payload_lem (b ∷ bs) start rest h room =
    let whole : take (length (b ∷ bs)) (b ∷ bs) ≡ b ∷ bs =
      take_all (length (b ∷ bs)) (b ∷ bs) (omega arith) in
    let copied : write_at 7 (take (length (b ∷ bs)) (b ∷ bs)) (start ++ rest)
        ≡ (start ++ b ∷ bs) ++ drop (length (b ∷ bs)) rest =
      ap₂ (λ k t. write_at k t (start ++ rest)) (sym h) whole
      ∙ write_at-append start (b ∷ bs) rest room in
    ground (arith, copied)

store_checksum_lem :
    (body rest : List ℕ) (total : ℕ)
    → length body + 4 ≡ total
    → store_checksum total ((body ++ zero_trailer) ++ rest)
      ≡ (body ++ u32_be (trailer_of body)) ++ rest
unfolding store_checksum u32_be
store_checksum_lem body rest total e =
    let offset : total - checksum_size ≡ length body = omega arith in
    let zeros : List ℕ = zero_trailer ++ rest in
    ap (store_checksum total) (append_assoc body zero_trailer rest)
    ∙ ap₂ (λ k crc. write_at k (u32_be crc) (body ++ zeros)) offset
        (jamcrc_zeroed_trailer-append body zeros total e)
    ∙ write_at-append body (u32_be (trailer_of body)) zeros (omega arith)

chunk_buffer_lem :
    (payload start rest : List ℕ) (total : ℕ)
    → length start ≡ 7
    → 7 + length payload + 4 ≡ total
    → length payload + 4 ≤ length rest
    → chunk_buffer (slice_of payload) total (start ++ rest)
      ≡ ((start ++ payload) ++ u32_be (trailer_of (start ++ payload)))
        ++ drop 4 (drop (length payload) rest)
unfolding chunk_buffer
chunk_buffer_lem payload start rest total h e room =
    let body : List ℕ = start ++ payload in
    let size : 7 + length payload ≡ length body = omega (arith, length-append start payload) in
    ap (λ t. store_checksum total (write_at (7 + length payload) zero_trailer t))
      (copy_payload_lem payload start rest h (omega arith))
    ∙ ap (λ k. store_checksum total (write_at k zero_trailer (body ++ drop (length payload) rest)))
        size
    ∙ ap (store_checksum total) (
        write_at-append body zero_trailer (drop (length payload) rest)
          (omega (arith, length-drop (length payload) rest)))
    ∙ store_checksum_lem body (drop 4 (drop (length payload) rest)) total (omega arith)

-- A payload that fits leaves the chunk, and what stood behind it.
pub build_chunk_lem :
    (payload out : List ℕ) (flag capacity : ℕ)
    → length payload ≤ max_chunk_payload
    → 11 + length payload ≤ capacity
    → capacity ≤ length out
    → build_chunk (slice_of payload) flag (some out) capacity true
      ≡ built
          (chunk flag payload ++ drop 4 (drop (length payload) (drop 7 out)))
          (11 + length payload)
unfolding build_chunk build_chunk_prefix checked_add u24_be
build_chunk_lem payload out flag capacity small room fits =
    guards
    ∙ ap (λ t. built (chunk_buffer (slice_of payload) total t) total)
        (prefix_buffer_lem (length payload) flag out (omega arith))
    ∙ ap (λ t. built t total)
        (chunk_buffer_lem payload (chunk_start (length payload) flag) (drop 7 out) total refl
          (omega arith) (omega (arith, length-drop 7 out)))
  where
    total : ℕ
    total = 11 + length payload

    guards :
        build_chunk (slice_of payload) flag (some out) capacity true
        ≡ built
            (chunk_buffer (slice_of payload) total (prefix_buffer (length payload) flag out))
            total
    guards = rw (present payload) (ground arith)

-- The receiver tests as many bytes as the builder reports.
abbrev pub chunk_status : Built → ApStatus
chunk_status b = elim b.output_length [ none ↦ b.status | some n ↦ validate_chunk b.output n ]

bad_chunk-start :
    (n flag : ℕ) (rest : List ℕ)
    → n ≤ max_chunk_payload
    → bad_chunk (chunk_start n flag ++ rest) (11 + n) ≡ false
unfolding bad_chunk u24_be of_u24_be
bad_chunk-start n flag rest small =
    let declared : (n + 4) / 65536 % 256 * 65536 + (n + 4) / 256 % 256 * 256 + (n + 4) % 256
        ≡ n + 4 =
      omega arith in
    ground (arith, declared)

pub chunk_start-IsBytes : (n flag : ℕ) → flag < 256 → IsBytes (chunk_start n flag)
unfolding u24_be
chunk_start-IsBytes n flag h = (
  omega arith,
  (omega arith, (omega arith, (omega arith, (omega arith, (omega arith, (h, tt)))))),
)

-- A payload of at most 2^24 - 5 bytes and a flag, both bytes, with room in the output: the chunk
-- that is built passes the validation.
pub validate_chunk-build_chunk :
    (payload out : List ℕ) (flag capacity : ℕ)
    → flag < 256
    → IsBytes payload
    → length payload ≤ max_chunk_payload
    → 11 + length payload ≤ capacity
    → capacity ≤ length out
    → chunk_status (build_chunk (slice_of payload) flag (some out) capacity true) ≡ ok
unfolding validate_chunk u24_be
validate_chunk-build_chunk payload out flag capacity h all small room fits =
    ap chunk_status (build_chunk_lem payload out flag capacity small room fits) ∙ accepted
  where
    tail : List ℕ
    tail = drop 4 (drop (length payload) (drop 7 out))

    start : List ℕ
    start = chunk_start (length payload) flag

    crc : List ℕ
    crc = u32_be (trailer_of (start ++ payload))

    good : bad_chunk (chunk flag payload ++ tail) (11 + length payload) ≡ false
    good =
        ap (λ r. bad_chunk r (11 + length payload))
          (append_assoc (start ++ payload) crc tail ∙ append_assoc start payload (crc ++ tail))
        ∙ bad_chunk-start (length payload) flag (payload ++ (crc ++ tail)) small

    holds : checksum_holds (chunk flag payload ++ tail) (11 + length payload) ≡ true
    holds =
        checksum_holds-trailer (start ++ payload) tail (11 + length payload)
          (omega (arith, length-append start payload))
          (All-append (λ (b : ℕ). b < 256) start payload
            (chunk_start-IsBytes (length payload) flag h) all)

    accepted : validate_chunk (some (chunk flag payload ++ tail)) (11 + length payload) ≡ ok
    accepted = ground (arith, good, holds)
