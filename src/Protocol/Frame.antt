-- ===== src/Protocol/Frame.antt =====
-- What a builder of firmware/components/accessport_protocol leaves in the output buffer, in closed form.
use revlink_sidecar.Base.{
  ℕ, ◌+◌, ◌-◌, ◌%◌, ◌^◌, ◌≡◌, ◌≤◌, refl, ap, ap₂, ◌∙◌, true, some, zero, suc, List, [], ◌∷◌, ◌++◌,
  take, drop, replicate, length, length-append, length-replicate, take-append_self, write_at,
  write_at-zero, write_at-append, uint32_max, arith,
}
use revlink_sidecar.Crc.{crc32_update}
use revlink_sidecar.Protocol.{
  ok, checksum_size, record_overhead, max_record_size, boost_header, checked_add, u16_be, u16_le,
  u32_be,
}
use revlink_sidecar.Protocol.Writer.{Write, Writes, at}
use revlink_sidecar.Protocol.Record.{
  zero_trailer, jamcrc_zeroed_trailer, start_buffer, begun, begin_record, Built, finish_record,
  build, write_payload, finish_payload,
}

-- Marker, length, opcode, and the zeros between them.
abbrev pub frame_head : ℕ → ℕ → List ℕ
frame_head opcode total =
    0x02 ∷ 0 ∷ 0 ∷ (u16_be ((total - 7) % 2 ^ 16) ++ 0 ∷ (u16_le opcode ++ 0 ∷ 0 ∷ 0 ∷ []))

-- Everything before the payload.
abbrev pub frame_start : ℕ → ℕ → List ℕ
frame_start opcode total = frame_head opcode total ++ boost_header

-- The checksum that stands behind a body.
abbrev pub trailer_of : List ℕ → ℕ
trailer_of body = crc32_update (crc32_update uint32_max body) zero_trailer

abbrev pub frame_body : ℕ → List ℕ → List ℕ
frame_body opcode payload = frame_start opcode (record_overhead + length payload) ++ payload

-- The whole record.
abbrev pub frame : ℕ → List ℕ → List ℕ
frame opcode payload = frame_body opcode payload ++ u32_be (trailer_of (frame_body opcode payload))

zeros_add :
    (n m : ℕ) (xs : List ℕ) → replicate (n + m) 0 ++ xs ≡ replicate n 0 ++ (replicate m 0 ++ xs)
zeros_add zero m xs = let e : 0 + m ≡ m = omega arith in ap (λ k. replicate k 0 ++ xs) e
zeros_add (suc n) m xs =
    let e : suc n + m ≡ suc (n + m) = omega arith in
    ap (λ k. replicate k 0 ++ xs) e ∙ ap (λ r. 0 ∷ r) (zeros_add n m xs)

started :
    (opcode total : ℕ) (rest : List ℕ)
    → write_at 11 boost_header (
        write_at 6 (u16_le opcode) (
          write_at 3
            (u16_be ((total - 7) % 2 ^ 16))
            (write_at 0 (0x02 ∷ []) (replicate 42 0 ++ rest))))
      ≡ frame_start opcode total ++ rest
unfolding write_at u16_be u16_le
started opcode total rest = refl

start_buffer_lem :
    (opcode n : ℕ) (out : List ℕ)
    → record_overhead + n ≤ length out
    → start_buffer opcode (record_overhead + n) out
      ≡ frame_start opcode (record_overhead + n)
        ++ (replicate n 0 ++ (replicate 4 0 ++ drop (record_overhead + n) out))
unfolding start_buffer
start_buffer_lem opcode n out room =
    let total : ℕ = record_overhead + n in
    let tail : List ℕ = drop total out in
    let cleared : write_at 0 (replicate total 0) out ≡ replicate total 0 ++ tail =
      write_at-zero (replicate total 0) out (omega (arith, length-replicate {A = ℕ} total 0))
      ∙ ap (λ k. replicate total 0 ++ drop k out) (length-replicate total 0) in
    let split : record_overhead + n ≡ 42 + (n + 4) = omega arith in
    let zeros : replicate total 0 ++ tail
        ≡ replicate 42 0 ++ (replicate n 0 ++ (replicate 4 0 ++ tail)) =
      ap (λ k. replicate k 0 ++ tail) split
      ∙ zeros_add 42 (n + 4) tail
      ∙ ap (λ r. replicate 42 0 ++ r) (zeros_add n 4 tail) in
    rw (cleared ∙ zeros) (started opcode total (replicate n 0 ++ (replicate 4 0 ++ tail)))

-- A builder that succeeds, with `written` in the output.
abbrev pub built : List ℕ → ℕ → Built
built written total = record { status = ok; output = some written; output_length = some total }

-- The checksum reads what stands before the last four bytes, which count as zeros.
pub jamcrc_zeroed_trailer-append :
    (body rest : List ℕ) (total : ℕ)
    → length body + checksum_size ≡ total
    → jamcrc_zeroed_trailer (some (body ++ rest)) total ≡ trailer_of body
unfolding jamcrc_zeroed_trailer
jamcrc_zeroed_trailer-append body rest total e =
    let offset : total - checksum_size ≡ length body = omega arith in
    let body' : take (total - checksum_size) (body ++ rest) ≡ body =
      ap (λ k. take k (body ++ rest)) offset ∙ take-append_self body rest in
    ground (arith, body')

-- The writer at the end of the payload.
finish_record_lem :
    (n cursor : ℕ) (body tail : List ℕ)
    → length body ≡ 42 + n
    → finish_record
        (record_overhead + n)
        true
        record { buffer = body ++ (replicate 4 0 ++ tail); cursor = cursor; remaining = 0 }
      ≡ built ((body ++ u32_be (trailer_of body)) ++ tail) (record_overhead + n)
unfolding finish_record u32_be
finish_record_lem n cursor body tail h =
    let offset : record_overhead + n - checksum_size ≡ length body = omega arith in
    let rest : List ℕ = replicate 4 0 ++ tail in
    let written : write_at (record_overhead + n - checksum_size)
          (u32_be (jamcrc_zeroed_trailer (some (body ++ rest)) (record_overhead + n)))
          (body ++ rest)
        ≡ (body ++ u32_be (trailer_of body)) ++ tail =
      ap₂ (λ k crc. write_at k (u32_be crc) (body ++ rest)) offset
        (jamcrc_zeroed_trailer-append body rest (record_overhead + n) (omega arith))
      ∙ write_at-append body (u32_be (trailer_of body)) rest (omega arith) in
    ap (λ bs. built bs (record_overhead + n)) written

begin_record_lem :
    (opcode n : ℕ) (out : List ℕ) (capacity : ℕ)
    → record_overhead + n ≤ max_record_size
    → record_overhead + n ≤ capacity
    → capacity ≤ length out
    → begin_record opcode n (some out) capacity
      ≡ begun (record_overhead + n) (
          at
            (frame_start opcode (record_overhead + n))
            (replicate n 0 ++ (replicate 4 0 ++ drop (record_overhead + n) out))
            n)
unfolding begin_record checked_add u16_be u16_le
begin_record_lem opcode n out capacity h room fits = ground (arith, start_buffer_lem opcode n out)

drop-zeros : (n : ℕ) (xs : List ℕ) → drop n (replicate n 0 ++ xs) ≡ xs
drop-zeros zero xs = refl
drop-zeros (suc n) xs = drop-zeros n xs

-- A payload that fits leaves the record, and what stood behind it.
pub build_lem :
    (opcode : ℕ) (f : Write) (bs out : List ℕ) (capacity : ℕ)
    → Writes f bs
    → record_overhead + length bs ≤ max_record_size
    → record_overhead + length bs ≤ capacity
    → capacity ≤ length out
    → build opcode (length bs) f (some out) capacity true
      ≡ built
          (frame opcode bs ++ drop (record_overhead + length bs) out)
          (record_overhead + length bs)
unfolding build u16_be u16_le
build_lem opcode f bs out capacity hf h room fits =
    ap (λ b. write_payload b f (some out) true)
      (begin_record_lem opcode (length bs) out capacity h room fits)
    ∙ ap (finish_payload (record_overhead + length bs) true) written
    ∙ finish_record_lem (length bs) (length (start ++ bs)) (start ++ bs)
        (drop (record_overhead + length bs) out) (omega (arith, length-append start bs))
  where
    start : List ℕ
    start = frame_start opcode (record_overhead + length bs)

    rest : List ℕ
    rest = replicate 4 0 ++ drop (record_overhead + length bs) out

    written : f (at start (replicate (length bs) 0 ++ rest) (length bs)) ≡ (
      true,
      record { buffer = (start ++ bs) ++ rest; cursor = length (start ++ bs); remaining = 0 },
    )
    written =
        let none_left : length bs - length bs ≡ 0 = omega arith in
        hf start (replicate (length bs) 0 ++ rest) (length bs) (omega arith) (
          omega (
            arith,
            length-append (replicate (length bs) 0) rest,
            length-replicate {A = ℕ} (length bs) 0,
          ))
        ∙ ap₂ (λ r k. (true, at (start ++ bs) r k)) (drop-zeros (length bs) rest) none_left
