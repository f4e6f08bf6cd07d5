-- ===== src/Protocol/RoundTrip.antt =====
-- A record that a builder of firmware/components/accessport_protocol made is parsed to what went in.
use revlink_sidecar.Base.{
  ℕ, ◌+◌, ◌-◌, ◌*◌, ◌/◌, ◌%◌, ◌^◌, ◌≡◌, ◌≤◌, ◌<◌, refl, ap, ap₂, sym, ◌∙◌, Bool, true, false, none,
  some, List, [], ◌∷◌, ◌++◌, append_assoc, length, length-append, take, drop, take-append_self,
  drop-append_self, All-append, mem_eq, arith, uint32_max, if◌then◌else◌, ltb,
}
use revlink_sidecar.Crc.Bounds.{crc32_update-lt}
use revlink_sidecar.Protocol.{
  ok, invalid_frame, IsBytes, boost_header, record_overhead, max_record_size, checksum_size,
  of_u16_be, of_u16_le, of_u32_be, u16_be, u16_le, u32_be,
}
use revlink_sidecar.Protocol.Record.{jamcrc_zeroed_trailer}
use revlink_sidecar.Protocol.Frame.{frame_start, trailer_of, frame, jamcrc_zeroed_trailer-append}
use revlink_sidecar.Protocol.Parse.{
  bad_frame, checksum_holds, validate_record, RecordView, view_of, view_record, parse_record,
}

abbrev pub all_bytes : List ℕ → Bool
all_bytes [] = true
all_bytes (b ∷ bs) = elim (ltb b 256) [ true ↦ all_bytes bs | false ↦ false ]

pub all_bytes-IsBytes : (bs : List ℕ) → all_bytes bs ≡ true → IsBytes bs
all_bytes-IsBytes [] h = tt
all_bytes-IsBytes (b ∷ bs) h = ground (arith, all_bytes-IsBytes bs)

boost_header-IsBytes : IsBytes boost_header
boost_header-IsBytes = all_bytes-IsBytes boost_header refl

pub u32_be-IsBytes : (v : ℕ) → IsBytes (u32_be v)
unfolding u32_be
u32_be-IsBytes v = (omega arith, (omega arith, (omega arith, (omega arith, tt))))

pub of_u32_be-u32_be : (v : ℕ) (rest : List ℕ) → v < 2 ^ 32 → of_u32_be (u32_be v ++ rest) ≡ v
unfolding u32_be of_u32_be
of_u32_be-u32_be v rest h = omega arith

frame_start-IsBytes : (opcode total : ℕ) → IsBytes (frame_start opcode total)
unfolding u16_be u16_le
frame_start-IsBytes opcode total = (
  omega arith,
  (
    omega arith,
    (
      omega arith,
      (
        omega arith,
        (
          omega arith,
          (
            omega arith,
            (
              omega arith,
              (omega arith, (omega arith, (omega arith, (omega arith, boost_header-IsBytes)))),
            ),
          ),
        ),
      ),
    ),
  ),
)

pub trailer_of-lt : (body : List ℕ) → IsBytes body → trailer_of body < 2 ^ 32
trailer_of-lt body h =
    crc32_update-lt _ _ (crc32_update-lt uint32_max body (omega arith) h)
      (omega arith, (omega arith, (omega arith, (omega arith, tt))))

-- Bytes with the checksum of a body behind them pass the test.
pub checksum_holds-trailer :
    (body tail : List ℕ) (len : ℕ)
    → length body + checksum_size ≡ len
    → IsBytes body
    → checksum_holds ((body ++ u32_be (trailer_of body)) ++ tail) len ≡ true
checksum_holds-trailer body tail len e h =
    let xs : List ℕ = (body ++ u32_be (trailer_of body)) ++ tail in
    let regroup : xs ≡ body ++ (u32_be (trailer_of body) ++ tail) =
      append_assoc body (u32_be (trailer_of body)) tail in
    let computed : jamcrc_zeroed_trailer (some xs) len ≡ trailer_of body =
      ap (λ r. jamcrc_zeroed_trailer (some r) len) regroup
      ∙ jamcrc_zeroed_trailer-append body (u32_be (trailer_of body) ++ tail) len e in
    let offset : len - checksum_size ≡ length body = omega arith in
    let bounded = trailer_of-lt body h in
    let stored : of_u32_be (drop (len - checksum_size) xs) ≡ trailer_of body =
      ap₂ (λ k r. of_u32_be (drop k r)) offset regroup
      ∙ ap of_u32_be (drop-append_self body (u32_be (trailer_of body) ++ tail))
      ∙ of_u32_be-u32_be (trailer_of body) tail bounded in
    ground (arith, computed, stored)

bad_frame-start :
    (opcode total : ℕ) (rest : List ℕ)
    → record_overhead ≤ total
    → total ≤ max_record_size
    → bad_frame (frame_start opcode total ++ rest) total ≡ false
unfolding bad_frame u16_be u16_le of_u16_be
bad_frame-start opcode total rest p q =
    let declared : (total - 7) % 65536 / 256 % 256 * 256 + (total - 7) % 65536 % 256 + 7 ≡ total =
      omega arith in
    ground (arith, declared)

-- The payload between the headers and the checksum.
payload_of :
    (start bs rest : List ℕ) (len : ℕ)
    → length start ≡ 42
    → record_overhead + length bs ≡ len
    → take (len - record_overhead) (drop 42 ((start ++ bs) ++ rest)) ≡ bs
payload_of start bs rest len h e =
    let n : len - record_overhead ≡ length bs = omega arith in
    ap₂ (λ k r. take k (drop 42 r)) n (append_assoc start bs rest)
    ∙ ap (λ k. take (length bs) (drop k (start ++ (bs ++ rest)))) (sym h)
    ∙ ap (take (length bs)) (drop-append_self start (bs ++ rest))
    ∙ take-append_self bs rest

abbrev pub view : ℕ → List ℕ → RecordView
view opcode payload = record { opcode = opcode; payload = payload; payload_length = length payload }

pub parse_record-frame :
    (opcode : ℕ) (bs tail : List ℕ)
    → opcode < 2 ^ 16
    → IsBytes bs
    → record_overhead + length bs ≤ max_record_size
    → parse_record (some (frame opcode bs ++ tail)) (record_overhead + length bs) true
      ≡ (ok, some (view opcode bs))
unfolding parse_record validate_record u16_be u16_le mem_eq of_u16_le
parse_record-frame opcode bs tail h all fits =
    ap (λ s. view_record s (some r) len) valid
    ∙ ap (λ t. if t then (ok, some (view_of r len)) else (invalid_frame, none)) magic
    ∙ ap (λ v. (ok, some v)) viewed
  where
    len : ℕ
    len = record_overhead + length bs

    r : List ℕ
    r = frame opcode bs ++ tail

    start : List ℕ
    start = frame_start opcode len

    crc : List ℕ
    crc = u32_be (trailer_of (start ++ bs))

    good : bad_frame (frame opcode bs ++ tail) len ≡ false
    good =
        ap (λ r. bad_frame r len)
          (append_assoc (start ++ bs) crc tail ∙ append_assoc start bs (crc ++ tail))
        ∙ bad_frame-start opcode len (bs ++ (crc ++ tail)) (omega arith) fits

    holds : checksum_holds (frame opcode bs ++ tail) len ≡ true
    holds =
        checksum_holds-trailer (start ++ bs) tail len (omega (arith, length-append start bs))
          (All-append (λ (b : ℕ). b < 256) start bs (frame_start-IsBytes opcode len) all)

    payload : take (len - record_overhead) (drop 42 (frame opcode bs ++ tail)) ≡ bs
    payload =
        ap (λ r. take (len - record_overhead) (drop 42 r)) (append_assoc (start ++ bs) crc tail)
        ∙ payload_of start bs (crc ++ tail) len refl refl

    size : len - record_overhead ≡ length bs
    size = omega arith

    valid : validate_record (some r) len ≡ ok
    valid = ground (arith, good, holds)

    magic : mem_eq 31 (drop 11 r) boost_header ≡ true
    magic = refl

    opcode' : of_u16_le (drop 6 r) ≡ opcode
    opcode' = omega arith

    viewed : view_of r len ≡ view opcode bs
    viewed = λ i. record { opcode = opcode' i; payload = payload i; payload_length = size i }
