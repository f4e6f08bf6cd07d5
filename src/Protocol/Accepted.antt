-- ===== src/Protocol/Accepted.antt =====
-- What `revlink_ap_parse_record` of firmware/components/accessport_protocol accepts: the records that a
-- builder makes, and nothing else.
use revlink_sidecar.Base.{
  ℕ, ◌+◌, ◌-◌, ◌/◌, ◌%◌, ◌^◌, ◌≡◌, ◌≤◌, ◌<◌, ap, ap₂, subst, ◌∙◌, true, false, Bool-cases, inl, inr,
  some, List, [], ◌∷◌, ◌++◌, length, length-take, length-drop, take, drop, take_add, get_or-drop,
  take-tabulate, All-drop, All-get_or, mem_eq, mem_eq→take, arith,
}
use revlink_sidecar.Protocol.{
  ok, IsBytes, boost_header, record_overhead, max_record_size, checksum_size, byte, of_u16_be,
  of_u16_le, of_u32_be, u16_be, u16_le, u32_be,
}
use revlink_sidecar.Protocol.Record.{jamcrc_zeroed_trailer}
use revlink_sidecar.Protocol.Frame.{frame_start, frame_head, frame_body, trailer_of, frame}
use revlink_sidecar.Protocol.Parse.{
  bad_frame, checksum_holds, validate_record, RecordView, view_of, parse_record,
}

-- The tests that an accepted record has passed.
parse_record-ok :
    (r : List ℕ) (len : ℕ) (v : RecordView)
    → parse_record (some r) len true ≡ (ok, some v)
    → (bad_frame r len ≡ false)
      × ((checksum_holds r len ≡ true)
          × ((mem_eq 31 (drop 11 r) boost_header ≡ true) × (view_of r len ≡ v)))
unfolding parse_record validate_record
parse_record-ok r len v h = elim (Bool-cases (bad_frame r len)) [
  | inl bad ↦ ground (arith, bad)
  | inr good ↦ elim (Bool-cases (checksum_holds r len)) [
    | inl holds ↦ ground (arith, good, holds)
    | inr fails ↦ ground (arith, good, fails)
  ]
]

-- The bytes of a prefix that is not refused.
abbrev Prefix : List ℕ → ℕ → Type 0
Prefix r len =
    (record_overhead ≤ len)
    × ((len ≤ max_record_size)
        × ((of_u16_be (drop 3 r) + 7 ≡ len)
            × ((byte r 0 ≡ 2)
                × ((byte r 1 ≡ 0)
                    × ((byte r 2 ≡ 0)
                        × ((byte r 5 ≡ 0)
                            × ((byte r 8 ≡ 0) × ((byte r 9 ≡ 0) × (byte r 10 ≡ 0)))))))))

good-Prefix : (r : List ℕ) (len : ℕ) → bad_frame r len ≡ false → Prefix r len
unfolding bad_frame
good-Prefix r len h = ground arith

pub byte-lt : (r : List ℕ) (i : ℕ) → IsBytes r → byte r i < 256
byte-lt r i all = All-get_or (λ (b : ℕ). b < 256) r i 0 (omega arith) all

prefix_lem :
    (r : List ℕ) (len : ℕ)
    → IsBytes r
    → len ≤ length r
    → Prefix r len
    → take 11 r ≡ frame_head (of_u16_le (drop 6 r)) len
unfolding of_u16_be of_u16_le u16_be u16_le
prefix_lem r len all room (p, (q, (size, (b0, (b1, (b2, (b5, (b8, (b9, b10))))))))) =
    take-tabulate 11 r 0 (omega arith) ∙ λ i.
    b0 i ∷ b1 i ∷ b2 i ∷ high i ∷ low i ∷ b5 i ∷ op_low i ∷ op_high i ∷ b8 i ∷ b9 i ∷ b10 i ∷ []
  where
    high : byte r 3 ≡ (len - 7) % 65536 / 256 % 256
    high = omega (arith, get_or-drop 3 0 r 0, get_or-drop 3 1 r 0, byte-lt r 3 all, byte-lt r 4 all)

    low : byte r 4 ≡ (len - 7) % 65536 % 256
    low = omega (arith, get_or-drop 3 0 r 0, get_or-drop 3 1 r 0, byte-lt r 3 all, byte-lt r 4 all)

    op_low : byte r 6 ≡ of_u16_le (drop 6 r) % 256
    op_low =
        omega (arith, get_or-drop 6 0 r 0, get_or-drop 6 1 r 0, byte-lt r 6 all, byte-lt r 7 all)

    op_high : byte r 7 ≡ of_u16_le (drop 6 r) / 256 % 256
    op_high =
        omega (arith, get_or-drop 6 0 r 0, get_or-drop 6 1 r 0, byte-lt r 6 all, byte-lt r 7 all)

-- Four bytes read as a number and written again.
u32_be-of_u32_be :
    (t : List ℕ)
    → IsBytes t
    → ◌≡◌ {A = List ℕ} (byte t 0 ∷ byte t 1 ∷ byte t 2 ∷ byte t 3 ∷ []) (u32_be (of_u32_be t))
unfolding u32_be of_u32_be
u32_be-of_u32_be t all =
    let h0 = byte-lt t 0 all in
    let h1 = byte-lt t 1 all in
    let h2 = byte-lt t 2 all in
    let h3 = byte-lt t 3 all in
    let e0 : byte t 0 ≡ of_u32_be t / 2 ^ 24 % 256 = omega arith in
    let e1 : byte t 1 ≡ of_u32_be t / 2 ^ 16 % 256 = omega arith in
    let e2 : byte t 2 ≡ of_u32_be t / 2 ^ 8 % 256 = omega arith in
    let e3 : byte t 3 ≡ of_u32_be t % 256 = omega arith in λ i. e0 i ∷ e1 i ∷ e2 i ∷ e3 i ∷ []

-- The last four bytes where the checksum holds.
pub checksum_holds→trailer :
    (r : List ℕ) (len : ℕ)
    → IsBytes r
    → checksum_size ≤ len
    → len ≤ length r
    → checksum_holds r len ≡ true
    → take len r
      ≡ take (len - checksum_size) r ++ u32_be (trailer_of (take (len - checksum_size) r))
unfolding jamcrc_zeroed_trailer of_u32_be u32_be
checksum_holds→trailer r len all p room h =
    ap (λ k. take k r) split ∙ take_add offset 4 r ∙ ap (λ t. take offset r ++ t) last
  where
    offset : ℕ
    offset = len - checksum_size

    split : len ≡ offset + 4
    split = omega arith

    t : List ℕ
    t = drop offset r

    all' : IsBytes t
    all' = All-drop (λ (b : ℕ). b < 256) offset r all

    stored : of_u32_be t ≡ trailer_of (take offset r)
    stored = ground arith

    last : take 4 t ≡ u32_be (trailer_of (take offset r))
    last =
        take-tabulate 4 t 0 (omega (arith, length-drop offset r))
        ∙ u32_be-of_u32_be t all'
        ∙ ap u32_be stored

-- Bytes that are parsed successfully, within the buffer, are exactly the record that a builder
-- makes of the opcode and the payload in the view, whose length is the payload's.
pub parse_record→frame :
    (r : List ℕ) (len : ℕ) (v : RecordView)
    → IsBytes r
    → len ≤ length r
    → parse_record (some r) len true ≡ (ok, some v)
    → (take len r ≡ frame v.opcode v.payload) × (v.payload_length ≡ length v.payload)
parse_record→frame r len v all room h =
    let (good, (holds, (magic, viewed))) = parse_record-ok r len v h in
    subst (λ v. (take len r ≡ frame v.opcode v.payload) × (v.payload_length ≡ length v.payload))
      viewed (whole (good-Prefix r len good) holds magic)
  where
    payload : List ℕ
    payload = take (len - record_overhead) (drop 42 r)

    opcode : ℕ
    opcode = of_u16_le (drop 6 r)

    size : Prefix r len → len - record_overhead ≡ length payload
    size p = omega (arith, length-take (len - record_overhead) (drop 42 r), length-drop 42 r)

    start :
        Prefix r len
        → mem_eq 31 (drop 11 r) boost_header ≡ true
        → take 42 r ≡ frame_start opcode len
    start p magic =
        take_add 11 31 r
        ∙ ap₂ (λ a b. a ++ b) (prefix_lem r len all room p)
            (mem_eq→take 31 (drop 11 r) boost_header magic)

    body :
        Prefix r len
        → mem_eq 31 (drop 11 r) boost_header ≡ true
        → take (len - checksum_size) r ≡ frame_body opcode payload
    body p magic =
        let split : len - checksum_size ≡ 42 + (len - record_overhead) = omega arith in
        let total : len ≡ record_overhead + length payload = omega (arith, size p) in
        ap (λ k. take k r) split
        ∙ take_add 42 (len - record_overhead) r
        ∙ ap (λ a. a ++ payload) (start p magic ∙ ap (frame_start opcode) total)

    whole :
        Prefix r len
        → checksum_holds r len ≡ true
        → mem_eq 31 (drop 11 r) boost_header ≡ true
        → (take len r ≡ frame opcode payload) × (len - record_overhead ≡ length payload)
    whole p holds magic = (
      checksum_holds→trailer r len all (omega arith) room holds
          ∙ ap (λ b. b ++ u32_be (trailer_of b)) (body p magic),
      size p,
    )
