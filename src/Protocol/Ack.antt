-- ===== src/Protocol/Ack.antt =====
-- The short frames of firmware/components/accessport_protocol/revlink_accessport_protocol.c: acknowledgements,
-- error codes, the identity requests and the disconnect. Each is a prefix of 7 bytes, a payload and a checksum.
use revlink_sidecar.Base.{
  ℕ, ◌+◌, ◌-◌, ◌*◌, ltb, leb, ◌==◌, not, if◌then◌else◌, Bool, false, ◌&&◌, ◌||◌, Option, none, some,
  ◌>>=◌, List, [], ◌∷◌, take, drop, get_or, mem_eq, write_at,
}
use revlink_sidecar.Protocol.{
  ok, invalid_argument, buffer_too_small, checksum_size, checked_add, byte, of_u16_be,
}
use revlink_sidecar.Protocol.Parse.{checksum_holds}
use revlink_sidecar.Protocol.Record.{Built, stopped}

-- The marker, the zeros, the kind of the frame and the length; `true` is a violation.
abbrev pub bad_short_frame : ℕ → List ℕ → ℕ → Bool
bad_short_frame kind r len =
    not (byte r 0 == 0x02)
    || not (byte r 1 == 0)
    || not (byte r 2 == 0)
    || not (byte r 5 == 0)
    || not (byte r 6 == kind)
    || not (of_u16_be (drop 3 r) + 7 == len)

unfoldable pub is_plain_ack_payload : Option (List ℕ) → ℕ → Option (List ℕ) → ℕ → Bool
is_plain_ack_payload (some r) len (some expected) expected_len =
    if expected_len == 0
    then false
    else elim (checked_add 7 expected_len >>= (λ n. checked_add n checksum_size)) [
      | none ↦ false
      | some expected_length ↦
          if not (len == expected_length) || bad_short_frame 0x01 r len
          then false
          else mem_eq expected_len (drop 7 r) expected && checksum_holds r len
    ]
is_plain_ack_payload r len expected expected_len = false

abbrev pub disconnect_ack_size : ℕ
disconnect_ack_size = 12

unfoldable pub is_plain_ack : Option (List ℕ) → ℕ → ℕ → Bool
is_plain_ack none len expected_subtype = false
is_plain_ack (some r) len expected_subtype =
    if not (len == disconnect_ack_size)
      || bad_short_frame 0x01 r len
      || not (byte r 7 == expected_subtype)
    then false
    else checksum_holds r len

-- The loop over the payload's digits.
unfoldable pub error_digits : ℕ → List ℕ → Option ℕ
error_digits parsed [] = some parsed
error_digits parsed (b ∷ bs) =
    let next = parsed * 10 + (b - b'0') in
    let rest = error_digits next bs in
    if ltb b b'0' || ltb b'9' b then none else if ltb 65535 next then none else rest

-- What is stored in `*error_code`, or `none` where the answer is `false`.
unfoldable pub plain_error_code : Option (List ℕ) → ℕ → Bool → Option ℕ
plain_error_code none len has_code = none
plain_error_code (some r) len has_code =
    if not has_code || ltb len 12 || bad_short_frame 0x02 r len || not (checksum_holds r len)
    then none
    else error_digits 0 (take (len - 7 - checksum_size) (drop 7 r))

abbrev pub identity_handshake : List (List ℕ)
identity_handshake =
    (0x02 ∷ 0x00 ∷ 0x00 ∷ 0x00 ∷ 0x04 ∷ 0x00 ∷ 0x04 ∷ 0xcd ∷ 0xdb ∷ 0x75 ∷ 0x01 ∷ [])
    ∷ (0x02 ∷ 0x00 ∷ 0x00 ∷ 0x00 ∷ 0x04 ∷ 0x00 ∷ 0x03 ∷ 0x7f ∷ 0xfb ∷ 0xa9 ∷ 0x11 ∷ [])
    ∷ (0x02 ∷ 0x00 ∷ 0x00 ∷ 0x00 ∷ 0x04 ∷ 0x00 ∷ 0x28 ∷ 0xc9 ∷ 0xea ∷ 0xb7 ∷ 0x04 ∷ [])
    ∷ (0x02 ∷ 0x00 ∷ 0x00 ∷ 0x00 ∷ 0x04 ∷ 0x00 ∷ 0x1f ∷ 0xda ∷ 0xeb ∷ 0xd3 ∷ 0x92 ∷ [])
    ∷ []

abbrev pub disconnect_frame : List ℕ
disconnect_frame = 0x02 ∷ 0x00 ∷ 0x00 ∷ 0x00 ∷ 0x04 ∷ 0x00 ∷ 0x05 ∷ 0xf0 ∷ 0xbb ∷ 0x5c ∷ 0xb1 ∷ []

abbrev pub disconnect_ack : List ℕ
disconnect_ack =
    0x02 ∷ 0x00 ∷ 0x00 ∷ 0x00 ∷ 0x05 ∷ 0x00 ∷ 0x01 ∷ 0x35 ∷ 0x82 ∷ 0x6c ∷ 0x4d ∷ 0x38 ∷ []

-- A fixed frame is copied to the start of the buffer, if it has room for its 11 bytes.
unfoldable pub copy_frame : List ℕ → List ℕ → ℕ → Built
copy_frame frame output capacity =
    if ltb capacity 11
    then stopped buffer_too_small (some output)
    else record { status = ok; output = some (write_at 0 frame output); output_length = some 11 }

unfoldable pub identity_handshake_request : ℕ → Option (List ℕ) → ℕ → Bool → Built
identity_handshake_request index none capacity has_length = stopped invalid_argument none
identity_handshake_request index (some output) capacity has_length =
    if not has_length || leb 4 index
    then stopped invalid_argument (some output)
    else copy_frame (get_or identity_handshake index []) output capacity

unfoldable pub disconnect_request : Option (List ℕ) → ℕ → Bool → Built
disconnect_request none capacity has_length = stopped invalid_argument none
disconnect_request (some output) capacity has_length =
    if not has_length
    then stopped invalid_argument (some output)
    else copy_frame disconnect_frame output capacity

unfoldable pub is_disconnect_ack : Option (List ℕ) → ℕ → Bool
is_disconnect_ack none len = false
is_disconnect_ack (some r) len =
    len == disconnect_ack_size && mem_eq disconnect_ack_size r disconnect_ack
