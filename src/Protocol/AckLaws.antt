-- ===== src/Protocol/AckLaws.antt =====
-- Acknowledgements and error codes: the two tests of an acknowledgement agree, and an error code that is
-- answered was received.
use revlink_sidecar.Base.{
  ℕ, zero, suc, ◌+◌, ◌-◌, ◌*◌, ◌≡◌, ◌≤◌, ◌<◌, inl, inr, refl, ap, sym, ◌∙◌, ltb, ◌==◌, not,
  if◌then◌else◌, Bool, Bool-cases, true, false, ◌&&◌, ◌||◌, none, some, List, [], ◌∷◌, length, take,
  drop, All, mem_eq, arith, get_or-drop,
}
use revlink_sidecar.Protocol.{of_u16_be, checksum_size, checked_add, byte}
use revlink_sidecar.Protocol.Parse.{checksum_holds}
use revlink_sidecar.Protocol.Ack.{
  bad_short_frame, is_plain_ack_payload, disconnect_ack_size, is_plain_ack, error_digits,
  plain_error_code,
}

mem_eq-byte :
    (n : ℕ) (r : List ℕ) (s : ℕ) → n < length r → mem_eq 1 (drop n r) (s ∷ []) ≡ (byte r n == s)
unfolding mem_eq
mem_eq-byte n [] s h = absurd (omega arith)
mem_eq-byte zero (x ∷ r) s h = ground arith
mem_eq-byte (suc n) (x ∷ r) s h = mem_eq-byte n r s (omega arith)

refused_alike :
    (x y c d : Bool) → (if x || y || not c then false else d) ≡ (if x || y then false else c && d)
refused_alike true y c d = refl
refused_alike false true c d = refl
refused_alike false false true d = refl
refused_alike false false false d = refl

unless_refused :
    (g x y : Bool) → (g ≡ false → x ≡ y) → (if g then false else x) ≡ (if g then false else y)
unless_refused true x y h = refl
unless_refused false x y h = h refl

pub none_refused : (x y z : Bool) → x || y || not z ≡ false → (x ≡ false) × (y ≡ false) × (z ≡ true)
none_refused true y z h = absurd cc
none_refused false true z h = absurd cc
none_refused false false true h = (refl, refl, refl)
none_refused false false false h = absurd cc

-- The test of an acknowledgement with one byte of payload is the test of the payload with that byte.
is_plain_ack-payload :
    (r : List ℕ) (len subtype : ℕ)
    → len ≤ length r
    → is_plain_ack (some r) len subtype ≡ is_plain_ack_payload (some r) len (some (subtype ∷ [])) 1
unfolding is_plain_ack is_plain_ack_payload checked_add
is_plain_ack-payload r len subtype h =
    refused_alike (not (len == disconnect_ack_size)) (bad_short_frame 0x01 r len)
      (byte r 7 == subtype) (checksum_holds r len)
    ∙ unless_refused (not (len == disconnect_ack_size) || bad_short_frame 0x01 r len)
        ((byte r 7 == subtype) && checksum_holds r len)
        (mem_eq 1 (drop 7 r) (subtype ∷ []) && checksum_holds r len)
        (λ good.
          ap (λ same. same && checksum_holds r len) (sym (mem_eq-byte 7 r subtype (long good))))
  where
    long : not (len == disconnect_ack_size) || bad_short_frame 0x01 r len ≡ false → 7 < length r
    long good =
        let size = go (not (len == disconnect_ack_size)) (bad_short_frame 0x01 r len) good in
        ground arith
      where
        go : (x y : Bool) → x || y ≡ false → x ≡ false
        go true y q = q
        go false y q = refl

-- A decimal number's value, read from the left.
abbrev pub digits_value : ℕ → List ℕ → ℕ
digits_value n [] = n
digits_value n (b ∷ bs) = digits_value (n * 10 + (b - b'0')) bs

abbrev pub IsDigits : List ℕ → Type 0
IsDigits = All (λ (b : ℕ). (b'0' ≤ b) × (b ≤ b'9'))

error_digits_read :
    (n : ℕ) (text : List ℕ) (code : ℕ)
    → n ≤ 65535
    → error_digits n text ≡ some code
    → IsDigits text × (code ≡ digits_value n text) × (code ≤ 65535)
unfolding error_digits
error_digits_read n [] code h p = (tt, ground arith, ground arith)
error_digits_read n (b ∷ bs) code h p =
    let ih = error_digits_read (n * 10 + (b - b'0')) bs code in
    elim (Bool-cases (ltb b b'0' || ltb b'9' b)) [
      | inl bad ↦ absurd (let gone : none ≡ some code = rw bad at p in cc)
      | inr good ↦ elim (Bool-cases (ltb 65535 (n * 10 + (b - b'0')))) [
        | inl high ↦ absurd (let gone : none ≡ some code = rw (good, high) at p in cc)
        | inr fits ↦
            let rest = ih (ground arith) (rw (good, fits) at p) in
            (((ground arith, ground arith), rest.0), rest.1, rest.2)
      ]
    ]

-- The payload of a short frame.
abbrev pub short_payload : List ℕ → ℕ → List ℕ
short_payload r len = take (len - 7 - checksum_size) (drop 7 r)

-- A short frame of a kind: the marker, the zeros, the kind, and the length of what follows the prefix.
abbrev pub IsShortFrame : ℕ → List ℕ → ℕ → Type 0
IsShortFrame kind r len =
    (byte r 0 ≡ 0x02)
    × (byte r 1 ≡ 0)
    × (byte r 2 ≡ 0)
    × (byte r 3 * 256 + byte r 4 + 7 ≡ len)
    × (byte r 5 ≡ 0)
    × (byte r 6 ≡ kind)

bad_short_frame→IsShortFrame :
    (kind : ℕ) (r : List ℕ) (len : ℕ) → bad_short_frame kind r len ≡ false → IsShortFrame kind r len
unfolding of_u16_be
bad_short_frame→IsShortFrame kind r len h =
    let high = get_or-drop 3 0 r 0 in let low = get_or-drop 3 1 r 0 in ground arith

-- An error code that is answered stands in decimal digits, one at least, in the payload of a frame whose
-- marker, length and checksum are right, and it fits 16 bits.
pub plain_error_code→received :
    (r : List ℕ) (len code : ℕ)
    → plain_error_code (some r) len true ≡ some code
    → (12 ≤ len)
      × IsShortFrame 0x02 r len
      × (checksum_holds r len ≡ true)
      × IsDigits (short_payload r len)
      × (code ≡ digits_value 0 (short_payload r len))
      × (code ≤ 65535)
unfolding plain_error_code
plain_error_code→received r len code h =
    elim (Bool-cases (ltb len 12 || bad_short_frame 0x02 r len || not (checksum_holds r len))) [
      | inl bad ↦ absurd (let gone : none ≡ some code = rw bad at h in cc)
      | inr good ↦
          let tests =
            none_refused (ltb len 12) (bad_short_frame 0x02 r len) (checksum_holds r len) good in
          let read = error_digits_read 0 (short_payload r len) code (omega arith) (rw good at h) in
          let long = tests.0 in
          (
            ground arith,
            bad_short_frame→IsShortFrame 0x02 r len tests.1,
            tests.2,
            read.0,
            read.1,
            read.2,
          )
    ]
