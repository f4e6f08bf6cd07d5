-- ===== src/Protocol/DecoderParts.antt =====
-- A block of the decoder of firmware/components/accessport_protocol that has come in part.
use revlink_sidecar.Base.{
  ℕ, zero, suc, ◌+◌, ◌%◌, ◌^◌, ◌≡◌, ◌≤◌, ◌<◌, refl, leb, ◌==◌, not, Bool, true, false, ◌&&◌, ◌||◌,
  Option, none, some, ◌>>=◌, List, [], ◌∷◌, ◌++◌, length, length-append, arith,
}
use revlink_sidecar.Crc.{crc32_update}
use revlink_sidecar.Protocol.{ok, invalid_frame, byte}
use revlink_sidecar.Protocol.Decoder.{
  Decoder, DecoderState, in_archive, in_chunk_header, in_payload, in_trailer, completed,
  read_archive, take_archive, read_chunk_header, take_chunk_header, count_payload, read_trailer,
  take_trailer,
}
use revlink_sidecar.Protocol.DecoderGood.{GoodIn, room}

-- Whether the sink has taken the bytes, and its context then.
abbrev pub sunk : {S : Type 0} → Bool × S → Option S
sunk (true, s) = some s
sunk (false, s) = none

-- The sink does not mind in which pieces the bytes come.
abbrev pub IsStream : {S : Type 0} → (List ℕ → S → Bool × S) → Type 0
IsStream {S} sink =
    (xs ys : List ℕ) (s : S)
    → sunk (sink (xs ++ ys) s) ≡ sunk (sink xs s) >>= (λ s'. sunk (sink ys s'))

byte-append : (xs ys : List ℕ) (i : ℕ) → i < length xs → byte (xs ++ ys) i ≡ byte xs i
byte-append [] ys i h = absurd (omega arith)
byte-append (x ∷ xs) ys zero h = refl
byte-append (x ∷ xs) ys (suc i) h = byte-append xs ys i (omega arith)

-- The state goes on to wait, with the bytes added.
abbrev pub with_part : DecoderState → Decoder → List ℕ → Decoder
with_part in_archive d xs = record d { archive = d.archive ++ xs }
with_part in_chunk_header d xs = record d { chunk_header = d.chunk_header ++ xs }
with_part in_payload d xs = record d {
  chunk_crc = crc32_update d.chunk_crc xs;
  payload_received = d.payload_received + length xs;
}
with_part in_trailer d xs = record d { trailer = d.trailer ++ xs }
with_part completed d xs = record d { trailing_bytes = (d.trailing_bytes + length xs) % 2 ^ 32 }

-- The archive does not start as it should.
abbrev pub bad_start : List ℕ → Bool
bad_start a =
    leb 3 (length a) && (not (byte a 0 == 2) || not (byte a 1 == 0) || not (byte a 2 == 0))

pub archive-part :
    (d : Decoder) (xs : List ℕ)
    → GoodIn in_archive d
    → length xs < room in_archive d
    → bad_start (d.archive ++ xs) ≡ false
    → take_archive d xs ≡ (ok, with_part in_archive d xs)
unfolding read_archive
archive-part d xs g h b = let size = length-append d.archive xs in grind arith

pub bad_start-append : (xs ys : List ℕ) → bad_start xs ≡ true → bad_start (xs ++ ys) ≡ true
bad_start-append xs ys h =
    let three : 3 ≤ length xs = ground arith in
    ground (
      arith,
      length-append xs ys,
      byte-append xs ys 0 (omega arith),
      byte-append xs ys 1 (omega arith),
      byte-append xs ys 2 (omega arith),
    )

pub archive-bad :
    (d : Decoder) (xs : List ℕ)
    → bad_start (d.archive ++ xs) ≡ true
    → take_archive d xs ≡ (invalid_frame, with_part in_archive d xs)
unfolding read_archive
archive-bad d xs b = ground (arith, b)

pub header-part :
    (d : Decoder) (xs : List ℕ)
    → length xs < room in_chunk_header d
    → take_chunk_header d xs ≡ (ok, with_part in_chunk_header d xs)
unfolding read_chunk_header
header-part d xs h = let size = length-append d.chunk_header xs in ground arith

pub trailer-part :
    (d : Decoder) (xs : List ℕ)
    → length xs < room in_trailer d
    → take_trailer d xs ≡ (ok, with_part in_trailer d xs)
unfolding read_trailer
trailer-part d xs h = let size = length-append d.trailer xs in ground arith

pub payload-part :
    (d : Decoder) (xs : List ℕ)
    → length xs < room in_payload d
    → count_payload d xs ≡ with_part in_payload d xs
unfolding count_payload
payload-part d xs h = ground arith
