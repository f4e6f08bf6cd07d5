-- ===== src/Protocol/DownloadBlocks.antt =====
-- The blocks of a download that the decoder of firmware/components/accessport_protocol takes whole.
use revlink_sidecar.Base.{
  ℕ, suc, ◌-◌, ◌≡◌, ◌<◌, ap, ap₂, ◌∙◌, Bool, true, false, ◌⊎◌, inr, Option, some, List, [], ◌∷◌,
  ◌++◌, length, drop, take_all, drop_all, arith, then_feed, then_go, feed_blocks,
}
use revlink_sidecar.Crc.{crc32_update}
use revlink_sidecar.Protocol.{ApStatus, ok, byte, of_u24_be, of_u32_be}
use revlink_sidecar.Protocol.Record.{zero_trailer}
use revlink_sidecar.Protocol.Decoder.{
  Decoder, in_chunk_header, in_payload, completed, after_sink, bad_chunk_header, absorb,
  read_archive, read_chunk_header, read_trailer, count_payload, count_of, validate_download_archive,
}
use revlink_sidecar.Protocol.DecoderGood.{outcome, machine, Good, room, is_completed, count_of-room}
use revlink_sidecar.Protocol.DecoderParts.{IsStream, sunk}
use revlink_sidecar.Protocol.DecoderFed.{fed_with, fed_with-machine, feed-append, feed_ends}

-- The bytes that a state has room for, in one call.
pub one_block :
    {S : Type 0} (sink : List ℕ → S → Bool × S) (x x' : Decoder × S) (bs : List ℕ)
    → Good x.0
    → 0 < length bs
    → is_completed x.0.state ≡ false
    → room x.0.state x.0 ≡ length bs
    → absorb sink x.0.state x.0 bs x.1 ≡ (ok, x')
    → fed_with sink x bs ≡ some (inr x')
one_block sink x x' [] g p c r e = absurd (omega arith)
one_block sink x x' (b ∷ bs) g p c r e =
    let (count, _) = count_of-room x.0.state x.0 (length (b ∷ bs)) g.0 g.1 c in
    let whole : count_of x.0.state x.0 (length (b ∷ bs)) ≡ length (b ∷ bs) = omega arith in
    fed_with-machine sink x (b ∷ bs) g
    ∙ ap₂
        (λ t u.
          then_go (outcome (absorb sink x.0.state x.0 t x.1))
            (λ y. feed_blocks (machine sink) (suc (length bs)) y u))
        (take_all (count_of x.0.state x.0 (length (b ∷ bs))) (b ∷ bs) (omega arith))
        (drop_all (count_of x.0.state x.0 (length (b ∷ bs))) (b ∷ bs) (omega arith))
    ∙ ap (λ r. then_go (outcome r) (λ y. some (inr y))) e

-- Such a block, and what follows it.
pub block_then :
    {S : Type 0} (sink : List ℕ → S → Bool × S) (x x' : Decoder × S) (bs rest : List ℕ)
    (o : Option (ApStatus ⊎ (Decoder × S)))
    → IsStream sink
    → Good x.0
    → 0 < length bs
    → is_completed x.0.state ≡ false
    → room x.0.state x.0 ≡ length bs
    → absorb sink x.0.state x.0 bs x.1 ≡ (ok, x')
    → (Good x'.0 → fed_with sink x' rest ≡ o)
    → fed_with sink x (bs ++ rest) ≡ o
block_then sink x x' bs rest o stream g p c r e next =
    let first = one_block sink x x' bs g p c r e in
    feed-append sink x bs rest stream g
    ∙ ap (λ t. then_feed t (λ y. fed_with sink y rest)) first
    ∙ next ((feed_ends sink x.0 x.1 bs g).1 x'.0 x'.1 first)

pub archive_whole :
    (d : Decoder)
    → byte d.archive 0 ≡ 2
    → byte d.archive 1 ≡ 0
    → byte d.archive 2 ≡ 0
    → length d.archive ≡ d.archive_target_size
    → 5 < d.archive_target_size
    → validate_download_archive d ≡ ok
    → read_archive d ≡ (ok, record d { state = in_chunk_header })
unfolding read_archive
archive_whole d b0 b1 b2 size fits valid = grind arith

pub header_whole :
    (d : Decoder)
    → length d.chunk_header ≡ 7
    → bad_chunk_header d.chunk_header ≡ false
    → of_u24_be (drop 2 d.chunk_header) - 4 ≡ d.expected_payload_size
    → read_chunk_header d ≡ (
      ok,
      record d {
        payload_size = d.expected_payload_size;
        chunk_crc = crc32_update d.chunk_crc d.chunk_header;
        state = in_payload;
      },
    )
unfolding read_chunk_header
header_whole d size good declared = ground arith

pub payload_taken :
    {S : Type 0} (sink : List ℕ → S → Bool × S) (d : Decoder) (bs : List ℕ) (s' : S) (r : Bool × S)
    → sunk r ≡ some s'
    → after_sink sink d bs r ≡ (ok, (count_payload d bs, s'))
payload_taken sink d bs s' (true, s) e = grind arith
payload_taken sink d bs s' (false, s) e = cc

pub trailer_whole :
    (d : Decoder)
    → length d.trailer ≡ 4
    → of_u32_be d.trailer ≡ crc32_update d.chunk_crc zero_trailer
    → read_trailer d
      ≡ (ok, record d { chunk_crc = crc32_update d.chunk_crc zero_trailer; state = completed })
unfolding read_trailer
trailer_whole d size valid = ground arith
