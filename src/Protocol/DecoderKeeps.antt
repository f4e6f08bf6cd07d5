-- ===== src/Protocol/DecoderKeeps.antt =====
-- A round of the decoder of firmware/components/accessport_protocol keeps its counters in order.
use revlink_sidecar.Base.{
  ℕ, ◌≡◌, ◌≤◌, ◌<◌, refl, ap, subst, ◌==◌, Bool, false, Bool-cases, ◌&&◌, inl, inr, List, ◌++◌,
  length, length-append, arith,
}
use revlink_sidecar.Protocol.{ok}
use revlink_sidecar.Protocol.Decoder.{
  Decoder, DecoderState, in_archive, in_chunk_header, in_payload, in_trailer, completed,
  archive_capacity, check_archive, read_archive, read_chunk_header, count_payload, take_payload,
  read_trailer, absorb, with_target,
}
use revlink_sidecar.Protocol.DecoderGood.{archive_end, GoodIn, IsSized, Good, room, is_completed}

-- What the reading of the archive may lead to.
check_archive-Good :
    (d d' : Decoder)
    → d.state ≡ in_archive
    → IsSized d
    → length d.archive ≤ archive_end d
    → (d.archive_target_size ≡ 0 → length d.archive < 5)
    → d.archive_target_size ≤ archive_capacity
    → length d.chunk_header ≡ 0
    → d.payload_received ≡ 0
    → length d.trailer ≡ 0
    → check_archive d ≡ (ok, d')
    → Good d'
check_archive-Good d d' st s h short fits c p t e = grind arith

header-Good :
    (d d' : Decoder)
    → d.state ≡ in_chunk_header
    → IsSized d
    → length d.chunk_header ≤ 7
    → d.payload_received ≡ 0
    → length d.trailer ≡ 0
    → read_chunk_header d ≡ (ok, d')
    → Good d'
unfolding read_chunk_header
header-Good d d' st s h p t e = grind arith

payload-Good :
    (d : Decoder) (bs : List ℕ)
    → d.state ≡ in_payload
    → IsSized d
    → GoodIn in_payload d
    → length bs ≤ room in_payload d
    → Good (count_payload d bs)
unfolding count_payload
payload-Good d bs st s g h = grind arith

trailer-Good :
    (d d' : Decoder)
    → d.state ≡ in_trailer
    → IsSized d
    → length d.trailer ≤ 4
    → read_trailer d ≡ (ok, d')
    → Good d'
unfolding read_trailer
trailer-Good d d' st s h e = grind arith

archive-Good :
    (d d' : Decoder)
    → d.state ≡ in_archive
    → IsSized d
    → length d.archive ≤ archive_end d
    → d.archive_target_size ≤ archive_capacity
    → length d.chunk_header ≡ 0
    → d.payload_received ≡ 0
    → length d.trailer ≡ 0
    → read_archive d ≡ (ok, d')
    → Good d'
unfolding read_archive
archive-Good d d' st s h fits c p t e =
    elim (Bool-cases (length d.archive == 5 && d.archive_target_size == 0)) [
      | inl starts ↦
          check_archive-Good (with_target d) d' st s (grind arith) (λ z. grind arith) (grind arith)
            c p t (grind arith)
      | inr later ↦ check_archive-Good d d' st s h (λ z. grind arith) fits c p t (grind arith)
    ]

-- The state that a round ends in is in order again.
pub absorb-Good :
    {S : Type 0} (sink : List ℕ → S → Bool × S) (st : DecoderState) (d d' : Decoder) (s s' : S)
    (bs : List ℕ)
    → d.state ≡ st
    → IsSized d
    → GoodIn st d
    → (is_completed st ≡ false → length bs ≤ room st d)
    → absorb sink st d bs s ≡ (ok, (d', s'))
    → Good d'
unfolding take_payload
absorb-Good sink in_archive d d' s s' bs st z g h e =
    let size = length-append d.archive bs in
    let fits = h refl in
    archive-Good (record d { archive = d.archive ++ bs }) d' st z (omega arith) g.1.0 g.1.1.0
      g.1.1.1.0 g.1.1.1.1 (ap (λ r. (r.0, r.1.0)) e)
absorb-Good sink in_chunk_header d d' s s' bs st z g h e =
    let size = length-append d.chunk_header bs in
    let fits = h refl in
    header-Good (record d { chunk_header = d.chunk_header ++ bs }) d' st z (omega arith) g.1.0 g.1.1
      (ap (λ r. (r.0, r.1.0)) e)
absorb-Good sink in_payload d d' s s' bs st z g h e =
    subst Good (sent e) (payload-Good d bs st z g (h refl))
  where
    sent : take_payload sink d bs s ≡ (ok, (d', s')) → count_payload d bs ≡ d'
    sent e = elim (Bool-cases (sink bs s).0) [ inl took ↦ grind arith | inr lost ↦ grind arith ]
absorb-Good sink in_trailer d d' s s' bs st z g h e =
    let size = length-append d.trailer bs in
    let fits = h refl in
    trailer-Good (record d { trailer = d.trailer ++ bs }) d' st z (omega arith)
      (ap (λ r. (r.0, r.1.0)) e)
absorb-Good sink completed d d' s s' bs st z g h e = grind arith
