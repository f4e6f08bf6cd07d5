-- ===== src/Protocol/DecoderGood.antt =====
-- The decoder of a download of firmware/components/accessport_protocol as a machine that takes blocks, and
-- the bounds of its counters.
use revlink_sidecar.Base.{
  ℕ, ◌-◌, ◌^◌, ◌≡◌, ◌≤◌, ◌<◌, refl, ap, min, ltb, if◌then◌else◌, Bool, true, false, ◌⊎◌, inl, inr,
  List, length, arith, BlockMachine,
}
use revlink_sidecar.Protocol.{ApStatus, ok}
use revlink_sidecar.Protocol.Decoder.{
  Decoder, DecoderState, in_archive, in_chunk_header, in_payload, in_trailer, completed,
  archive_capacity, needed, count_of, Fed, absorb, init,
}

-- After an error the decoder is of no use.
abbrev pub outcome : {S : Type 0} → Fed S → ApStatus ⊎ (Decoder × S)
outcome (ok, x) = inr x
outcome (status, x) = inl status

abbrev pub machine : {S : Type 0} → (List ℕ → S → Bool × S) → BlockMachine ApStatus (Decoder × S)
machine sink = record {
  count = λ x n. count_of x.0.state x.0 n;
  absorb = λ x bs. outcome (absorb sink x.0.state x.0 bs x.1);
}

-- Where the reading of the archive stops next: at its length field, or at its end.
abbrev pub archive_end : Decoder → ℕ
archive_end d = if ltb 0 d.archive_target_size then d.archive_target_size else 5

-- The buffer of the current state has room, and those of the states to come are empty.
abbrev pub GoodIn : DecoderState → Decoder → Type 0
GoodIn in_archive d =
    (length d.archive < archive_end d)
    × ((d.archive_target_size ≤ archive_capacity)
        × ((length d.chunk_header ≡ 0) × ((d.payload_received ≡ 0) × (length d.trailer ≡ 0))))
GoodIn in_chunk_header d =
    (length d.chunk_header < 7) × ((d.payload_received ≡ 0) × (length d.trailer ≡ 0))
GoodIn in_payload d =
    (d.payload_received < d.payload_size)
    × ((d.payload_size ≡ d.expected_payload_size) × (length d.trailer ≡ 0))
GoodIn in_trailer d = length d.trailer < 4
GoodIn completed d = Unit

-- A size is given, and it is a `size_t`.
abbrev pub IsSized : Decoder → Type 0
IsSized d = (0 < d.expected_payload_size) × (d.expected_payload_size < 2 ^ 32)

abbrev pub Good : Decoder → Type 0
Good d = IsSized d × GoodIn d.state d

-- `needed` without the wrap.
abbrev pub room : DecoderState → Decoder → ℕ
room in_archive d = archive_end d - length d.archive
room in_chunk_header d = 7 - length d.chunk_header
room in_payload d = d.payload_size - d.payload_received
room in_trailer d = 4 - length d.trailer
room completed d = 0

abbrev pub is_completed : DecoderState → Bool
is_completed completed = true
is_completed _ = false

pub needed-room :
    (st : DecoderState) (d : Decoder)
    → IsSized d
    → GoodIn st d
    → (needed st d ≡ room st d) × (is_completed st ≡ false → 0 < room st d)
unfolding needed
needed-room in_archive d s g = (ground arith, λ _. ground arith)
needed-room in_chunk_header d s g = (omega arith, λ _. omega arith)
needed-room in_payload d s g = (omega arith, λ _. omega arith)
needed-room in_trailer d s g = (omega arith, λ _. omega arith)
needed-room completed d s g = (refl, λ e. absurd (cc e))

-- How many bytes a state takes.
pub count_of-room :
    (st : DecoderState) (d : Decoder) (n : ℕ)
    → IsSized d
    → GoodIn st d
    → is_completed st ≡ false
    → (count_of st d n ≡ min (room st d) n) × (0 < room st d)
count_of-room completed d n s g h = cc
count_of-room in_archive d n s g h =
    let (e, p) = needed-room in_archive d s g in (ap (λ k. min k n) e, p refl)
count_of-room in_chunk_header d n s g h =
    let (e, p) = needed-room in_chunk_header d s g in (ap (λ k. min k n) e, p refl)
count_of-room in_payload d n s g h =
    let (e, p) = needed-room in_payload d s g in (ap (λ k. min k n) e, p refl)
count_of-room in_trailer d n s g h =
    let (e, p) = needed-room in_trailer d s g in (ap (λ k. min k n) e, p refl)

-- A new decoder is in order.
pub init-Good : (n : ℕ) → 0 < n → n < 2 ^ 32 → Good (init n)
unfolding init
init-Good n p q = ((p, q), (omega arith, (omega arith, (refl, (refl, refl)))))
