-- ===== src/Protocol/DecoderCut.antt =====
-- A block of the decoder of firmware/components/accessport_protocol may come in two pieces.
use revlink_sidecar.Base.{
  ℕ, ◌+◌, ◌%◌, ◌^◌, ◌≡◌, ◌<◌, refl, ap, ap₂, sym, ◌∙◌, ◌==◌, if◌then◌else◌, Bool, true, false,
  Bool-cases, ◌⊎◌, inl, inr, Option, none, some, ◌>>=◌, List, [], ◌∷◌, ◌++◌, append_assoc, length,
  length-append, arith, then_go,
}
use revlink_sidecar.Crc.Bounds.{crc32_update-append}
use revlink_sidecar.Protocol.{ApStatus, sink_error}
use revlink_sidecar.Protocol.Decoder.{
  Decoder, DecoderState, in_archive, in_chunk_header, in_payload, in_trailer, completed,
  read_archive, read_chunk_header, count_payload, take_payload, after_sink, read_trailer, absorb,
  fed,
}
use revlink_sidecar.Protocol.DecoderGood.{outcome, GoodIn, room, is_completed}
use revlink_sidecar.Protocol.DecoderParts.{
  sunk, IsStream, with_part, bad_start, archive-part, bad_start-append, archive-bad, header-part,
  trailer-part, payload-part,
}

-- What a round in the payload comes to.
abbrev payload_result : {S : Type 0} → Decoder → List ℕ → Option S → ApStatus ⊎ (Decoder × S)
payload_result d bs none = inl sink_error
payload_result d bs (some s) = inr (count_payload d bs, s)

after_sink-outcome :
    {S : Type 0} (sink : List ℕ → S → Bool × S) (d : Decoder) (bs : List ℕ) (r : Bool × S)
    → outcome (after_sink sink d bs r) ≡ payload_result d bs (sunk r)
after_sink-outcome sink d bs (true, s) = refl
after_sink-outcome sink d bs (false, s) = refl

take_payload-outcome :
    {S : Type 0} (sink : List ℕ → S → Bool × S) (d : Decoder) (bs : List ℕ) (s : S)
    → 0 < length bs
    → outcome (take_payload sink d bs s) ≡ payload_result d bs (sunk (sink bs s))
unfolding take_payload
take_payload-outcome sink d [] s h = absurd (omega arith)
take_payload-outcome sink d (b ∷ bs) s h =
    ground (arith, after_sink-outcome sink d (b ∷ bs) (sink (b ∷ bs) s))

count_payload-append :
    (d : Decoder) (xs ys : List ℕ)
    → length xs < room in_payload d
    → count_payload (count_payload d xs) ys ≡ count_payload d (xs ++ ys)
unfolding count_payload
count_payload-append d xs ys h =
    ap (λ t. count_payload t ys) (payload-part d xs h)
    ∙ ap₂
        (λ crc received.
          let d' = record d { chunk_crc = crc; payload_received = received } in
          if received == d.payload_size then record d' { state = in_trailer } else d')
        (sym (crc32_update-append d.chunk_crc xs ys)) size
  where
    size : d.payload_received + length xs + length ys ≡ d.payload_received + length (xs ++ ys)
    size = omega (arith, length-append xs ys)

payload_result-append :
    {S : Type 0} (d : Decoder) (xs ys : List ℕ) (o : Option S)
    → length xs < room in_payload d
    → payload_result d (xs ++ ys) o ≡ payload_result (count_payload d xs) ys o
payload_result-append d xs ys none h = refl
payload_result-append d xs ys (some s) h =
    ap (λ d'. inr (d', s)) (sym (count_payload-append d xs ys h))

payload-cut :
    {S : Type 0} (sink : List ℕ → S → Bool × S) (d : Decoder) (xs ys : List ℕ) (s : S)
    → IsStream sink
    → d.state ≡ in_payload
    → length xs < room in_payload d
    → 0 < length xs
    → 0 < length ys
    → some (outcome (take_payload sink d (xs ++ ys) s))
      ≡ then_go
          (outcome (take_payload sink d xs s))
          (λ x'. some (outcome (absorb sink x'.0.state x'.0 ys x'.1)))
payload-cut {S} sink d xs ys s stream st h p q =
    ap some (take_payload-outcome sink d (xs ++ ys) s (omega (arith, length-append xs ys)))
    ∙ ap (λ o. some (payload_result d (xs ++ ys) o)) (stream xs ys s)
    ∙ go (sunk (sink xs s))
    ∙ sym (ap (λ r. then_go r next) (take_payload-outcome sink d xs s p))
  where
    next : Decoder × S → Option (ApStatus ⊎ (Decoder × S))
    next x' = some (outcome (absorb sink x'.0.state x'.0 ys x'.1))

    go :
        (o : Option S)
        → some (payload_result d (xs ++ ys) (o >>= (λ s'. sunk (sink ys s'))))
          ≡ then_go (payload_result d xs o) next
    go none = refl
    go (some s') =
        let d' : Decoder = count_payload d xs in
        let stays : d'.state ≡ in_payload = ap (λ t. t.state) (payload-part d xs h) ∙ st in
        sym (
          ap (λ k. some (outcome (absorb sink k d' ys s'))) stays
          ∙ ap some (
              take_payload-outcome sink d' ys s' q
              ∙ sym (payload_result-append d xs ys (sunk (sink ys s')) h)))

-- A block that ends before the state has all it needs, and the rest of it.
pub absorb-cut :
    {S : Type 0} (sink : List ℕ → S → Bool × S) (st : DecoderState) (d : Decoder) (xs ys : List ℕ)
    (s : S)
    → IsStream sink
    → d.state ≡ st
    → GoodIn st d
    → (is_completed st ≡ false → length xs < room st d)
    → 0 < length xs
    → 0 < length ys
    → some (outcome (absorb sink st d (xs ++ ys) s))
      ≡ then_go
          (outcome (absorb sink st d xs s))
          (λ x'. some (outcome (absorb sink x'.0.state x'.0 ys x'.1)))
absorb-cut {S} sink in_archive d xs ys s stream st g h p q =
    elim (Bool-cases (bad_start (d.archive ++ xs))) [
      | inl bad ↦
          ap (λ r. some (outcome (fed r s)))
            (archive-bad d (xs ++ ys) (
              ap bad_start (sym (append_assoc d.archive xs ys))
              ∙ bad_start-append (d.archive ++ xs) ys bad))
          ∙ sym (ap (λ r. then_go (outcome (fed r s)) next) (archive-bad d xs bad))
      | inr good ↦
          ap (λ a. some (outcome (fed (read_archive (record d { archive = a })) s)))
            (sym (append_assoc d.archive xs ys))
          ∙ sym (
              ap (λ r. then_go (outcome (fed r s)) next) (archive-part d xs g (h refl) good)
              ∙ ap (λ k. some (outcome (absorb sink k (with_part in_archive d xs) ys s))) st)
    ]
  where
    next : Decoder × S → Option (ApStatus ⊎ (Decoder × S))
    next x' = some (outcome (absorb sink x'.0.state x'.0 ys x'.1))
absorb-cut sink in_chunk_header d xs ys s stream st g h p q =
    ap (λ a. some (outcome (fed (read_chunk_header (record d { chunk_header = a })) s)))
      (sym (append_assoc d.chunk_header xs ys))
    ∙ sym (
        ap
          (λ r.
            then_go (outcome (fed r s))
              (λ x'. some (outcome (absorb sink x'.0.state x'.0 ys x'.1))))
          (header-part d xs (h refl))
        ∙ ap (λ k. some (outcome (absorb sink k (with_part in_chunk_header d xs) ys s))) st)
absorb-cut sink in_payload d xs ys s stream st g h p q =
    payload-cut sink d xs ys s stream st (h refl) p q
absorb-cut sink in_trailer d xs ys s stream st g h p q =
    ap (λ a. some (outcome (fed (read_trailer (record d { trailer = a })) s)))
      (sym (append_assoc d.trailer xs ys))
    ∙ sym (
        ap
          (λ r.
            then_go (outcome (fed r s))
              (λ x'. some (outcome (absorb sink x'.0.state x'.0 ys x'.1))))
          (trailer-part d xs (h refl))
        ∙ ap (λ k. some (outcome (absorb sink k (with_part in_trailer d xs) ys s))) st)
absorb-cut sink completed d xs ys s stream st g h p q =
    ap (λ n. some (inr (record d { trailing_bytes = n }, s))) size
    ∙ sym (ap (λ k. some (outcome (absorb sink k (with_part completed d xs) ys s))) st)
  where
    size :
        (d.trailing_bytes + length (xs ++ ys)) % 2 ^ 32
        ≡ ((d.trailing_bytes + length xs) % 2 ^ 32 + length ys) % 2 ^ 32
    size = omega (arith, length-append xs ys)

take_payload-left :
    {S : Type 0} (sink : List ℕ → S → Bool × S) (d : Decoder) (xs : List ℕ) (s : S)
    (x' : Decoder × S)
    → outcome (take_payload sink d xs s) ≡ inr x'
    → x'.0 ≡ count_payload d xs
unfolding take_payload
take_payload-left sink d [] s x' e = grind arith
take_payload-left sink d (b ∷ bs) s x' e = elim (Bool-cases (sink (b ∷ bs) s).0) [
  | inl took ↦ grind arith
  | inr lost ↦ grind arith
]

-- Where the block does not end, the state only has more bytes.
pub absorb-left :
    {S : Type 0} (sink : List ℕ → S → Bool × S) (st : DecoderState) (d : Decoder) (xs : List ℕ)
    (s : S) (x' : Decoder × S)
    → GoodIn st d
    → (is_completed st ≡ false → length xs < room st d)
    → outcome (absorb sink st d xs s) ≡ inr x'
    → x'.0 ≡ with_part st d xs
absorb-left sink in_archive d xs s x' g h e = elim (Bool-cases (bad_start (d.archive ++ xs))) [
  | inl bad ↦ let r = archive-bad d xs bad in grind arith
  | inr good ↦ let r = archive-part d xs g (h refl) good in grind arith
]
absorb-left sink in_chunk_header d xs s x' g h e = let r = header-part d xs (h refl) in grind arith
absorb-left sink in_payload d xs s x' g h e =
    take_payload-left sink d xs s x' e ∙ payload-part d xs (h refl)
absorb-left sink in_trailer d xs s x' g h e = let r = trailer-part d xs (h refl) in grind arith
absorb-left sink completed d xs s x' g h e = grind arith
