-- ===== src/Protocol/DecoderFed.antt =====
-- `revlink_ap_download_decoder_feed` of firmware/components/accessport_protocol: a call ends, and a transfer
-- may be split over calls at any place.
use revlink_sidecar.Base.{
  ℕ, suc, ◌≡◌, refl, ap, sym, ◌∙◌, ◌==◌, Bool, true, false, ◌⊎◌, inr, Option, none, some, is_some,
  List, ◌++◌, length, length-append, take_all, arith, then_feed, feed_blocks, feed_blocks_total,
  feed_blocks-keeps, feed_blocks-append, then_feed-cong,
}
use revlink_sidecar.Protocol.{ApStatus, slice_of}
use revlink_sidecar.Protocol.Payloads.{present}
use revlink_sidecar.Protocol.Decoder.{Decoder, Fed, feed}
use revlink_sidecar.Protocol.DecoderGood.{machine, Good}
use revlink_sidecar.Protocol.DecoderParts.{IsStream}
use revlink_sidecar.Protocol.DecoderLaws.{
  GoodX, result, feed_loop-machine, machine-IsPaced, machine-IsCuttable,
}

-- One call.
abbrev pub fed_with :
    {S : Type 0}
    → (List ℕ → S → Bool × S)
    → Decoder × S
    → List ℕ
    → Option (ApStatus ⊎ (Decoder × S))
fed_with sink x bs = result (feed (some sink) x.0 (slice_of bs) x.1)

pub fed_with-machine :
    {S : Type 0} (sink : List ℕ → S → Bool × S) (x : Decoder × S) (bs : List ℕ)
    → Good x.0
    → fed_with sink x bs ≡ feed_blocks (machine sink) (suc (length bs)) x bs
unfolding feed
fed_with-machine sink (d, s) bs g =
    let sized : (d.expected_payload_size == 0) ≡ false = ground arith in
    rw (present bs, sized, take_all (length bs) bs (omega arith))
      (feed_loop-machine sink (suc (length bs)) d bs s)

is_some-result : {S : Type 0} (o : Option (Fed S)) → is_some (result o) ≡ is_some o
is_some-result none = refl
is_some-result (some r) = refl

-- A decoder in order, whose expected size is not 0 and fits 32 bits: one call ends within one round
-- more than there are bytes, and if it returns no error, the decoder is in order again (the buffer
-- of its state has room, and the archive's declared size fits its 4096 bytes).
pub feed_ends :
    {S : Type 0} (sink : List ℕ → S → Bool × S) (d : Decoder) (s : S) (bs : List ℕ)
    → Good d
    → (is_some (feed (some sink) d (slice_of bs) s) ≡ true)
      × ((d' : Decoder) (s' : S)
          → result (feed (some sink) d (slice_of bs) s) ≡ some (inr (d', s'))
          → Good d')
feed_ends sink d s bs g = (
  sym (is_some-result (feed (some sink) d (slice_of bs) s))
      ∙ ap is_some (fed_with-machine sink (d, s) bs g)
      ∙ feed_blocks_total (machine sink) GoodX (machine-IsPaced sink) (suc (length bs)) (d, s) bs g
          (omega arith),
  λ d' s' e.
      feed_blocks-keeps (machine sink) GoodX (machine-IsPaced sink) (suc (length bs)) (d, s)
        (d', s') bs g (sym (fed_with-machine sink (d, s) bs g) ∙ e),
)

-- A decoder in order, and a sink that does not mind in which pieces the bytes come: one call with
-- two parts has the same status, decoder and sink as a call with the first part and, unless that
-- fails, a call with the second. After an error only the status is compared.
pub feed-append :
    {S : Type 0} (sink : List ℕ → S → Bool × S) (x : Decoder × S) (xs ys : List ℕ)
    → IsStream sink
    → Good x.0
    → fed_with sink x (xs ++ ys) ≡ then_feed (fed_with sink x xs) (λ x'. fed_with sink x' ys)
feed-append sink x xs ys stream g =
    fed_with-machine sink x (xs ++ ys) g
    ∙ feed_blocks-append (machine sink) GoodX (machine-IsCuttable sink stream) (suc (length xs))
        (suc (length (xs ++ ys))) (suc (length ys)) x xs ys g (omega (arith, length-append xs ys))
        (omega arith) (omega arith)
    ∙ then_feed-cong (feed_blocks (machine sink) (suc (length xs)) x xs) _ _ (λ x' e. sym (
        fed_with-machine sink x' ys (
          feed_blocks-keeps (machine sink) GoodX (machine-IsPaced sink) (suc (length xs)) x x' xs g
            e)))
    ∙ ap (λ o. then_feed o (λ x'. fed_with sink x' ys)) (sym (fed_with-machine sink x xs g))
