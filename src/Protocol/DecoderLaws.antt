-- ===== src/Protocol/DecoderLaws.antt =====
-- The feeding of the decoder of firmware/components/accessport_protocol: it ends, keeps its bounds, and does
-- not depend on how the transfer was split.
use revlink_sidecar.Base.{
  ℕ, zero, suc, ◌+◌, ◌-◌, ◌≡◌, ◌<◌, refl, ap, ap₂, sym, ◌∙◌, min, Bool, true, false, ◌⊎◌, inl, inr,
  Option, none, some, List, [], ◌∷◌, length, length-append, take, drop, arith, then_go, feed_blocks,
  IsPaced, IsCuttable,
}
use revlink_sidecar.Protocol.{ApStatus, ok}
use revlink_sidecar.Protocol.Decoder.{
  Decoder, DecoderState, in_archive, in_chunk_header, in_payload, in_trailer, completed, count_of,
  absorb, Fed, go_on, feed_loop,
}
use revlink_sidecar.Protocol.DecoderGood.{
  outcome, machine, GoodIn, IsSized, Good, room, is_completed, count_of-room,
}
use revlink_sidecar.Protocol.DecoderKeeps.{absorb-Good}
use revlink_sidecar.Protocol.DecoderParts.{IsStream, with_part}
use revlink_sidecar.Protocol.DecoderCut.{absorb-cut, absorb-left}

abbrev pub GoodX : {S : Type 0} → Decoder × S → Type 0
GoodX x = Good x.0

count_of_lem :
    (st : DecoderState) (d : Decoder) (n : ℕ)
    → IsSized d
    → GoodIn st d
    → (is_completed st ≡ true) × (count_of st d n ≡ n)
      ⊎ (is_completed st ≡ false) × ((count_of st d n ≡ min (room st d) n) × (0 < room st d))
count_of_lem completed d n s g = inl (refl, refl)
count_of_lem in_archive d n s g = inr (refl, count_of-room in_archive d n s g refl)
count_of_lem in_chunk_header d n s g = inr (refl, count_of-room in_chunk_header d n s g refl)
count_of_lem in_payload d n s g = inr (refl, count_of-room in_payload d n s g refl)
count_of_lem in_trailer d n s g = inr (refl, count_of-room in_trailer d n s g refl)

outcome_ok : {S : Type 0} (r : Fed S) (x' : Decoder × S) → outcome r ≡ inr x' → r ≡ (ok, x')
outcome_ok (st, x) x' e = grind arith

pub machine-IsPaced :
    {S : Type 0} (sink : List ℕ → S → Bool × S)
    → IsPaced ApStatus (Decoder × S) (machine sink) GoodX
machine-IsPaced sink = record {
  takes = λ x n g h. elim (count_of_lem x.0.state x.0 n g.0 g.1) [
    | inl c ↦ omega arith
    | inr c ↦ omega arith
  ];
  available = λ x n g. elim (count_of_lem x.0.state x.0 n g.0 g.1) [
    | inl c ↦ omega arith
    | inr c ↦ omega arith
  ];
  full = λ x a b g h. elim (count_of_lem x.0.state x.0 a g.0 g.1) [
    | inl c ↦ grind (arith, count_of_lem x.0.state x.0 (a + b) g.0 g.1)
    | inr c ↦ grind (arith, count_of_lem x.0.state x.0 (a + b) g.0 g.1)
  ];
  part = λ x a b g h. elim (count_of_lem x.0.state x.0 a g.0 g.1) [
    | inl c ↦ c.1
    | inr c ↦ grind (arith, count_of_lem x.0.state x.0 (a + b) g.0 g.1)
  ];
  keeps = λ x x' bs g h e.
      absorb-Good sink x.0.state x.0 x'.0 x.1 x'.1 bs refl g.0 g.1
        (λ f. grind (arith, count_of_lem x.0.state x.0 (length bs) g.0 g.1))
        (outcome_ok (absorb sink x.0.state x.0 bs x.1) x' e);
}

with_part-state :
    (st : DecoderState) (d : Decoder) (xs : List ℕ) → (with_part st d xs).state ≡ d.state
with_part-state in_archive d xs = refl
with_part-state in_chunk_header d xs = refl
with_part-state in_payload d xs = refl
with_part-state in_trailer d xs = refl
with_part-state completed d xs = refl

-- A state with a part of its block has so much less to take, and is as good.
with_part-room :
    (st : DecoderState) (d : Decoder) (xs : List ℕ)
    → GoodIn st d
    → is_completed st ≡ false
    → length xs < room st d
    → GoodIn st (with_part st d xs) × (room st (with_part st d xs) ≡ room st d - length xs)
with_part-room in_archive d xs g c h =
    let size = length-append d.archive xs in ((omega arith, g.1), omega arith)
with_part-room in_chunk_header d xs g c h =
    let size = length-append d.chunk_header xs in ((omega arith, g.1), omega arith)
with_part-room in_payload d xs g c h = ((omega arith, g.1), omega arith)
with_part-room in_trailer d xs g c h =
    let size = length-append d.trailer xs in (omega arith, omega arith)
with_part-room completed d xs g c h = cc

with_part-IsSized :
    (st : DecoderState) (d : Decoder) (xs : List ℕ) → IsSized d → IsSized (with_part st d xs)
with_part-IsSized in_archive d xs s = s
with_part-IsSized in_chunk_header d xs s = s
with_part-IsSized in_payload d xs s = s
with_part-IsSized in_trailer d xs s = s
with_part-IsSized completed d xs s = s

completed_takes :
    (st : DecoderState) (d : Decoder) (n : ℕ) → is_completed st ≡ true → count_of st d n ≡ n
completed_takes completed d n h = refl
completed_takes in_archive d n h = absurd (cc h)
completed_takes in_chunk_header d n h = absurd (cc h)
completed_takes in_payload d n h = absurd (cc h)
completed_takes in_trailer d n h = absurd (cc h)

-- More than `a` bytes are taken only where there is room for them.
more_taken :
    (st : DecoderState) (d : Decoder) (n a : ℕ)
    → IsSized d
    → GoodIn st d
    → a < count_of st d n
    → is_completed st ≡ false
    → a < room st d
more_taken st d n a s g h f = let (e, p) = count_of-room st d n s g f in omega arith

count_of-with_part :
    (st : DecoderState) (d : Decoder) (xs : List ℕ) (b : ℕ)
    → IsSized d
    → GoodIn st d
    → (is_completed st ≡ false → length xs < room st d)
    → count_of st d (length xs + b) ≡ length xs + count_of st (with_part st d xs) b
count_of-with_part st d xs b s g h = elim (count_of_lem st d (length xs + b) s g) [
  | inl c ↦ omega (arith, completed_takes st (with_part st d xs) b c.0)
  | inr c ↦
      let (g', less) = with_part-room st d xs g c.0 (h c.0) in
      let (e, p) = count_of-room st (with_part st d xs) b (with_part-IsSized st d xs s) g' c.0 in
      let fits = h c.0 in omega arith
]

pub machine-IsCuttable :
    {S : Type 0} (sink : List ℕ → S → Bool × S)
    → IsStream sink
    → IsCuttable ApStatus (Decoder × S) (machine sink) GoodX
machine-IsCuttable sink stream = record {
  paced = machine-IsPaced sink;
  left = λ x x' xs b g h e.
      let st = x.0.state in
      let room' = more_taken st x.0 (length xs + b) (length xs) g.0 g.1 h in
      let next : x'.0 ≡ with_part st x.0 xs = absorb-left sink st x.0 xs x.1 x' g.1 room' e in
      let state : x'.0.state ≡ st = ap (λ d. d.state) next ∙ with_part-state st x.0 xs in
      count_of-with_part st x.0 xs b g.0 g.1 room'
      ∙ ap₂ (λ k d. length xs + count_of k d b) (sym state) (sym next);
  cut = λ x xs ys g h p q.
      absorb-cut sink x.0.state x.0 xs ys x.1 stream refl g.1
        (more_taken x.0.state x.0 (length xs + length ys) (length xs) g.0 g.1 (omega arith)) p q;
}

-- The loop of the code is the machine's, where the decoder left by an error is forgotten.
abbrev pub result : {S : Type 0} → Option (Fed S) → Option (ApStatus ⊎ (Decoder × S))
result none = none
result (some r) = some (outcome r)

go_on-result :
    {S : Type 0} (r : Fed S) (f : Decoder → S → Option (Fed S))
    (g : Decoder × S → Option (ApStatus ⊎ (Decoder × S)))
    → ((d : Decoder) (s : S) → result (f d s) ≡ g (d, s))
    → result (go_on r f) ≡ then_go (outcome r) g
go_on-result (ok, (d, s)) f g h = h d s
go_on-result (st, (d, s)) f g h = grind arith

pub feed_loop-machine :
    {S : Type 0} (sink : List ℕ → S → Bool × S) (n : ℕ) (d : Decoder) (bs : List ℕ) (s : S)
    → result (feed_loop sink n d bs s) ≡ feed_blocks (machine sink) n (d, s) bs
unfolding feed_loop
feed_loop-machine sink zero d bs s = refl
feed_loop-machine sink (suc n) d [] s = refl
feed_loop-machine sink (suc n) d (b ∷ bs) s =
    let c = count_of d.state d (length (b ∷ bs)) in
    go_on-result (absorb sink d.state d (take c (b ∷ bs)) s) _ _
      (λ d' s'. feed_loop-machine sink n d' (drop c (b ∷ bs)) s')
