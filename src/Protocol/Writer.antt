-- ===== src/Protocol/Writer.antt =====
-- The `byte_writer_t` of firmware/components/accessport_protocol/revlink_accessport_protocol.c, and what a
-- sequence of writes leaves in the buffer.
use revlink_sidecar.Base.{
  ℕ, ◌+◌, ◌-◌, ◌≡◌, ◌≤◌, ap, ◌∙◌, ltb, if◌then◌else◌, Bool, true, false, ◌||◌, List, [], ◌∷◌, ◌++◌,
  append-nil, append_assoc, arith, length, take, drop, replicate, take_all, length-append,
  length-drop, length-replicate, write_at, write_at-append, drop-drop, le_bytes, length-le_bytes,
}
use revlink_sidecar.Protocol.{Slice, slice_of, bytes_of, is_missing, size_max}

-- `buffer` is the whole output, `cursor` the place in it.
pub record Writer : Type 0 where
  pub buffer : List ℕ
  pub cursor : ℕ
  pub remaining : ℕ

-- `false` is a write that does not fit.
abbrev pub Write : Type 0
Write = Writer → Bool × Writer

-- Copy `n` bytes to the cursor and move on.
unfoldable pub put : ℕ → List ℕ → Writer → Writer
put n bs w = record {
  buffer = write_at w.cursor bs w.buffer;
  cursor = w.cursor + n;
  remaining = w.remaining - n;
}

unfoldable pub writer_bytes : Slice → Write
writer_bytes s w =
    if ltb w.remaining s.len || is_missing s
    then (false, w)
    else if ltb 0 s.len
    then (true, put s.len (take s.len (bytes_of s.bytes)) w)
    else (true, w)

unfoldable pub writer_zeros : ℕ → Write
writer_zeros n w = if ltb w.remaining n then (false, w) else (true, put n (replicate n 0) w)

unfoldable pub writer_u32_le : ℕ → Write
writer_u32_le value w = if ltb w.remaining 4 then (false, w) else (true, put 4 (le_bytes value) w)

-- The length, then the bytes. A `uint32_t` holds any length of the 32-bit target.
unfoldable pub writer_lp : Slice → Write
writer_lp s w =
    if ltb size_max s.len || ltb w.remaining 4
    then (false, w)
    else writer_bytes s (put 4 (le_bytes s.len) w)

-- `!first(writer) || !second(writer)`: the second is not tried if the first fails.
infixr 20 ◌andthen◌
unfoldable pub ◌andthen◌ : Write → Write → Write
(f andthen g) w = let (done, w') = f w in if done then g w' else (false, w')

-- Behind `written`, before `rest`, with so many bytes left.
abbrev pub at : List ℕ → List ℕ → ℕ → Writer
at written rest left = record {
  buffer = written ++ rest;
  cursor = length written;
  remaining = left;
}

-- The write copies exactly these bytes where there is room for them.
abbrev pub Writes : Write → List ℕ → Type 0
Writes f bs =
    (written rest : List ℕ) (left : ℕ)
    → length bs ≤ left
    → left ≤ length rest
    → f (at written rest left)
      ≡ (true, at (written ++ bs) (drop (length bs) rest) (left - length bs))

put-Writes :
    (n : ℕ) (bs written rest : List ℕ) (left : ℕ)
    → length bs ≡ n
    → n ≤ left
    → left ≤ length rest
    → put n bs (at written rest left)
      ≡ at (written ++ bs) (drop (length bs) rest) (left - length bs)
unfolding put
put-Writes n bs written rest left e h room =
    let cursor : length written + n ≡ length (written ++ bs) =
      omega (arith, length-append written bs) in
    let fewer : left - n ≡ left - length bs = omega arith in
    λ i. record {
      buffer = write_at-append written bs rest (omega arith) i;
      cursor = cursor i;
      remaining = fewer i;
    }

pub writer_bytes-Writes : (bs : List ℕ) → Writes (writer_bytes (slice_of bs)) bs
unfolding writer_bytes
writer_bytes-Writes [] written rest left h room =
    let same : left ≡ left - 0 = omega arith in ground (arith, append-nil written)
writer_bytes-Writes (b ∷ bs) written rest left h room = ground (
  arith,
  take_all (length (b ∷ bs)) (b ∷ bs),
  put-Writes (length (b ∷ bs)) (b ∷ bs) written rest left,
)

pub writer_zeros-Writes : (n : ℕ) → Writes (writer_zeros n) (replicate n 0)
unfolding writer_zeros
writer_zeros-Writes n written rest left h room =
    ground (arith, length-replicate {A = ℕ} n 0, put-Writes n (replicate n 0) written rest left)

pub writer_u32_le-Writes : (v : ℕ) → Writes (writer_u32_le v) (le_bytes v)
unfolding writer_u32_le
writer_u32_le-Writes v written rest left h room =
    ground (arith, length-le_bytes v, put-Writes 4 (le_bytes v) written rest left)

-- Two writes one after the other, seen as one.
regroup :
    (written xs ys rest : List ℕ) (left : ℕ)
    → ◌≡◌ {A = Bool × Writer}
        (
          true,
          at
              ((written ++ xs) ++ ys)
              (drop (length ys) (drop (length xs) rest))
              (left - length xs - length ys),
        )
        (
          true,
          at (written ++ (xs ++ ys)) (drop (length (xs ++ ys)) rest) (left - length (xs ++ ys)),
        )
regroup written xs ys rest left =
    let fewer : left - length xs - length ys ≡ left - length (xs ++ ys) =
      omega (arith, length-append xs ys) in
    λ i. (true, at (append_assoc written xs ys i) (drop-drop xs ys rest i) (fewer i))

pub andthen-Writes :
    (f g : Write) (xs ys : List ℕ) → Writes f xs → Writes g ys → Writes (f andthen g) (xs ++ ys)
unfolding ◌andthen◌
andthen-Writes f g xs ys hf hg written rest left h room =
    rw (hf written rest left (omega (arith, length-append xs ys)) room) (
      hg (written ++ xs) (drop (length xs) rest) (left - length xs)
        (omega (arith, length-append xs ys)) (omega (arith, length-drop (length xs) rest))
      ∙ regroup written xs ys rest left)

pub writer_lp-Writes :
    (bs : List ℕ)
    → length bs ≤ size_max
    → Writes (writer_lp (slice_of bs)) (le_bytes (length bs) ++ bs)
unfolding writer_lp
writer_lp-Writes bs fits written rest left h room =
    first
    ∙ ap (writer_bytes (slice_of bs))
        (put-Writes 4 size written rest left (length-le_bytes _) (omega (arith, total)) room)
    ∙ writer_bytes-Writes bs (written ++ size) (drop (length size) rest) (left - length size)
        (omega (arith, total, length-le_bytes (length bs)))
        (omega (arith, length-drop (length size) rest, length-le_bytes (length bs)))
    ∙ regroup written size bs rest left
  where
    size : List ℕ
    size = le_bytes (length bs)

    total : length (size ++ bs) ≡ 4 + length bs
    total = omega (arith, length-append size bs, length-le_bytes (length bs))

    first :
        writer_lp (slice_of bs) (at written rest left)
        ≡ writer_bytes (slice_of bs) (put 4 size (at written rest left))
    first = ground (arith, total)
