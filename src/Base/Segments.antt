-- ===== src/Base/Segments.antt =====
-- A record written into a buffer field by field: each field is read back from the finished buffer.
use Prim.Native.Nat.{ℕ, zero, suc, ◌+◌, ◌≤◌}
use mathlib.Core.Path.{◌≡◌, refl, ◌∙◌}
use mathlib.Core.Option.{Option, none, some}
use mathlib.Core.List.{List, [], ◌∷◌}
use native.Mathlib.Omega.{arith}
use revlink_sidecar.Base.Lists.{length, All}
use revlink_sidecar.Base.Buffers.{
  read_at, write_at, length-write_at, write_at-All, read_at-write_at_self, read_at-write_at_after,
}

-- An offset and the bytes that stand there.
abbrev pub Segment : Type 0
Segment = ℕ × List ℕ

abbrev pub write_all : List Segment → List ℕ → List ℕ
write_all [] buf = buf
write_all ((o, bs) ∷ segments) buf = write_all segments (write_at o bs buf)

-- The segments stand in order from offset `o` on, do not overlap, and end by offset `e`.
abbrev pub IsLaidOut : ℕ → ℕ → List Segment → Type 0
IsLaidOut o e [] = o ≤ e
IsLaidOut o e ((p, bs) ∷ segments) = (o ≤ p) × IsLaidOut (p + length bs) e segments

abbrev pub segment_at? : List Segment → ℕ → Option Segment
segment_at? [] k = none
segment_at? (s ∷ segments) zero = some s
segment_at? (s ∷ segments) (suc k) = segment_at? segments k

pub IsLaidOut-le : (o e : ℕ) (segments : List Segment) → IsLaidOut o e segments → o ≤ e
IsLaidOut-le o e [] h = h
IsLaidOut-le o e ((p, bs) ∷ segments) h = omega (arith, IsLaidOut-le (p + length bs) e segments h.1)

pub length-write_all :
    (segments : List Segment) (buf : List ℕ) → length (write_all segments buf) ≡ length buf
length-write_all [] buf = refl
length-write_all ((o, bs) ∷ segments) buf =
    length-write_all segments (write_at o bs buf) ∙ length-write_at o bs buf

pub write_all-All :
    (P : ℕ → Type 0) (segments : List Segment) (buf : List ℕ)
    → All (λ (s : Segment). All P s.1) segments
    → All P buf
    → All P (write_all segments buf)
write_all-All P [] buf h k = k
write_all-All P ((o, bs) ∷ segments) buf h k =
    write_all-All P segments (write_at o bs buf) h.1 (write_at-All P o bs buf h.0 k)

-- Segments past a range leave what is read from the range.
pub read_at-write_all_after :
    (o n q e : ℕ) (segments : List Segment) (buf : List ℕ)
    → o + n ≤ q
    → IsLaidOut q e segments
    → read_at o n (write_all segments buf) ≡ read_at o n buf
read_at-write_all_after o n q e [] buf h l = refl
read_at-write_all_after o n q e ((p, bs) ∷ segments) buf h l =
    read_at-write_all_after o n (p + length bs) e segments (write_at p bs buf) (omega arith) l.1
    ∙ read_at-write_at_after o n p bs buf (omega arith)

-- Every segment is read back.
pub read_at-write_all :
    (k q e : ℕ) (segments : List Segment) (buf : List ℕ) {o : ℕ} {bs : List ℕ}
    → IsLaidOut q e segments
    → e ≤ length buf
    → segment_at? segments k ≡ some (o, bs)
    → read_at o (length bs) (write_all segments buf) ≡ bs
read_at-write_all k q e [] buf l fits h = cc
read_at-write_all zero q e ((p, cs) ∷ segments) buf {o} {bs} l fits h =
    let written : read_at p (length cs) (write_all segments (write_at p cs buf)) ≡ cs =
      read_at-write_all_after p (length cs) (p + length cs) e segments (write_at p cs buf)
        (omega arith) l.1
      ∙ read_at-write_at_self p cs buf
          (omega (arith, IsLaidOut-le (p + length cs) e segments l.1)) in
    ground (arith, written)
read_at-write_all (suc k) q e ((p, cs) ∷ segments) buf l fits h =
    read_at-write_all k (p + length cs) e segments (write_at p cs buf) l.1
      (omega (arith, length-write_at p cs buf)) h
