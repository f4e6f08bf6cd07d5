-- ===== src/Base/Buffers.antt =====
-- Byte buffers as lists: `memcpy` into and out of a buffer at an offset.
use Prim.Native.Nat.{ℕ, zero, suc, ◌+◌, ◌-◌, ◌≤◌}
use mathlib.Core.Path.{◌≡◌, refl, ap, ◌∙◌}
use mathlib.Core.List.{List, [], ◌∷◌, ◌++◌}
use native.Mathlib.Omega.{arith}
use revlink_sidecar.Base.Lists.{length, All, take, drop, replicate}

-- The `n` bytes from offset `o` on; fewer where the buffer ends first.
unfoldable pub read_at : ℕ → ℕ → List ℕ → List ℕ
read_at zero zero buf = []
read_at zero (suc n) [] = []
read_at zero (suc n) (x ∷ buf) = x ∷ read_at zero n buf
read_at (suc o) n [] = []
read_at (suc o) n (x ∷ buf) = read_at o n buf

-- Copy bytes over the buffer at offset `o`; what does not fit is not written.
unfoldable pub write_at : ℕ → List ℕ → List ℕ → List ℕ
write_at zero [] buf = buf
write_at zero (b ∷ bs) [] = []
write_at zero (b ∷ bs) (x ∷ buf) = b ∷ write_at zero bs buf
write_at (suc o) bs [] = []
write_at (suc o) bs (x ∷ buf) = x ∷ write_at o bs buf

pub length-read_at : (o n : ℕ) (buf : List ℕ) → o + n ≤ length buf → length (read_at o n buf) ≡ n
unfolding read_at
length-read_at zero zero buf h = refl
length-read_at zero (suc n) [] h = absurd (omega arith)
length-read_at zero (suc n) (x ∷ buf) h = ap suc (length-read_at zero n buf (omega arith))
length-read_at (suc o) n [] h = absurd (omega arith)
length-read_at (suc o) n (x ∷ buf) h = length-read_at o n buf (omega arith)

-- What holds of all bytes of a buffer holds of those that are read from it.
pub read_at-All : (P : ℕ → Type 0) (o n : ℕ) (buf : List ℕ) → All P buf → All P (read_at o n buf)
unfolding read_at
read_at-All P zero zero buf h = tt
read_at-All P zero (suc n) [] h = tt
read_at-All P zero (suc n) (x ∷ buf) h = (h.0, read_at-All P zero n buf h.1)
read_at-All P (suc o) n [] h = tt
read_at-All P (suc o) n (x ∷ buf) h = read_at-All P o n buf h.1

pub length-write_at : (o : ℕ) (bs buf : List ℕ) → length (write_at o bs buf) ≡ length buf
unfolding write_at
length-write_at zero [] buf = refl
length-write_at zero (b ∷ bs) [] = refl
length-write_at zero (b ∷ bs) (x ∷ buf) = ap suc (length-write_at zero bs buf)
length-write_at (suc o) bs [] = refl
length-write_at (suc o) bs (x ∷ buf) = ap suc (length-write_at o bs buf)

-- What was written is read back.
pub read_at-write_at_self :
    (o : ℕ) (bs buf : List ℕ)
    → o + length bs ≤ length buf
    → read_at o (length bs) (write_at o bs buf) ≡ bs
unfolding read_at write_at
read_at-write_at_self zero [] buf h = refl
read_at-write_at_self zero (b ∷ bs) [] h = absurd (omega arith)
read_at-write_at_self zero (b ∷ bs) (x ∷ buf) h =
    ap (λ r. b ∷ r) (read_at-write_at_self zero bs buf (omega arith))
read_at-write_at_self (suc o) bs [] h = absurd (omega arith)
read_at-write_at_self (suc o) bs (x ∷ buf) h = read_at-write_at_self o bs buf (omega arith)

-- A write past a range leaves what is read from the range.
pub read_at-write_at_after :
    (o n p : ℕ) (bs buf : List ℕ) → o + n ≤ p → read_at o n (write_at p bs buf) ≡ read_at o n buf
unfolding read_at write_at
read_at-write_at_after zero zero p bs buf h = refl
read_at-write_at_after zero (suc n) zero bs buf h = absurd (omega arith)
read_at-write_at_after zero (suc n) (suc p) bs [] h = refl
read_at-write_at_after zero (suc n) (suc p) bs (x ∷ buf) h =
    ap (λ r. x ∷ r) (read_at-write_at_after zero n p bs buf (omega arith))
read_at-write_at_after (suc o) n zero bs buf h = absurd (omega arith)
read_at-write_at_after (suc o) n (suc p) bs [] h = refl
read_at-write_at_after (suc o) n (suc p) bs (x ∷ buf) h =
    read_at-write_at_after o n p bs buf (omega arith)

-- A write before a range leaves what is read from the range.
pub read_at-write_at_before :
    (o n p : ℕ) (bs buf : List ℕ)
    → p + length bs ≤ o
    → read_at o n (write_at p bs buf) ≡ read_at o n buf
unfolding read_at write_at
read_at-write_at_before o n zero [] buf h = refl
read_at-write_at_before zero n zero (b ∷ bs) buf h = absurd (omega arith)
read_at-write_at_before (suc o) n zero (b ∷ bs) [] h = refl
read_at-write_at_before (suc o) n zero (b ∷ bs) (x ∷ buf) h =
    read_at-write_at_before o n zero bs buf (omega arith)
read_at-write_at_before zero n (suc p) bs buf h = absurd (omega arith)
read_at-write_at_before (suc o) n (suc p) bs [] h = refl
read_at-write_at_before (suc o) n (suc p) bs (x ∷ buf) h =
    read_at-write_at_before o n p bs buf (omega arith)

-- A shorter write over a longer one at the same place.
pub write_at-write_at :
    (o : ℕ) (bs cs buf : List ℕ)
    → length bs ≤ length cs
    → write_at o bs (write_at o cs buf) ≡ write_at o (bs ++ drop (length bs) cs) buf
unfolding write_at
write_at-write_at zero [] cs buf h = refl
write_at-write_at zero (b ∷ bs) [] buf h = absurd (omega arith)
write_at-write_at zero (b ∷ bs) (c ∷ cs) [] h = refl
write_at-write_at zero (b ∷ bs) (c ∷ cs) (x ∷ buf) h =
    ap (λ r. b ∷ r) (write_at-write_at zero bs cs buf (omega arith))
write_at-write_at (suc o) bs cs [] h = refl
write_at-write_at (suc o) bs cs (x ∷ buf) h = ap (λ r. x ∷ r) (write_at-write_at o bs cs buf h)

pub drop-replicate : (m n : ℕ) (a : ℕ) → drop m (replicate n a) ≡ replicate (n - m) a
drop-replicate zero n a = let e : n ≡ n - 0 = omega arith in ap (λ k. replicate k a) e
drop-replicate (suc m) zero a = let e : 0 ≡ 0 - suc m = omega arith in ap (λ k. replicate k a) e
drop-replicate (suc m) (suc n) a =
    let e : n - m ≡ suc n - suc m = omega arith in drop-replicate m n a ∙ ap (λ k. replicate k a) e

-- Bytes copied to the start of a zeroed field.
pub write_at-replicate :
    (bs : List ℕ) (n : ℕ)
    → length bs ≤ n
    → write_at 0 bs (replicate n 0) ≡ bs ++ replicate (n - length bs) 0
unfolding write_at
write_at-replicate [] n h = let e : n ≡ n - 0 = omega arith in ap (λ k. replicate k 0) e
write_at-replicate (b ∷ bs) zero h = absurd (omega arith)
write_at-replicate (b ∷ bs) (suc n) h =
    let e : n - length bs ≡ suc n - suc (length bs) = omega arith in
    ap (λ r. b ∷ r) (write_at-replicate bs n (omega arith) ∙ ap (λ k. bs ++ replicate k 0) e)

-- A shorter read is the start of a longer one.
pub read_at-take : (o m n : ℕ) (buf : List ℕ) → m ≤ n → read_at o m buf ≡ take m (read_at o n buf)
unfolding read_at
read_at-take zero zero n buf h = refl
read_at-take zero (suc m) zero buf h = absurd (omega arith)
read_at-take zero (suc m) (suc n) [] h = refl
read_at-take zero (suc m) (suc n) (x ∷ buf) h =
    ap (λ r. x ∷ r) (read_at-take zero m n buf (omega arith))
read_at-take (suc o) zero n [] h = refl
read_at-take (suc o) (suc m) n [] h = take_nil
  where
    take_nil : [] ≡ take (suc m) (read_at (suc o) n [])
    take_nil = refl
read_at-take (suc o) m n (x ∷ buf) h = read_at-take o m n buf h

-- Writing a byte that stands there already.
pub write_at-append_self :
    (xs : List ℕ) (b : ℕ) (rest : List ℕ)
    → write_at (length xs) (b ∷ []) (xs ++ b ∷ rest) ≡ xs ++ b ∷ rest
unfolding write_at
write_at-append_self [] b rest = refl
write_at-append_self (x ∷ xs) b rest = ap (λ r. x ∷ r) (write_at-append_self xs b rest)

pub write_at-zero :
    (bs xs : List ℕ) → length bs ≤ length xs → write_at 0 bs xs ≡ bs ++ drop (length bs) xs
unfolding write_at
write_at-zero [] xs h = refl
write_at-zero (b ∷ bs) [] h = absurd (omega arith)
write_at-zero (b ∷ bs) (x ∷ xs) h = ap (λ r. b ∷ r) (write_at-zero bs xs (omega arith))

-- Bytes written behind a part of the buffer take the place of as many behind it.
pub write_at-append :
    (xs bs ys : List ℕ)
    → length bs ≤ length ys
    → write_at (length xs) bs (xs ++ ys) ≡ (xs ++ bs) ++ drop (length bs) ys
unfolding write_at
write_at-append [] bs ys h = write_at-zero bs ys h
write_at-append (x ∷ xs) bs ys h = ap (λ r. x ∷ r) (write_at-append xs bs ys h)

pub write_at-All :
    (P : ℕ → Type 0) (o : ℕ) (bs buf : List ℕ) → All P bs → All P buf → All P (write_at o bs buf)
unfolding write_at
write_at-All P zero [] buf h k = k
write_at-All P zero (b ∷ bs) [] h k = tt
write_at-All P zero (b ∷ bs) (x ∷ buf) h k = (h.0, write_at-All P zero bs buf h.1 k.1)
write_at-All P (suc o) bs [] h k = tt
write_at-All P (suc o) bs (x ∷ buf) h k = (k.0, write_at-All P o bs buf h k.1)
