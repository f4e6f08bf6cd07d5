-- ===== src/Sync/Text/Output.antt =====
-- `APPEND_BYTES` of firmware/components/revlink_sync: text written piece by piece into a buffer that has
-- a capacity.
use revlink_sidecar.Base.{
  ℕ, ◌+◌, ◌-◌, ◌≡◌, ◌≤◌, ◌<◌, refl, ap, sym, ltb, if◌then◌else◌, Bool, true, false, List, [], ◌∷◌,
  ◌++◌, length, length-append, append_assoc, append-nil, arith,
}

-- What is in the buffer, and where the buffer is too small the length that was asked for.
pub data Output : Type 0 where
  wrote : List ℕ → Output
  too_small : List ℕ → ℕ → Output
  refused : List ℕ → Output

unfoldable pub append_bytes : ℕ → List ℕ → List ℕ → Output
append_bytes capacity piece out =
    if ltb (capacity - length out) (length piece)
    then too_small out (length out + length piece)
    else wrote (out ++ piece)

abbrev pub then_write : Output → (List ℕ → Output) → Output
then_write (wrote out) next = next out
then_write (too_small out needed) next = too_small out needed
then_write (refused out) next = refused out

unfoldable pub append_pieces : ℕ → List (List ℕ) → List ℕ → Output
append_pieces capacity [] out = wrote out
append_pieces capacity (piece ∷ pieces) out =
    then_write (append_bytes capacity piece out) (append_pieces capacity pieces)

abbrev pub joined : List (List ℕ) → List ℕ
joined [] = []
joined (piece ∷ pieces) = piece ++ joined pieces

abbrev pub IsTooSmall : ℕ → Output → Type 0
IsTooSmall capacity (wrote out) = ⊥
IsTooSmall capacity (too_small out needed) = (length out ≤ capacity) × (capacity < needed)
IsTooSmall capacity (refused out) = ⊥

-- The pieces are written where they fit.
pub append_pieces-fits :
    (capacity : ℕ) (pieces : List (List ℕ)) (out : List ℕ)
    → length out + length (joined pieces) ≤ capacity
    → append_pieces capacity pieces out ≡ wrote (out ++ joined pieces)
unfolding append_pieces append_bytes
append_pieces-fits capacity [] out h = ap wrote (sym (append-nil out))
append_pieces-fits capacity (piece ∷ pieces) out h =
    let l = length-append piece (joined pieces) in
    let k = length-append out piece in
    let ih = append_pieces-fits capacity pieces (out ++ piece) (omega arith) in
    let e = append_assoc out piece (joined pieces) in grind arith

pub append_pieces-IsTooSmall :
    (capacity : ℕ) (pieces : List (List ℕ)) (out : List ℕ)
    → length out ≤ capacity
    → capacity < length out + length (joined pieces)
    → IsTooSmall capacity (append_pieces capacity pieces out)
unfolding append_pieces append_bytes
append_pieces-IsTooSmall capacity [] out h p = absurd (omega arith)
append_pieces-IsTooSmall capacity (piece ∷ pieces) out h p =
    let l = length-append piece (joined pieces) in
    let k = length-append out piece in
    let ih = append_pieces-IsTooSmall capacity pieces (out ++ piece) in
    go (ltb (capacity - length out) (length piece)) (ground arith)
      (λ q. ih (ground arith) (ground arith))
  where
    go :
        (b : Bool)
        → (b ≡ true → capacity < length out + length piece)
        → (b ≡ false → IsTooSmall capacity (append_pieces capacity pieces (out ++ piece)))
        → IsTooSmall capacity (
            then_write
              (if b then too_small out (length out + length piece) else wrote (out ++ piece))
              (append_pieces capacity pieces))
    go true f g = (h, f refl)
    go false f g = g refl
