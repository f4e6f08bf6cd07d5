-- ===== src/Sync/Text/Writing.antt =====
-- A list of records written one after the other into a buffer, each as the same pieces in a row.
use revlink_sidecar.Base.{
  ℕ, ◌+◌, ◌≡◌, ◌≤◌, ◌<◌, ap, sym, ◌∙◌, subst, ltb, ltb→lt, Bool-cases, inl, inr, List, [], ◌∷◌,
  ◌++◌, append_assoc, append-nil, length, length-append, All, arith,
}
use revlink_sidecar.Sync.Text.Output.{
  Output, wrote, too_small, refused, append_pieces, then_write, joined, IsTooSmall,
  append_pieces-fits, append_pieces-IsTooSmall,
}

unfoldable pub write_all {ℓ} : {A : Type ℓ} → (A → List ℕ → Output) → List A → List ℕ → Output
write_all write [] out = wrote out
write_all write (x ∷ xs) out = then_write (write x out) (write_all write xs)

abbrev pub pieces_text {ℓ} : {A : Type ℓ} → (A → List (List ℕ)) → List A → List ℕ
pieces_text pieces [] = []
pieces_text pieces (x ∷ xs) = joined (pieces x) ++ pieces_text pieces xs

pub then_write-IsTooSmall :
    (capacity : ℕ) (o : Output) (next : List ℕ → Output)
    → IsTooSmall capacity o
    → IsTooSmall capacity (then_write o next)
then_write-IsTooSmall capacity (wrote out) next h = absurd h
then_write-IsTooSmall capacity (too_small out needed) next h = h
then_write-IsTooSmall capacity (refused out) next h = absurd h

module _ {ℓ κ} {A : Type ℓ} (write : A → List ℕ → Output) (pieces : A → List (List ℕ))
    (IsGood : A → Type κ) (capacity : ℕ)
    (writes : (x : A) (out : List ℕ)
      → IsGood x
      → write x out ≡ append_pieces capacity (pieces x) out) where
  write_all-first :
      (x : A) (xs : List A) (out : List ℕ)
      → IsGood x
      → length out + length (joined (pieces x)) ≤ capacity
      → write_all write (x ∷ xs) out ≡ write_all write xs (out ++ joined (pieces x))
  unfolding write_all
  write_all-first x xs out v h =
      ap (λ r. then_write r (write_all write xs))
        (writes x out v ∙ append_pieces-fits capacity (pieces x) out h)

  pub write_all-fits :
      (xs : List A) (out : List ℕ)
      → All IsGood xs
      → length out + length (pieces_text pieces xs) ≤ capacity
      → write_all write xs out ≡ wrote (out ++ pieces_text pieces xs)
  unfolding write_all
  write_all-fits [] out v h = ap wrote (sym (append-nil out))
  write_all-fits (x ∷ xs) out v h =
      let whole = length-append (joined (pieces x)) (pieces_text pieces xs) in
      let l = length-append out (joined (pieces x)) in
      write_all-first x xs out v.0 (omega arith)
      ∙ write_all-fits xs (out ++ joined (pieces x)) v.1 (omega arith)
      ∙ ap wrote (append_assoc out (joined (pieces x)) (pieces_text pieces xs))

  pub write_all-IsTooSmall :
      (xs : List A) (out : List ℕ)
      → All IsGood xs
      → length out ≤ capacity
      → capacity < length out + length (pieces_text pieces xs)
      → IsTooSmall capacity (write_all write xs out)
  unfolding write_all
  write_all-IsTooSmall [] out v p h = absurd (omega arith)
  write_all-IsTooSmall (x ∷ xs) out v p h =
      let whole = length-append (joined (pieces x)) (pieces_text pieces xs) in
      let l = length-append out (joined (pieces x)) in
      elim (Bool-cases (ltb capacity (length out + length (joined (pieces x))))) [
        | inl long ↦ then_write-IsTooSmall capacity (write x out) (write_all write xs) (
            subst (IsTooSmall capacity) (sym (writes x out v.0))
              (append_pieces-IsTooSmall capacity (pieces x) out p (ltb→lt _ _ long)))
        | inr short ↦
            subst (IsTooSmall capacity) (sym (write_all-first x xs out v.0 (ground arith)))
              (write_all-IsTooSmall xs (out ++ joined (pieces x)) v.1 (ground arith) (omega arith))
      ]
