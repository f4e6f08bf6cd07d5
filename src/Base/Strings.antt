-- ===== src/Base/Strings.antt =====
-- C strings in a bounded field: `strnlen`, the text before the NUL, and `memcmp` for equality.
use Prim.Native.Nat.{ℕ, zero, suc, ◌≤◌, ◌<◌}
use mathlib.Core.Path.{◌≡◌, refl, sym, ap, ◌∙◌}
use mathlib.Core.Bool.{Bool, true, false, ◌&&◌}
use mathlib.Core.Logic.{inl, inr}
use mathlib.Core.List.{List, [], ◌∷◌, ◌++◌}
use native.Mathlib.Omega.{arith}
use revlink_sidecar.Base.Tests.{◌==◌, if◌then◌else◌, Bool-cases}
use revlink_sidecar.Base.Lists.{length, take, drop, take_all, take-append-drop}

-- `strnlen`: the index of the first NUL, or the capacity if the field holds none. A list that ends
-- before the capacity counts as ended by a NUL.
unfoldable pub strnlen : List ℕ → ℕ → ℕ
strnlen xs zero = 0
strnlen [] (suc n) = 0
strnlen (x ∷ xs) (suc n) = if x == 0 then 0 else suc (strnlen xs n)

-- The text of a field: its bytes before the NUL.
abbrev pub text_of : List ℕ → ℕ → List ℕ
text_of xs n = take (strnlen xs n) xs

pub length-text_of_le : (xs : List ℕ) (n : ℕ) → length (text_of xs n) ≤ strnlen xs n
unfolding strnlen
length-text_of_le xs zero = omega arith
length-text_of_le [] (suc n) = omega arith
length-text_of_le (x ∷ xs) (suc n) = ground (arith, length-text_of_le xs n)

pub length-text_of :
    (xs : List ℕ) (n : ℕ) → strnlen xs n ≤ length xs → length (text_of xs n) ≡ strnlen xs n
unfolding strnlen
length-text_of xs zero h = refl
length-text_of [] (suc n) h = refl
length-text_of (x ∷ xs) (suc n) h = ground (arith, length-text_of xs n)

pub strnlen_le : (xs : List ℕ) (n : ℕ) → strnlen xs n ≤ n
unfolding strnlen
strnlen_le xs zero = omega arith
strnlen_le [] (suc n) = omega arith
strnlen_le (x ∷ xs) (suc n) = ground (arith, strnlen_le xs n)

pub strnlen-le-length : (xs : List ℕ) (n : ℕ) → strnlen xs n ≤ length xs
unfolding strnlen
strnlen-le-length xs zero = omega arith
strnlen-le-length [] (suc n) = omega arith
strnlen-le-length (x ∷ xs) (suc n) = ground (arith, strnlen-le-length xs n)

-- A text copied into a field and followed by a NUL has the length it had.
pub strnlen_terminated :
    (xs rest : List ℕ) (n : ℕ)
    → strnlen xs n < n
    → strnlen (text_of xs n ++ 0 ∷ rest) n ≡ strnlen xs n
unfolding strnlen
strnlen_terminated xs rest zero h = absurd (omega arith)
strnlen_terminated [] rest (suc n) h = refl
strnlen_terminated (x ∷ xs) rest (suc n) h = elim (Bool-cases (x == 0)) [
  | inl z ↦ rw (z, strnlen) refl
  | inr z ↦ ground (arith, strnlen_terminated xs rest n)
]

-- `memcmp(a, b, n) == 0`. A comparison that would read past the end of a list fails.
unfoldable pub mem_eq : ℕ → List ℕ → List ℕ → Bool
mem_eq zero a b = true
mem_eq (suc n) (x ∷ a) (y ∷ b) = x == y && mem_eq n a b
mem_eq (suc n) a b = false

pub mem_eq→take : (n : ℕ) (a b : List ℕ) → mem_eq n a b ≡ true → take n a ≡ take n b
unfolding mem_eq
mem_eq→take zero a b h = refl
mem_eq→take (suc n) [] [] h = refl
mem_eq→take (suc n) [] (y ∷ b) h = cc
mem_eq→take (suc n) (x ∷ a) [] h = cc
mem_eq→take (suc n) (x ∷ a) (y ∷ b) h = ground (arith, mem_eq→take n a b)

-- What begins with a prefix is the prefix and the rest.
pub mem_eq→prefix : (p xs : List ℕ) → mem_eq (length p) xs p ≡ true → xs ≡ p ++ drop (length p) xs
mem_eq→prefix p xs h =
    sym (take-append-drop (length p) xs)
    ∙ ap (λ t. t ++ drop (length p) xs)
        (mem_eq→take (length p) xs p h ∙ take_all (length p) p (omega arith))

pub take→mem_eq :
    (n : ℕ) (a b : List ℕ) → n ≤ length a → n ≤ length b → take n a ≡ take n b → mem_eq n a b ≡ true
unfolding mem_eq
take→mem_eq zero a b p q h = refl
take→mem_eq (suc n) [] b p q h = absurd (omega arith)
take→mem_eq (suc n) (x ∷ a) [] p q h = absurd (omega arith)
take→mem_eq (suc n) (x ∷ a) (y ∷ b) p q h = ground (arith, take→mem_eq n a b)
