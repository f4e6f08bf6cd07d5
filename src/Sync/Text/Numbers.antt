-- ===== src/Sync/Text/Numbers.antt =====
-- Decimal numbers of firmware/components/revlink_sync: what is printed is parsed back.
use revlink_sidecar.Base.{
  ℕ, zero, suc, ◌+◌, ◌/◌, ◌%◌, ◌^◌, ◌≡◌, ◌≤◌, ◌<◌, refl, ap, ◌∙◌, sym, ◌⊎◌, inl, inr, subst,
  length-append, Option, none, some, ◌>>=◌, List, [], ◌∷◌, ◌++◌, length, All, All-append, arith,
  uint32_max, uint64_max,
}
use revlink_sidecar.Sync.Text.{append_digit, parse_digits, parse_number, decimal_in, decimal}

-- No control characters: neither a tab, nor a newline, nor a NUL.
abbrev pub IsPlain : List ℕ → Type 0
IsPlain = All (λ (b : ℕ). 32 ≤ b)

pub parse_digits-append :
    (max n : ℕ) (xs ys : List ℕ)
    → parse_digits max n (xs ++ ys) ≡ parse_digits max n xs >>= (λ m. parse_digits max m ys)
unfolding parse_digits
parse_digits-append max n [] ys = refl
parse_digits-append max n (x ∷ xs) ys =
    go (append_digit max n x) (λ m. parse_digits-append max m xs ys)
  where
    go :
        (o : Option ℕ)
        → ((m : ℕ)
            → parse_digits max m (xs ++ ys)
              ≡ parse_digits max m xs >>= (λ k. parse_digits max k ys))
        → o >>= (λ m. parse_digits max m (xs ++ ys))
          ≡ (o >>= (λ m. parse_digits max m xs)) >>= (λ m. parse_digits max m ys)
    go none rest = refl
    go (some m) rest = rest m

append_digit_lem : (max n : ℕ) → n ≤ max → append_digit max (n / 10) (b'0' + n % 10) ≡ some n
append_digit_lem max n h = ground arith

decimal_in-suc :
    (digits n : ℕ)
    → (n < 10) × (decimal_in (suc digits) n ≡ (b'0' + n) ∷ [])
      ⊎ (10 ≤ n) × (decimal_in (suc digits) n ≡ decimal_in digits (n / 10) ++ (b'0' + n % 10) ∷ [])
unfolding decimal_in
decimal_in-suc digits n = ground arith

pub parse_digits-decimal_in :
    (digits max n : ℕ)
    → n ≤ max
    → n < 10 ^ digits
    → parse_digits max 0 (decimal_in digits n) ≡ some n
unfolding parse_digits decimal_in
parse_digits-decimal_in zero max n h p = ap some (omega arith)
parse_digits-decimal_in (suc digits) max n h p =
    let ih = parse_digits-decimal_in digits max (n / 10) (omega arith) (omega arith) in
    let split = parse_digits-append max 0 (decimal_in digits (n / 10)) ((b'0' + n % 10) ∷ []) in
    let last = append_digit_lem max n h in
    elim (decimal_in-suc digits n) [
      | inl (q, e) ↦ subst (λ text. parse_digits max 0 text ≡ some n) (sym e) (grind arith)
      | inr (q, e) ↦
          subst (λ text. parse_digits max 0 text ≡ some n) (sym e)
            ((split
              ∙ ap (λ o. o >>= (λ m. parse_digits max m ((b'0' + n % 10) ∷ []))) ih
              ∙ ap (λ o. o >>= (λ m. some m)) last))
    ]

length-decimal_in : (digits m n : ℕ) → 0 < m → n < 10 ^ m → length (decimal_in digits n) ≤ m
unfolding decimal_in
length-decimal_in zero m n p h = omega arith
length-decimal_in (suc digits) zero n p h = absurd (omega arith)
length-decimal_in (suc digits) (suc zero) n p h = elim (decimal_in-suc digits n) [
  | inl (q, w) ↦ subst (λ text. length text ≤ 1) (sym w) (omega arith)
  | inr (q, w) ↦ absurd (omega arith)
]
length-decimal_in (suc digits) (suc (suc m)) n p h =
    let ih = length-decimal_in digits (suc m) (n / 10) (omega arith) (omega arith) in
    let e = length-append (decimal_in digits (n / 10)) ((b'0' + n % 10) ∷ []) in
    elim (decimal_in-suc digits n) [
      | inl (q, w) ↦ subst (λ text. length text ≤ suc (suc m)) (sym w) (omega arith)
      | inr (q, w) ↦ subst (λ text. length text ≤ suc (suc m)) (sym w) (omega arith)
    ]

decimal_in-IsPlain : (digits n : ℕ) → IsPlain (decimal_in digits n)
unfolding decimal_in
decimal_in-IsPlain zero n = tt
decimal_in-IsPlain (suc digits) n = elim (decimal_in-suc digits n) [
  | inl (q, e) ↦ subst IsPlain (sym e) (omega arith, tt)
  | inr (q, e) ↦ subst IsPlain (sym e) (
      All-append (λ b. 32 ≤ b) (decimal_in digits (n / 10)) _ (decimal_in-IsPlain digits (n / 10))
        (omega arith, tt))
]

decimal_in_ne_nil : (digits n : ℕ) → 0 < length (decimal_in (suc digits) n)
decimal_in_ne_nil digits n =
    let e = length-append (decimal_in digits (n / 10)) ((b'0' + n % 10) ∷ []) in
    elim (decimal_in-suc digits n) [
      | inl (q, w) ↦ subst (λ text. 0 < length text) (sym w) (omega arith)
      | inr (q, w) ↦ subst (λ text. 0 < length text) (sym w) (omega arith)
    ]

pub decimal-IsPlain : (n : ℕ) → IsPlain (decimal n)
decimal-IsPlain n = decimal_in-IsPlain 20 n

pub decimal_ne_nil : (n : ℕ) → 0 < length (decimal n)
decimal_ne_nil n = decimal_in_ne_nil 19 n

pub length-decimal : (m n : ℕ) → 0 < m → n < 10 ^ m → length (decimal n) ≤ m
length-decimal m n p h = length-decimal_in 20 m n p h

-- A number of so many digits is printed and parsed back.
pub parse_number-decimal :
    (digits max n : ℕ)
    → n ≤ max
    → n < 10 ^ digits
    → n < 10 ^ 20
    → 0 < digits
    → parse_number digits max (decimal n) ≡ some n
unfolding parse_number
parse_number-decimal digits max n h p q r =
    let long = decimal_ne_nil n in
    let short = length-decimal digits n r p in
    let read = parse_digits-decimal_in 20 max n h q in grind arith

pub parse_u32-decimal : (n : ℕ) → n ≤ uint32_max → parse_number 10 uint32_max (decimal n) ≡ some n
parse_u32-decimal n h =
    parse_number-decimal 10 uint32_max n h (omega arith) (omega arith) (omega arith)

pub parse_u64-decimal : (n : ℕ) → n ≤ uint64_max → parse_number 20 uint64_max (decimal n) ≡ some n
parse_u64-decimal n h =
    parse_number-decimal 20 uint64_max n h (omega arith) (omega arith) (omega arith)

digit_le : (max n b k : ℕ) → 9 ≤ max → append_digit max n b ≡ some k → k ≤ max
digit_le max n b k w h = ground arith

parse_digits_le :
    (max n : ℕ) (text : List ℕ) (k : ℕ)
    → 9 ≤ max
    → n ≤ max
    → parse_digits max n text ≡ some k
    → k ≤ max
unfolding parse_digits
parse_digits_le max n [] k w h p = ground arith
parse_digits_le max n (b ∷ bs) k w h p =
    go (append_digit max n b) refl (λ m q r. parse_digits_le max m bs k w q r) p
  where
    go :
        (o : Option ℕ)
        → append_digit max n b ≡ o
        → ((m : ℕ) → m ≤ max → parse_digits max m bs ≡ some k → k ≤ max)
        → o >>= (λ m. parse_digits max m bs) ≡ some k
        → k ≤ max
    go none e rest q = ground arith
    go (some m) e rest q = rest m (digit_le max n b m w e) q

-- A number that is parsed is within the bound.
pub parse_number_le :
    (digits max : ℕ) (text : List ℕ) (n : ℕ)
    → 9 ≤ max
    → parse_number digits max text ≡ some n
    → n ≤ max
unfolding parse_number
parse_number_le digits max text n w h = ground (arith, parse_digits_le max 0 text n)
