-- ===== src/Sync/Text/Digests.antt =====
-- Digests of firmware/components/revlink_sync as hexadecimal text: what is printed is parsed back.
use revlink_sidecar.Base.{
  ℕ, zero, suc, ◌+◌, ◌*◌, ◌/◌, ◌%◌, ◌≡◌, ◌≤◌, ◌<◌, refl, ◌&&◌, leb, ◌==◌, Bool, ◌>>=◌, subst,
  Bool-cases, inl, inr, true, false, Option, none, some, List, [], ◌∷◌, length, get_or, All, arith,
}
use revlink_sidecar.Sync.Text.{hex_value, hex, print_hex, parse_pairs, parse_hex}
use revlink_sidecar.Sync.Text.Numbers.{IsPlain}

abbrev pub IsBytes : List ℕ → Type 0
IsBytes = All (λ (b : ℕ). b < 256)

-- A test of all the numbers below a bound.
unfoldable pub all_below : (ℕ → Bool) → ℕ → Bool
all_below f zero = true
all_below f (suc n) = f n && all_below f n

pub all_below→test : (f : ℕ → Bool) (n d : ℕ) → all_below f n ≡ true → d < n → f d ≡ true
unfolding all_below
all_below→test f zero d h p = absurd (omega arith)
all_below→test f (suc n) d h p = ground (arith, all_below→test f n d)

-- A digit's character is read back as the digit, and is not a control character.
is_digit_kept : ℕ → Bool
is_digit_kept d = elim (hex_value (get_or hex d 0)) [
  | none ↦ false
  | some value ↦ value == d && leb 32 (get_or hex d 0)
]

sixteen : all_below is_digit_kept 16 ≡ true
unfolding all_below is_digit_kept hex_value
sixteen = refl

digit_cases : (d : ℕ) → d < 16 → (hex_value (get_or hex d 0) ≡ some d) × (32 ≤ get_or hex d 0)
unfolding is_digit_kept
digit_cases d h = go (hex_value (get_or hex d 0)) (all_below→test is_digit_kept 16 d sixteen h)
  where
    go :
        (o : Option ℕ)
        → elim o [ none ↦ false | some value ↦ value == d && leb 32 (get_or hex d 0) ] ≡ true
        → (o ≡ some d) × (32 ≤ get_or hex d 0)
    go none q = ground arith
    go (some value) q = ground arith

pub length-print_hex : (bs : List ℕ) → length (print_hex bs) ≡ length bs * 2
unfolding print_hex
length-print_hex [] = refl
length-print_hex (b ∷ bs) = omega (arith, length-print_hex bs)

pub print_hex-IsPlain : (bs : List ℕ) → IsBytes bs → IsPlain (print_hex bs)
unfolding print_hex
print_hex-IsPlain [] h = tt
print_hex-IsPlain (b ∷ bs) h = (
  (digit_cases (b / 16) (omega arith)).1,
  ((digit_cases (b % 16) (omega arith)).1, print_hex-IsPlain bs h.1),
)

parse_pairs-print_hex : (bs : List ℕ) → IsBytes bs → parse_pairs (print_hex bs) ≡ some bs
unfolding parse_pairs print_hex
parse_pairs-print_hex [] h = refl
parse_pairs-print_hex (b ∷ bs) h =
    let high = (digit_cases (b / 16) (omega arith)).0 in
    let low = (digit_cases (b % 16) (omega arith)).0 in
    let whole : b / 16 * 16 + b % 16 ≡ b = omega arith in
    rw (high, low, parse_pairs-print_hex bs h.1, whole) refl

pub parse_hex-print_hex :
    (bs : List ℕ) → IsBytes bs → parse_hex (length bs) (print_hex bs) ≡ some bs
unfolding parse_hex
parse_hex-print_hex bs h =
    let e = length-print_hex bs in let p = parse_pairs-print_hex bs h in grind arith

hex_value_lt : (b d : ℕ) → hex_value b ≡ some d → d < 16
unfolding hex_value
hex_value_lt b d h = ground arith

parse_pairs-IsBytes :
    (text bs : List ℕ) → parse_pairs text ≡ some bs → (length bs * 2 ≡ length text) × IsBytes bs
unfolding parse_pairs
parse_pairs-IsBytes [] bs h =
    let e : [] ≡ bs = cc in subst (λ (xs : List ℕ). (length xs * 2 ≡ 0) × IsBytes xs) e (refl, tt)
parse_pairs-IsBytes (b ∷ []) bs h = absurd cc
parse_pairs-IsBytes (b ∷ c ∷ text) bs h =
    go (hex_value b) (hex_value c) (parse_pairs text) (hex_value_lt b) (hex_value_lt c)
      (parse_pairs-IsBytes text) h
  where
    go :
        (o p : Option ℕ) (q : Option (List ℕ))
        → ((d : ℕ) → o ≡ some d → d < 16)
        → ((d : ℕ) → p ≡ some d → d < 16)
        → ((rest : List ℕ) → q ≡ some rest → (length rest * 2 ≡ length text) × IsBytes rest)
        → o >>= (λ high. p >>= (λ low. q >>= (λ bytes. some ((high * 16 + low) ∷ bytes)))) ≡ some bs
        → (length bs * 2 ≡ suc (suc (length text))) × IsBytes bs
    go none p q x y z r = absurd cc
    go (some high) none q x y z r = absurd cc
    go (some high) (some low) none x y z r = absurd cc
    go (some high) (some low) (some rest) x y z r =
        let e : (high * 16 + low) ∷ rest ≡ bs = cc in
        let above = x high refl in
        let below = y low refl in
        let others = z rest refl in
        subst (λ (xs : List ℕ). (length xs * 2 ≡ suc (suc (length text))) × IsBytes xs) e
          (omega arith, (omega arith, others.1))

-- A digest that is parsed has its length, and its elements are bytes.
pub parse_hex-IsBytes :
    (n : ℕ) (text bs : List ℕ) → parse_hex n text ≡ some bs → (length bs ≡ n) × IsBytes bs
unfolding parse_hex
parse_hex-IsBytes n text bs h = elim (Bool-cases (length text == n * 2)) [
  | inl long ↦
      let read = parse_pairs-IsBytes text bs (rw long at h) in
      let whole = read.0 in (ground arith, read.1)
  | inr other ↦ absurd (let none_read : none ≡ some bs = rw other at h in cc)
]
