-- ===== src/Crc/Bounds.antt =====
-- The checksum is a `uint32_t`: the rounds of the loop never leave 32 bits.
use Prim.Native.Nat.{bit_and, digits, bit_and-bitwise, bit_xor-bitwise, differ, min}
use revlink_sidecar.Base.{
  ℕ, zero, suc, ◌-◌, ◌/◌, ◌%◌, ◌^◌, ◌≡◌, ◌≤◌, ◌<◌, bit_xor, List, [], ◌∷◌, ◌++◌, arith, refl, All,
}
use revlink_sidecar.Crc.{crc32_bit, crc32_bits, crc32_update}

differ_bit : (a b : ℕ) → a < 2 → b < 2 → differ a b < 2
differ_bit zero b p q = q
differ_bit (suc zero) zero p q = p
differ_bit (suc zero) (suc b) p q = omega arith
differ_bit (suc (suc a)) b p q = absurd (omega arith)

xor_digits-lt : (w n a b : ℕ) → a < 2 ^ w → b < 2 ^ w → digits (λ x. x) differ n a b < 2 ^ w
xor_digits-lt w zero a b p q = q
xor_digits-lt w (suc n) zero b p q = q
xor_digits-lt zero (suc n) (suc a) b p q = absurd (omega arith)
xor_digits-lt (suc w) (suc n) (suc a) b p q = omega (
  arith,
  xor_digits-lt w n (suc a / 2) (b / 2) (omega arith) (omega arith),
  differ_bit (suc a % 2) (b % 2) (omega arith) (omega arith),
)

and_digits-le : (n a b : ℕ) → digits (λ _. 0) min n a b ≤ a
and_digits-le zero a b = omega arith
and_digits-le (suc n) zero b = omega arith
and_digits-le (suc n) (suc a) b = omega (arith, and_digits-le n (suc a / 2) (b / 2))

bit_xor-lt : (a b : ℕ) → a < 2 ^ 32 → b < 2 ^ 32 → bit_xor a b < 2 ^ 32
bit_xor-lt a b p q = omega (arith, bit_xor-bitwise a b, xor_digits-lt 32 a a b p q)

bit_and-le : (a b : ℕ) → bit_and a b ≤ a
bit_and-le a b = omega (arith, bit_and-bitwise a b, and_digits-le a a b)

crc32_bits-lt : (n crc : ℕ) → crc < 2 ^ 32 → crc32_bits n crc < 2 ^ 32
unfolding crc32_bits crc32_bit
crc32_bits-lt zero crc h = h
crc32_bits-lt (suc n) crc h = crc32_bits-lt n (crc32_bit crc) (
    bit_xor-lt (crc / 2) _ (omega arith)
      (omega (arith, bit_and-le 0xedb88320 ((2 ^ 32 - crc % 2) % 2 ^ 32))))

-- Over bytes, from a 32-bit value.
pub crc32_update-lt :
    (crc : ℕ) (bs : List ℕ)
    → crc < 2 ^ 32
    → All (λ (b : ℕ). b < 256) bs
    → crc32_update crc bs < 2 ^ 32
unfolding crc32_update
crc32_update-lt crc [] h all = h
crc32_update-lt crc (b ∷ bs) h all =
    crc32_update-lt (crc32_bits 8 (bit_xor crc b)) bs
      (crc32_bits-lt 8 _ (bit_xor-lt crc b h (omega arith))) all.1

-- The checksum of a buffer goes on from the checksum of its first part.
pub crc32_update-append :
    (crc : ℕ) (xs ys : List ℕ) → crc32_update crc (xs ++ ys) ≡ crc32_update (crc32_update crc xs) ys
unfolding crc32_update
crc32_update-append crc [] ys = refl
crc32_update-append crc (x ∷ xs) ys = crc32_update-append (crc32_bits 8 (bit_xor crc x)) xs ys
