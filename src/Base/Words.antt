-- ===== src/Base/Words.antt =====
-- Machine words: `uint32_t` in little-endian byte order, saturating addition, and CRC-32.
use Prim.Native.Nat.{ℕ, ◌+◌, ◌-◌, ◌*◌, ◌/◌, ◌%◌, ◌^◌, ◌≤◌, ◌<◌}
use mathlib.Core.Path.{◌≡◌, refl}
use mathlib.Core.List.{List, [], ◌∷◌}
use native.Mathlib.Omega.{arith}
use revlink_sidecar.Base.Lists.{length, All}
use revlink_sidecar.Base.Tests.{ltb, if◌then◌else◌}

abbrev pub uint8_max : ℕ
uint8_max = 2 ^ 8 - 1

abbrev pub uint32_max : ℕ
uint32_max = 2 ^ 32 - 1

abbrev pub uint64_max : ℕ
uint64_max = 2 ^ 64 - 1

-- `UINT32_MAX - value` does not wrap for a `uint32_t`.
unfoldable pub saturated_add : ℕ → ℕ → ℕ
saturated_add value increment =
    if ltb (uint32_max - value) increment then uint32_max else value + increment

pub saturated_add_lem :
    (a b : ℕ) → a ≤ uint32_max → (saturated_add a b ≤ uint32_max) × (a ≤ saturated_add a b)
unfolding saturated_add
saturated_add_lem a b h = ground arith

-- The four bytes of a `uint32_t`, least significant first.
unfoldable pub le_bytes : ℕ → List ℕ
le_bytes v = v % 256 ∷ v / 2 ^ 8 % 256 ∷ v / 2 ^ 16 % 256 ∷ v / 2 ^ 24 % 256 ∷ []

-- The shifted bytes occupy disjoint bits, so the source's `|` is a sum. Fewer bytes read as 0.
unfoldable pub of_le_bytes : List ℕ → ℕ
of_le_bytes (a ∷ b ∷ c ∷ d ∷ _) = a + b * 2 ^ 8 + c * 2 ^ 16 + d * 2 ^ 24
of_le_bytes _ = 0

pub of_le_bytes-le_bytes : (v : ℕ) → v ≤ uint32_max → of_le_bytes (le_bytes v) ≡ v
unfolding of_le_bytes le_bytes
of_le_bytes-le_bytes v h = omega arith

-- Four bytes are those of the number that is read from them, which is a `uint32_t`.
pub le_bytes-of_le_bytes :
    (bs : List ℕ)
    → length bs ≡ 4
    → All (λ (b : ℕ). b < 256) bs
    → (le_bytes (of_le_bytes bs) ≡ bs) × (of_le_bytes bs ≤ uint32_max)
unfolding of_le_bytes le_bytes
le_bytes-of_le_bytes [] n h = absurd (omega arith)
le_bytes-of_le_bytes (a ∷ []) n h = absurd (omega arith)
le_bytes-of_le_bytes (a ∷ b ∷ []) n h = absurd (omega arith)
le_bytes-of_le_bytes (a ∷ b ∷ c ∷ []) n h = absurd (omega arith)
le_bytes-of_le_bytes (a ∷ b ∷ c ∷ d ∷ e ∷ bs) n h = absurd (omega arith)
le_bytes-of_le_bytes (a ∷ b ∷ c ∷ d ∷ []) n h =
    let v = a + b * 2 ^ 8 + c * 2 ^ 16 + d * 2 ^ 24 in
    let first : v % 256 ≡ a = omega arith in
    let second : v / 2 ^ 8 % 256 ≡ b = omega arith in
    let third : v / 2 ^ 16 % 256 ≡ c = omega arith in
    let fourth : v / 2 ^ 24 % 256 ≡ d = omega arith in
    (rw (first, second, third, fourth) refl, omega arith)

pub length-le_bytes : (v : ℕ) → length (le_bytes v) ≡ 4
unfolding le_bytes
length-le_bytes v = refl

pub le_bytes-All : (v : ℕ) → All (λ (b : ℕ). b < 256) (le_bytes v)
unfolding le_bytes
le_bytes-All v = omega arith
