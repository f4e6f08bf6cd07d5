-- ===== src/Crc.antt =====
-- CRC-32 with the reflected polynomial, one bit at a time: the loop that
-- firmware/components/accessport_protocol and firmware/components/revlink_staged_map both spell out.
pub mod Bounds
use revlink_sidecar.Base.{ℕ, zero, suc, ◌-◌, ◌/◌, ◌%◌, ◌^◌, bit_xor, List, [], ◌∷◌}
use Prim.Native.Nat.{bit_and}

-- One round: `mask = 0 - (crc & 1)` is all ones or zero.
unfoldable pub crc32_bit : ℕ → ℕ
crc32_bit crc = bit_xor (crc / 2) (bit_and 0xedb88320 ((2 ^ 32 - crc % 2) % 2 ^ 32))

unfoldable pub crc32_bits : ℕ → ℕ → ℕ
crc32_bits zero crc = crc
crc32_bits (suc rounds) crc = crc32_bits rounds (crc32_bit crc)

unfoldable pub crc32_update : ℕ → List ℕ → ℕ
unfolding crc32_bits crc32_bit
crc32_update crc [] = crc
crc32_update crc (byte ∷ rest) = crc32_update (crc32_bits 8 (bit_xor crc byte)) rest
