-- ===== src/Protocol/Checksum.antt =====
-- include/chronosx/protocol.hpp: the checksum stays a word of 32 bits.
use chronos_x.Base.{
  ℕ, zero, suc, ◌^◌, ◌<◌, List, [], ◌∷◌, arith, u8, bit_and, bit_xor, ◌>>◌, Bool-cases, inl, inr,
  ◌!=◌,
}
use chronos_x.Base.Bits.{bit_xor-lt}
use chronos_x.Protocol.Codec.{
  crc32_polynomial, crc32_bit, crc32_bits, crc32_table, crc32_update, crc32,
}

crc32_bit-lt : (crc : ℕ) → crc < 2 ^ 32 → crc32_bit crc < 2 ^ 32
crc32_bit-lt crc h = elim (Bool-cases (bit_and crc 1 != 0)) [
  | inl e ↦ rw e (bit_xor-lt 32 (crc >> 1) crc32_polynomial (omega arith) (omega arith))
  | inr e ↦ rw e (omega arith)
]

crc32_bits-lt : (n crc : ℕ) → crc < 2 ^ 32 → crc32_bits n crc < 2 ^ 32
unfolding crc32_bits
crc32_bits-lt zero crc h = h
crc32_bits-lt (suc n) crc h = crc32_bits-lt n (crc32_bit crc) (crc32_bit-lt crc h)

crc32_update-lt : (bytes : List ℕ) (crc : ℕ) → crc < 2 ^ 32 → crc32_update crc bytes < 2 ^ 32
unfolding crc32_update crc32_table
crc32_update-lt [] crc h = h
crc32_update-lt (byte ∷ bytes) crc h =
    let index = u8 (bit_and (bit_xor crc byte) 0xff) in
    crc32_update-lt bytes (bit_xor (crc >> 8) (crc32_table index)) (
      bit_xor-lt 32 (crc >> 8) (crc32_table index) (omega arith)
        (crc32_bits-lt 8 index (omega arith)))

pub crc32-lt : (bytes : List ℕ) → crc32 bytes < 2 ^ 32
unfolding crc32
crc32-lt bytes =
    bit_xor-lt 32 (crc32_update 0xffffffff bytes) 0xffffffff
      (crc32_update-lt bytes 0xffffffff (omega arith)) (omega arith)
