-- ===== src/Protocol/Header.antt =====
-- include/chronosx/protocol.hpp: the header's fields are read as they were written.
use chronos_x.Base.{
  ℕ, ◌≡◌, ◌%◌, ◌^◌, ◌<◌, ap, ap₂, ◌∙◌, List, [], arith, u8, u16, u32, ◌<<◌, ◌>>◌, bit_and, bit_or,
}
use chronos_x.Base.Bits.{bit_and_mask, bit_or_disjoint}
use chronos_x.PacketParser.Fields.{join_four}
use chronos_x.Protocol.Codec.{MessageHeader, read_header, read_u16_be, read_u32_be, read_u64_be}
use chronos_x.Protocol.Peel.{be16, be32, be64, header_bytes}

pub low_byte : (x : ℕ) → u8 (bit_and x 0xff) ≡ x % 256
low_byte x = omega (arith, bit_and_mask 8 x)

read_be16 : (v : ℕ) (rest : List ℕ) → v < 2 ^ 16 → read_u16_be (be16 v rest) 0 ≡ v
unfolding read_u16_be
read_be16 v rest h =
    ap u16 (
      bit_or_disjoint 8 (u16 (u8 (bit_and (v >> 8) 0xff))) (u16 (u8 (bit_and v 0xff)))
        (omega arith))
    ∙ omega (arith, low_byte (v >> 8), low_byte v)

read_be32 : (v : ℕ) (rest : List ℕ) → v < 2 ^ 32 → read_u32_be (be32 v rest) 0 ≡ v
unfolding read_u32_be
read_be32 v rest h =
    join_four (u8 (bit_and (v >> 24) 0xff)) (u8 (bit_and (v >> 16) 0xff))
      (u8 (bit_and (v >> 8) 0xff)) (u8 (bit_and v 0xff)) (omega arith) (omega arith) (omega arith)
      (omega arith)
    ∙ omega (arith, low_byte (v >> 24), low_byte (v >> 16), low_byte (v >> 8), low_byte v)

low_word : (x : ℕ) → u32 (bit_and x 0xffffffff) ≡ x % 2 ^ 32
low_word x = omega (arith, bit_and_mask 32 x)

read_be64 : (v : ℕ) (rest : List ℕ) → v < 2 ^ 64 → read_u64_be (be64 v rest) 0 ≡ v
unfolding read_u64_be
read_be64 v rest h =
    ap₂ (λ a b. bit_or (a << 32) b)
      (read_be32 (u32 (bit_and (v >> 32) 0xffffffff)) [] (omega arith))
      (read_be32 (u32 (bit_and v 0xffffffff)) [] (omega arith))
    ∙ bit_or_disjoint 32 (u32 (bit_and (v >> 32) 0xffffffff)) (u32 (bit_and v 0xffffffff))
        (omega arith)
    ∙ omega (arith, low_word (v >> 32), low_word v)

-- A header whose fields fit their widths.
pub record Fits (h : MessageHeader) : Type 0 where
  pub magic : h.magic < 2 ^ 16
  pub sequence : h.sequence < 2 ^ 32
  pub payload_length : h.payload_length < 2 ^ 32
  pub timestamp_ns : h.timestamp_ns < 2 ^ 64

pub read_header_lem :
    (h : MessageHeader) (crc : ℕ) (rest : List ℕ)
    → Fits h
    → crc < 2 ^ 32
    → read_header (header_bytes h crc rest) ≡ record h { crc32 = crc }
unfolding read_header header_bytes
read_header_lem h crc rest f s = λ i. record {
  magic = read_be16 h.magic [] f.magic i;
  version = h.version;
  opcode = h.opcode;
  sequence = read_be32 h.sequence [] f.sequence i;
  payload_length = read_be32 h.payload_length [] f.payload_length i;
  crc32 = read_be32 crc [] s i;
  timestamp_ns = read_be64 h.timestamp_ns [] f.timestamp_ns i;
}
