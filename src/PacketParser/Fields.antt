-- ===== src/PacketParser/Fields.antt =====
-- include/chronosx/packet_parser.hpp: `read_be16` and `read_be32` as arithmetic on bytes.
use chronos_x.Base.{
  ℕ, ◌+◌, ◌*◌, ◌/◌, ◌%◌, ◌^◌, ◌<◌, List, ◌≡◌, ap, ◌∙◌, arith, bit_or, u32, u32_mod, ◌<<◌,
}
use native.Mathlib.Nat.{mod-eq_of_lt}
use chronos_x.Base.Bits.{bit_or_disjoint}
use chronos_x.PacketParser.{read_be16, read_be32, byte_at}

-- A shifted byte and the bytes below it, as a sum.
pub join :
    (k m q r : ℕ)
    → q * 2 ^ k < m
    → r < m
    → r < 2 ^ k
    → bit_or ((q << k) % m) (r % m) ≡ q * 2 ^ k + r
join k m q r p s t = rw (mod-eq_of_lt p, mod-eq_of_lt s) (bit_or_disjoint k q r t)

pub read_be16_bytes :
    (f : List ℕ) (i : ℕ)
    → byte_at f i < 256
    → byte_at f (i + 1) < 256
    → read_be16 f i ≡ byte_at f i * 256 + byte_at f (i + 1)
unfolding read_be16
read_be16_bytes f i p q =
    rw (join 8 65536 (byte_at f i) (byte_at f (i + 1)) (omega arith) (omega arith) q) (omega arith)

-- The three disjunctions of `read_be32`, from the left.
pub join_four :
    (a b c d : ℕ)
    → a < 256
    → b < 256
    → c < 256
    → d < 256
    → bit_or (bit_or (bit_or (u32 (a << 24)) (u32 (b << 16))) (u32 (c << 8))) d
      ≡ a * 2 ^ 24 + b * 2 ^ 16 + c * 2 ^ 8 + d
join_four a b c d p q r s =
    ap (λ t. bit_or (bit_or t (u32 (c << 8))) d) first
    ∙ ap (λ t. bit_or t d) second
    ∙ bit_or_disjoint 8 ((a * 256 + b) * 256 + c) d s
    ∙ omega arith
  where
    first : bit_or (u32 (a << 24)) (u32 (b << 16)) ≡ (a * 256 + b) * 2 ^ 16
    first = join 24 u32_mod a (b << 16) (omega arith) (omega arith) (omega arith) ∙ omega arith

    small : u32 (c << 8) ≡ c << 8
    small = omega arith

    second : bit_or ((a * 256 + b) * 2 ^ 16) (u32 (c << 8)) ≡ ((a * 256 + b) * 256 + c) * 2 ^ 8
    second =
        ap (bit_or ((a * 256 + b) * 2 ^ 16)) small
        ∙ bit_or_disjoint 16 (a * 256 + b) (c << 8) (omega arith)
        ∙ omega arith

pub read_be32_bytes :
    (f : List ℕ) (i : ℕ)
    → byte_at f i < 256
    → byte_at f (i + 1) < 256
    → byte_at f (i + 2) < 256
    → byte_at f (i + 3) < 256
    → read_be32 f i
      ≡ byte_at f i * 2 ^ 24
        + byte_at f (i + 1) * 2 ^ 16
        + byte_at f (i + 2) * 2 ^ 8
        + byte_at f (i + 3)
unfolding read_be32
read_be32_bytes f i p q r s =
    rw (join_four (byte_at f i) (byte_at f (i + 1)) (byte_at f (i + 2)) (byte_at f (i + 3)) p q r s)
      (omega arith)

-- A field of two bytes, or of four, read where it was written.
pub be16_field :
    (f : List ℕ) (i v : ℕ)
    → v < 65536
    → byte_at f i ≡ v / 256
    → byte_at f (i + 1) ≡ v % 256
    → read_be16 f i ≡ v
be16_field f i v h p q = omega (arith, read_be16_bytes f i)

pub be32_field :
    (f : List ℕ) (i v : ℕ)
    → v < 2 ^ 32
    → byte_at f i ≡ v / 2 ^ 24
    → byte_at f (i + 1) ≡ v / 2 ^ 16 % 256
    → byte_at f (i + 2) ≡ v / 2 ^ 8 % 256
    → byte_at f (i + 3) ≡ v % 256
    → read_be32 f i ≡ v
be32_field f i v h p q r s =
    omega (arith, read_be32_bytes f i (omega arith) (omega arith) (omega arith) (omega arith))
