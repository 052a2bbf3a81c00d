-- ===== src/ChaosEngine/Bijection.antt =====
-- include/chronosx/chaos_engine.hpp: the steps of the hashes as bijections of 64-bit words.
use chronos_x.Base.{ℕ, ◌<◌, ◌≡◌, ap, sym, ◌∙◌, arith, bit_xor, mul64, u64_mod, ◌>>◌}
use chronos_x.Base.Bits.{bit_xor_twice, bit_xor-lt, bit_xor-zero, bit_xor_shift, bit_xor_comm}
use chronos_x.ChaosEngine.{fnv1a_byte, fnv_prime, avalanche64}

-- `value ^= value >> 33`, its own inverse.
fold33 : ℕ → ℕ
fold33 x = bit_xor x (x >> 33)

fold33-lt : (x : ℕ) → x < u64_mod → fold33 x < u64_mod
unfolding fold33
fold33-lt x h = bit_xor-lt 64 x (x >> 33) h (omega arith)

fold33_twice : (x : ℕ) → x < u64_mod → fold33 (fold33 x) ≡ x
unfolding fold33
fold33_twice x h =
    rw (bit_xor_shift 33 x (x >> 33), zero_above, bit_xor-zero (x >> 33))
      (bit_xor_twice x (x >> 33))
  where
    zero_above : (x >> 33) >> 33 ≡ 0
    zero_above = omega arith

-- Each odd multiplier has an inverse modulo 2 ^ 64.
undo_fnv : (x : ℕ) → x < u64_mod → mul64 (mul64 x fnv_prime) 14886173955864302971 ≡ x
undo_fnv x h = omega arith

undo_first : (x : ℕ) → x < u64_mod → mul64 (mul64 x 0xff51afd7ed558ccd) 5725274745694666757 ≡ x
undo_first x h = omega arith

undo_second : (x : ℕ) → x < u64_mod → mul64 (mul64 x 0xc4ceb9fe1a85ec53) 11291846944257947611 ≡ x
undo_second x h = omega arith

-- The steps of `avalanche64` undone, in reverse.
pub restore64 : ℕ → ℕ
unfolding fold33
restore64 x = fold33 (mul64 (fold33 (mul64 (fold33 x) 11291846944257947611)) 5725274745694666757)

-- `avalanche64` loses nothing of a 64-bit word: `restore64` gives the word back.
pub restore64-avalanche64 : (x : ℕ) → x < u64_mod → restore64 (avalanche64 x) ≡ x
unfolding restore64 avalanche64
restore64-avalanche64 x h =
    ap (λ t. fold33 (mul64 (fold33 (mul64 t 11291846944257947611)) 5725274745694666757))
      (fold33_twice (mul64 c 0xc4ceb9fe1a85ec53) (omega arith))
    ∙ ap (λ t. fold33 (mul64 (fold33 t) 5725274745694666757))
        (undo_second c (fold33-lt b (omega arith)))
    ∙ ap (λ t. fold33 (mul64 t 5725274745694666757)) (fold33_twice b (omega arith))
    ∙ ap fold33 (undo_first (fold33 x) (fold33-lt x h))
    ∙ fold33_twice x h
  where
    b : ℕ
    b = mul64 (fold33 x) 0xff51afd7ed558ccd

    c : ℕ
    c = fold33 b

pub avalanche64-injective :
    (x y : ℕ) → x < u64_mod → y < u64_mod → avalanche64 x ≡ avalanche64 y → x ≡ y
avalanche64-injective x y p q e =
    sym (restore64-avalanche64 x p) ∙ ap restore64 e ∙ restore64-avalanche64 y q

pub fnv1a_byte-lt : (h v : ℕ) → fnv1a_byte h v < u64_mod
unfolding fnv1a_byte
fnv1a_byte-lt h v = omega arith

-- The product of a step of FNV-1a undone.
pub fnv1a_byte_undo :
    (h v : ℕ) → h < u64_mod → v < 256 → mul64 (fnv1a_byte h v) 14886173955864302971 ≡ bit_xor h v
unfolding fnv1a_byte
fnv1a_byte_undo h v p q = undo_fnv (bit_xor h v) (bit_xor-lt 64 h v p (omega arith))

pub fnv1a_byte-same_byte :
    (h k v : ℕ) → h < u64_mod → k < u64_mod → v < 256 → fnv1a_byte h v ≡ fnv1a_byte k v → h ≡ k
fnv1a_byte-same_byte h k v p q r e =
    sym (bit_xor_twice h v) ∙ ap (λ t. bit_xor t v) same ∙ bit_xor_twice k v
  where
    same : bit_xor h v ≡ bit_xor k v
    same =
        sym (fnv1a_byte_undo h v p r)
        ∙ ap (λ t. mul64 t 14886173955864302971) e
        ∙ fnv1a_byte_undo k v q r

pub fnv1a_byte-same_state :
    (h v w : ℕ) → h < u64_mod → v < 256 → w < 256 → fnv1a_byte h v ≡ fnv1a_byte h w → v ≡ w
fnv1a_byte-same_state h v w p q r e = sym (back v) ∙ ap (λ t. bit_xor t h) same ∙ back w
  where
    same : bit_xor h v ≡ bit_xor h w
    same =
        sym (fnv1a_byte_undo h v p q)
        ∙ ap (λ t. mul64 t 14886173955864302971) e
        ∙ fnv1a_byte_undo h w p r

    back : (x : ℕ) → bit_xor (bit_xor h x) h ≡ x
    back x = ap (λ t. bit_xor t h) (bit_xor_comm h x) ∙ bit_xor_twice x h
