-- ===== src/Types/PowerOfTwo.antt =====
-- `is_power_of_two` accepts the powers of two and nothing else.
use native.Mathlib.Nat.{pow-suc, mod_self}
use chronos_x.Base.{
  ℕ, suc, ◌-◌, ◌*◌, ◌/◌, ◌%◌, ◌^◌, ◌≡◌, ◌≢◌, ◌↔◌, true, refl, arith, bit_and, dec_lt, dec_le, ◌∙◌,
  ◌<◌, ◌≤◌, u64_mod,
}
use chronos_x.Base.Bits.{bit_and_step, bit_and_self, bit_and_mask, halving}
use chronos_x.Base.Powers.{pow_pos, mod_pow_mod, pow-le-pow}
use chronos_x.Types.{is_power_of_two}

abbrev IsPower : ℕ → Type 0
IsPower v = (k : ℕ) × (v ≡ 2 ^ k)

-- Clearing the lowest one of an odd number, and of an even one.
odd_low : (v : ℕ) → v % 2 ≡ 1 → bit_and v (v - 1) ≡ v - 1
odd_low v h = ground (arith, bit_and_step v (v - 1), bit_and_self (v / 2))

even_low : (v : ℕ) → v % 2 ≡ 0 → v ≢ 0 → bit_and v (v - 1) ≡ bit_and (v / 2) (v / 2 - 1) * 2
even_low v h p = ground (arith, bit_and_step v (v - 1))

IsPower-of_half : (v : ℕ) → v % 2 ≡ 0 → IsPower (v / 2) → IsPower v
IsPower-of_half v h (k, e) = (suc k, omega (arith, pow-suc 2 k))

IsPower-of_cleared : (v : ℕ) → v ≢ 0 → bit_and v (v - 1) ≡ 0 → IsPower v
IsPower-of_cleared =
    halving (λ v. v ≢ 0 → bit_and v (v - 1) ≡ 0 → IsPower v) (λ p q. absurd (p refl))
      λ a ih p q. elim (dec_lt 0 (suc a % 2)) [
        | yes odd ↦ (0, omega (arith, odd_low (suc a)))
        | no even ↦
            IsPower-of_half (suc a) (omega arith)
              (ih (omega arith) (omega (arith, even_low (suc a))))
      ]

-- The test holds exactly of the numbers `2 ^ k`.
pub is_power_of_two_iff : (v : ℕ) → (is_power_of_two v ≡ true) ↔ ((k : ℕ) × (v ≡ 2 ^ k))
unfolding is_power_of_two
is_power_of_two_iff v = (
  λ h. IsPower-of_cleared v (ground arith) (ground arith),
  λ (k, e). ground (arith, pow_pos k, cleared k e),
)
  where
    cleared : (k : ℕ) → v ≡ 2 ^ k → bit_and v (v - 1) ≡ 0
    cleared k e = rw e (bit_and_mask k (2 ^ k) ∙ mod_self (2 ^ k))

-- Masking by a power of two less one is the remainder.
pub bit_and_capacity : (c x : ℕ) → is_power_of_two c ≡ true → bit_and x (c - 1) ≡ x % c
bit_and_capacity c x p = let (k, e) = (is_power_of_two_iff c).0 p in rw e (bit_and_mask k x)

pub capacity_pos : (c : ℕ) → is_power_of_two c ≡ true → 0 < c
capacity_pos c p = let (k, e) = (is_power_of_two_iff c).0 p in omega (arith, pow_pos k)

-- A counter that wraps at the word size keeps its index in a ring.
pub u64-mod_capacity : (c x : ℕ) → is_power_of_two c ≡ true → c < u64_mod → x % u64_mod % c ≡ x % c
u64-mod_capacity c x p lt =
    let (k, e) = (is_power_of_two_iff c).0 p in rw e (mod_pow_mod k 64 x (small k e))
  where
    small : (k : ℕ) → c ≡ 2 ^ k → k ≤ 64
    small k e = elim (dec_le k 64) [
      | yes h ↦ h
      | no h ↦ absurd (omega (arith, pow-le-pow 64 k (omega arith)))
    ]
