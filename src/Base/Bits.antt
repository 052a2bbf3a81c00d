-- ===== src/Base/Bits.antt =====
-- Laws of `&`, `|` and `^` at variables: one equation for the lowest digit of each, and from it
-- masks, disjoint fields, and the exclusive or as an involution within its width.
use Prim.Native.Nat.{digits, differ, max, bit_and-bitwise, bit_or-bitwise, bit_xor-bitwise}
use Prim.Native.Nat.{ℕ, zero, suc, ◌+◌, ◌-◌, ◌*◌, ◌/◌, ◌%◌, ◌^◌, ◌≤◌, ◌<◌, min}
use Prim.Native.Nat.{bit_and, bit_or, bit_xor}
use mathlib.Core.Path.{◌≡◌, refl, sym, ap, ◌∙◌}
use mathlib.Core.WellFounded
use native.Mathlib.Nat.{
  pow-suc, div-div-eq-div-mul, one-le-pow, mod-lt, mod-eq_of_lt, mul-add-mod_self_right,
  div-add-mod',
}
use native.Mathlib.Omega.{arith}
use chronos_x.Base.Order.{lt_wf}

module _ (z : ℕ → ℕ) (f : ℕ → ℕ → ℕ) where
  digits_done : (n b : ℕ) → digits z f n zero b ≡ z b
  digits_done zero b = refl
  digits_done (suc n) b = refl

  -- A count of digits beyond the number's own changes nothing.
  digits_stable : (n m a b : ℕ) → a ≤ n → a ≤ m → digits z f n a b ≡ digits z f m a b
  digits_stable n m zero b p q = digits_done n b ∙ sym (digits_done m b)
  digits_stable zero m (suc a) b p q = absurd (omega arith)
  digits_stable (suc n) zero (suc a) b p q = absurd (omega arith)
  digits_stable (suc n) (suc m) (suc a) b p q =
      ap (λ t. t * 2 + f (suc a % 2) (b % 2))
        (digits_stable n m (suc a / 2) (b / 2) (omega arith) (omega arith))

  digits_step :
      (a b : ℕ)
      → digits z f (suc a) (suc a) b
        ≡ digits z f (suc a / 2) (suc a / 2) (b / 2) * 2 + f (suc a % 2) (b % 2)
  digits_step a b =
      ap (λ t. t * 2 + f (suc a % 2) (b % 2))
        (digits_stable a (suc a / 2) (suc a / 2) (b / 2) (omega arith) (omega arith))

pub bit_and_step : (a b : ℕ) → bit_and a b ≡ bit_and (a / 2) (b / 2) * 2 + min (a % 2) (b % 2)
bit_and_step zero b = rw (bit_and-bitwise 0 b, bit_and-bitwise 0 (b / 2)) (omega arith)
bit_and_step (suc a) b =
    rw (bit_and-bitwise (suc a) b, bit_and-bitwise (suc a / 2) (b / 2))
      (digits_step (λ y. 0) min a b)

pub bit_or_step : (a b : ℕ) → bit_or a b ≡ bit_or (a / 2) (b / 2) * 2 + max (a % 2) (b % 2)
bit_or_step zero b = rw (bit_or-bitwise 0 b, bit_or-bitwise 0 (b / 2)) (omega arith)
bit_or_step (suc a) b =
    rw (bit_or-bitwise (suc a) b, bit_or-bitwise (suc a / 2) (b / 2)) (digits_step (λ y. y) max a b)

-- The exclusive or of two digits, as arithmetic.
differ_digits : (x y : ℕ) → x < 2 → y < 2 → differ x y ≡ (x + y) % 2
differ_digits zero y p q = omega arith
differ_digits (suc zero) zero p q = refl
differ_digits (suc zero) (suc zero) p q = refl
differ_digits (suc zero) (suc (suc y)) p q = absurd (omega arith)
differ_digits (suc (suc x)) y p q = absurd (omega arith)

pub bit_xor_step : (a b : ℕ) → bit_xor a b ≡ bit_xor (a / 2) (b / 2) * 2 + (a % 2 + b % 2) % 2
bit_xor_step zero b = rw (bit_xor-bitwise 0 b, bit_xor-bitwise 0 (b / 2)) (omega arith)
bit_xor_step (suc a) b =
    rw (bit_xor-bitwise (suc a) b, bit_xor-bitwise (suc a / 2) (b / 2))
      (digits_step (λ y. y) differ a b
        ∙ ap (λ t. digits (λ y. y) differ (suc a / 2) (suc a / 2) (b / 2) * 2 + t)
            (differ_digits (suc a % 2) (b % 2) (omega arith) (omega arith)))

-- Induction from the half of a number to the number.
pub halving {ℓ} : (P : ℕ → Type ℓ) → P 0 → ((a : ℕ) → P (suc a / 2) → P (suc a)) → (a : ℕ) → P a
halving P base step a = WellFounded.induction lt_wf {C = P} a go
  where
    go : (n : ℕ) → ((m : ℕ) → m < n → P m) → P n
    go zero ih = base
    go (suc n) ih = step n (ih (suc n / 2) (omega arith))

pub bit_and-zero : (a : ℕ) → bit_and a 0 ≡ 0
bit_and-zero = halving (λ a. bit_and a 0 ≡ 0) refl λ a ih. omega (arith, bit_and_step (suc a) 0)

pub bit_or-zero : (a : ℕ) → bit_or a 0 ≡ a
bit_or-zero = halving (λ a. bit_or a 0 ≡ a) refl λ a ih. omega (arith, bit_or_step (suc a) 0)

pub bit_xor-zero : (a : ℕ) → bit_xor a 0 ≡ a
bit_xor-zero = halving (λ a. bit_xor a 0 ≡ a) refl λ a ih. omega (arith, bit_xor_step (suc a) 0)

pub bit_and_self : (a : ℕ) → bit_and a a ≡ a
bit_and_self =
    halving (λ a. bit_and a a ≡ a) refl λ a ih. omega (arith, bit_and_step (suc a) (suc a))

mod_double : (m a : ℕ) → 0 < m → a % (m * 2) ≡ a / 2 % m * 2 + a % 2
mod_double m a h =
    ap (λ t. t % (m * 2)) split
    ∙ mul-add-mod_self_right (a / 2 / m) (m * 2) (a / 2 % m * 2 + a % 2)
    ∙ mod-eq_of_lt (omega (arith, mod-lt (a / 2) h))
  where
    split : a ≡ a / 2 / m * (m * 2) + (a / 2 % m * 2 + a % 2)
    split = omega (arith, div-add-mod' (a / 2) m)

-- A word masked by its `k` low bits is its remainder by `2 ^ k`.
pub bit_and_mask : (k a : ℕ) → bit_and a (2 ^ k - 1) ≡ a % 2 ^ k
bit_and_mask zero a = omega (arith, bit_and-zero a)
bit_and_mask (suc k) a = omega (
  arith,
  bit_and_step a (2 ^ suc k - 1),
  pow-suc 2 k,
  one-le-pow k 2 (omega arith),
  half_mask,
  bit_and_mask k (a / 2),
  ap (λ t. a % t) (pow-suc 2 k),
  mod_double (2 ^ k) a (one-le-pow k 2 (omega arith)),
)
  where
    half_mask : bit_and (a / 2) ((2 ^ suc k - 1) / 2) ≡ bit_and (a / 2) (2 ^ k - 1)
    half_mask = ap (bit_and (a / 2)) (omega (arith, pow-suc 2 k, one-le-pow k 2 (omega arith)))

mul-pow-suc : (q k : ℕ) → q * 2 ^ suc k ≡ 2 * (q * 2 ^ k)
mul-pow-suc q k = omega (arith, ap (λ (t : ℕ). q * t) (pow-suc 2 k))

-- `(q << k) | r` is a sum where `r` fits in `k` bits.
pub bit_or_disjoint : (k q r : ℕ) → r < 2 ^ k → bit_or (q * 2 ^ k) r ≡ q * 2 ^ k + r
bit_or_disjoint zero q r h = ground (arith, bit_or-zero (q * 1))
bit_or_disjoint (suc k) q r h = ground (
  arith,
  bit_or_step (q * 2 ^ suc k) r,
  mul-pow-suc q k,
  pow-suc 2 k,
  bit_or_disjoint k q (r / 2),
)

-- The exclusive or of two words of `k` bits has `k` bits.
pub bit_xor-lt : (k a b : ℕ) → a < 2 ^ k → b < 2 ^ k → bit_xor a b < 2 ^ k
bit_xor-lt zero a b p q = rw (zero_of p, zero_of q) (omega arith)
  where
    zero_of : {x : ℕ} → x < 2 ^ 0 → x ≡ 0
    zero_of h = omega arith
bit_xor-lt (suc k) a b p q =
    ground (arith, bit_xor_step a b, pow-suc 2 k, bit_xor-lt k (a / 2) (b / 2))

zero-bit_xor : (b : ℕ) → bit_xor 0 b ≡ b
zero-bit_xor b = bit_xor-bitwise 0 b

-- The same mask twice gives the word back.
pub bit_xor_twice : (a b : ℕ) → bit_xor (bit_xor a b) b ≡ a
bit_xor_twice a = halving (λ a. (b : ℕ) → bit_xor (bit_xor a b) b ≡ a) base step a
  where
    base : (b : ℕ) → bit_xor (bit_xor 0 b) b ≡ 0
    base b = rw (zero-bit_xor b) (self b)
      where
        self : (b : ℕ) → bit_xor b b ≡ 0
        self =
            halving (λ b. bit_xor b b ≡ 0) refl λ b ih. omega (arith, bit_xor_step (suc b) (suc b))

    step :
        (a : ℕ)
        → ((b : ℕ) → bit_xor (bit_xor (suc a / 2) b) b ≡ suc a / 2)
        → (b : ℕ) → bit_xor (bit_xor (suc a) b) b ≡ suc a
    step a ih b =
        ground (arith, bit_xor_step (suc a) b, bit_xor_step (bit_xor (suc a) b) b, ih (b / 2))

pub bit_xor_comm : (a b : ℕ) → bit_xor a b ≡ bit_xor b a
bit_xor_comm =
    halving (λ a. (b : ℕ) → bit_xor a b ≡ bit_xor b a) (λ b. zero-bit_xor b ∙ sym (bit_xor-zero b))
      λ a ih b. omega (arith, bit_xor_step (suc a) b, bit_xor_step b (suc a), ih (b / 2))

-- The exclusive or of shifted words is the shifted exclusive or.
pub bit_xor_shift : (k a b : ℕ) → bit_xor a b / 2 ^ k ≡ bit_xor (a / 2 ^ k) (b / 2 ^ k)
bit_xor_shift zero a b = rw (one a, one b, one (bit_xor a b)) refl
  where
    one : (x : ℕ) → x / 2 ^ 0 ≡ x
    one x = omega arith
bit_xor_shift (suc k) a b =
    rw (halve a, halve b, halve (bit_xor a b), half) (bit_xor_shift k (a / 2) (b / 2))
  where
    halve : (x : ℕ) → x / 2 ^ suc k ≡ x / 2 / 2 ^ k
    halve x = ap (λ t. x / t) (pow-suc 2 k ∙ omega arith) ∙ sym (div-div-eq-div-mul x 2 (2 ^ k))

    half : bit_xor a b / 2 ≡ bit_xor (a / 2) (b / 2)
    half = omega (arith, bit_xor_step a b)
