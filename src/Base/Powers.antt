-- ===== src/Base/Powers.antt =====
-- Powers of two, as the capacities and masks of the rings use them.
use Prim.Native.Nat.{ℕ, zero, suc, ◌+◌, ◌-◌, ◌*◌, ◌%◌, ◌^◌, ◌≤◌, ◌<◌, ◌∣◌}
use mathlib.Core.Path.{◌≡◌, ap, ◌∙◌}
use Prim.Native.Nat.add
use native.Mathlib.Nat.{pow-suc, one-le-pow, mod-mod_of_dvd, pow-le-pow_right}
use native.Mathlib.Omega.{arith}

pub pow-add : (d k : ℕ) → 2 ^ (d + k) ≡ 2 ^ d * 2 ^ k
pow-add zero k = omega (arith, ap (λ (n : ℕ). 2 ^ n) (add.zero k))
pow-add (suc d) k = omega (
  arith,
  ap (λ (n : ℕ). 2 ^ n) (add.suc d k),
  pow-suc 2 (d + k),
  pow-suc 2 d,
  ap (λ t. t * 2) (pow-add d k),
  ap (λ (t : ℕ). t * 2 ^ k) (pow-suc 2 d),
)

pow-dvd-pow : (k w : ℕ) → k ≤ w → 2 ^ k ∣ 2 ^ w
pow-dvd-pow k w h = ∣ (2 ^ (w - k), split) ∣₁
  where
    split : 2 ^ w ≡ 2 ^ k * 2 ^ (w - k)
    split = ap (λ (n : ℕ). 2 ^ n) (omega arith) ∙ pow-add k (w - k)

pub pow-le-pow : (k w : ℕ) → k ≤ w → 2 ^ k ≤ 2 ^ w
pow-le-pow k w h = pow-le-pow_right (omega arith) h

pub pow_pos : (k : ℕ) → 0 < 2 ^ k
pow_pos k = one-le-pow k 2 (omega arith)

-- A counter that wraps at a larger power of two keeps its remainder by a smaller one.
pub mod_pow_mod : (k w x : ℕ) → k ≤ w → x % 2 ^ w % 2 ^ k ≡ x % 2 ^ k
mod_pow_mod k w x h = mod-mod_of_dvd (2 ^ k) x (pow-dvd-pow k w h)
