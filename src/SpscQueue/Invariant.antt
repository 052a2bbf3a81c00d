-- ===== src/SpscQueue/Invariant.antt =====
-- The representation invariant of the queue, kept by every method; the counters may wrap.
use chronos_x.Base.{
  ℕ, ◌+◌, ◌%◌, ◌≤◌, ◌<◌, ◌≡◌, ap, ◌∙◌, true, arith, bit_and, sub64, u64_mod, length, length-set,
  length-replicate,
}
use chronos_x.Types.{is_power_of_two}
use chronos_x.Types.PowerOfTwo.{bit_and_capacity, capacity_pos, u64-mod_capacity}
use chronos_x.SpscQueue.{SpscQueue, index_mask, init, try_push, try_pop, size_approx}

pub record IsValid {ℓ} {A : Type ℓ} (capacity : ℕ) (q : SpscQueue A) : Type ℓ where
  pub power : is_power_of_two capacity ≡ true
  pub word : capacity < u64_mod
  pub storage : length q.buffer ≡ capacity
  pub head_word : q.head < u64_mod
  pub tail_word : q.tail < u64_mod
  pub bounded : sub64 q.tail q.head ≤ capacity

module _ {ℓ} {A : Type ℓ} (capacity : ℕ) (d : A) where
  pub init-IsValid :
      is_power_of_two capacity ≡ true → capacity < u64_mod → IsValid capacity (init capacity d)
  unfolding init
  init-IsValid p w = record {
    power = p;
    word = w;
    storage = length-replicate capacity d;
    head_word = omega arith;
    tail_word = omega arith;
    bounded = omega arith;
  }

  pub try_push-IsValid :
      (q : SpscQueue A) (x : A) → IsValid capacity q → IsValid capacity (try_push capacity d q x).1
  unfolding try_push
  try_push-IsValid q x v =
      ground (arith, length-set q.buffer (bit_and q.tail (index_mask capacity)) x)

  pub try_pop-IsValid :
      (q : SpscQueue A) → IsValid capacity q → IsValid capacity (try_pop capacity d q).1
  unfolding try_pop
  try_pop-IsValid q v = ground arith

-- The index that a counter selects is its remainder, and lies inside the buffer.
pub index-lt {ℓ} :
    {A : Type ℓ} {capacity : ℕ} {q : SpscQueue A} (x : ℕ)
    → IsValid capacity q
    → bit_and x (index_mask capacity) < length q.buffer
index-lt {capacity = c} x v =
    rw (bit_and_capacity c x v.power, v.storage) (omega (arith, capacity_pos c v.power))

-- The slot that a push writes: `size_approx` steps round the ring from the head.
pub tail_index {ℓ} :
    {A : Type ℓ} {capacity : ℕ} {q : SpscQueue A}
    → IsValid capacity q
    → bit_and q.tail (index_mask capacity) ≡ (q.head + size_approx q) % capacity
unfolding size_approx
tail_index {capacity = c} {q = q} v =
    bit_and_capacity c q.tail v.power
    ∙ ap (λ t. t % c) unwrap
    ∙ u64-mod_capacity c (q.head + sub64 q.tail q.head) v.power v.word
  where
    open v use {head_word, tail_word}

    unwrap : q.tail ≡ (q.head + sub64 q.tail q.head) % u64_mod
    unwrap = omega arith
