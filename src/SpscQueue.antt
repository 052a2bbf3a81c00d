-- ===== src/SpscQueue.antt =====
-- include/chronosx/spsc_queue.hpp: the bounded single-producer single-consumer ring. The methods
-- are modelled here as one thread runs them; `Threads` interleaves the two threads' accesses.
-- `A` is the element type, `d` its value-initialised element, and the counters are `std::size_t`.
pub mod Fifo
pub mod Invariant
pub mod Refine
pub mod Threads
mod Tests
use chronos_x.Base.{
  ℕ, ◌-◌, Bool, true, false, Option, none, some, List, bit_and, add64, sub64, leb, ◌==◌,
  if◌then◌else◌, get_or, set, replicate,
}

pub record SpscQueue {ℓ} (A : Type ℓ) : Type ℓ where
  pub buffer : List A
  pub head : ℕ
  pub tail : ℕ

abbrev pub index_mask : ℕ → ℕ
index_mask capacity = capacity - 1

module _ {ℓ} {A : Type ℓ} (capacity : ℕ) (d : A) where
  unfoldable pub init : SpscQueue A
  init = record { buffer = replicate capacity d; head = 0; tail = 0 }

  unfoldable pub try_push : SpscQueue A → A → Bool × SpscQueue A
  try_push q item = if leb capacity (sub64 q.tail q.head) then (false, q) else (
    true,
    record q {
      buffer = set q.buffer (bit_and q.tail (index_mask capacity)) item;
      tail = add64 q.tail 1;
    },
  )

  unfoldable pub try_pop : SpscQueue A → Option A × SpscQueue A
  try_pop q = if q.head == q.tail then (none, q) else (
    some (get_or q.buffer (bit_and q.head (index_mask capacity)) d),
    record q { head = add64 q.head 1 },
  )

unfoldable pub size_approx {ℓ} : {A : Type ℓ} → SpscQueue A → ℕ
size_approx q = sub64 q.tail q.head

unfoldable pub empty_approx {ℓ} : {A : Type ℓ} → SpscQueue A → Bool
unfolding size_approx
empty_approx q = size_approx q == 0

unfoldable pub full_approx {ℓ} : {A : Type ℓ} → ℕ → SpscQueue A → Bool
unfolding size_approx
full_approx capacity q = leb capacity (size_approx q)
