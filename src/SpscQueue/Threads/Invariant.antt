-- ===== src/SpscQueue/Threads/Invariant.antt =====
-- include/chronosx/spsc_queue.hpp: the invariant of the ring between its two threads.
use chronos_x.Base.{ℕ, ◌+◌, ◌-◌, ◌%◌, ◌≤◌, ◌<◌, ◌≡◌, ◌++◌, length, get_or}
use chronos_x.Window.{window}
use chronos_x.SpscQueue.Threads.{Producer, Consumer, System}

pub record Inv {ℓ} {A : Type ℓ} (capacity : ℕ) (d : A) (s : System A) : Type ℓ where
  pub storage : length s.buffer ≡ capacity
  pub head_seen : s.head ≤ s.seen_tail
  pub seen_tail_le : s.seen_tail ≤ s.tail
  pub seen_head_le : s.seen_head ≤ s.head
  pub room : s.tail ≤ s.seen_head + capacity
  pub fifo : s.sent ≡ s.received ++ window d s.buffer capacity s.head (s.tail - s.head)
  pub loaded_head : (x : A) (h : ℕ) → s.producer ≡ Producer.loaded x h → h ≡ s.seen_head
  pub written_room : (x : A) → s.producer ≡ Producer.written x → s.tail < s.seen_head + capacity
  pub written_slot :
      (x : A) → s.producer ≡ Producer.written x → get_or s.buffer (s.tail % capacity) d ≡ x
  pub loaded_tail : (t : ℕ) → s.consumer ≡ Consumer.loaded t → t ≡ s.seen_tail
  pub taken_more : (x : A) → s.consumer ≡ Consumer.taken x → s.head < s.seen_tail
  pub taken_slot :
      (x : A) → s.consumer ≡ Consumer.taken x → get_or s.buffer (s.head % capacity) d ≡ x
