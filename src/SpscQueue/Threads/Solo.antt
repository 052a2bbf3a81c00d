-- ===== src/SpscQueue/Threads/Solo.antt =====
-- spsc_queue.hpp with its two threads: a call that runs with no step of the other thread in between.
use chronos_x.Base.{
  ℕ, ◌≤◌, ◌≡◌, refl, [], ◌∷◌, ◌++◌, some, none, arith, u64, sub64, leb, ◌==◌, Bool-cases, inl, inr,
  if◌then◌else◌,
}
use chronos_x.SpscQueue.{try_push, try_pop}
use chronos_x.SpscQueue.Threads.{Producer, Consumer, System, Step, memory}
use chronos_x.SpscQueue.Threads.{push_load, push_full, push_write, push_store}
use chronos_x.SpscQueue.Threads.{pop_load, pop_empty, pop_read, pop_store}

pub data Side : Type 0 where
  producing consuming : Side

module _ {ℓ} {A : Type ℓ} (capacity : ℕ) (d : A) where
  -- Whose step it is.
  unfoldable pub side : {s t : System A} → Step capacity d s t → Side
  side (push_load x h e p q) = producing
  side (push_full x h e full) = producing
  side (push_write x h e room) = producing
  side (push_store x e) = producing
  side (pop_load t e p q) = consuming
  side (pop_empty t e empty) = consuming
  side (pop_read t e more) = consuming
  side (pop_store x e) = consuming

  -- What one of the two can do with no step of the other.
  pub data Alone (who : Side) (s : System A) : System A → Type ℓ where
    stays : Alone who s s
    moves :
        {t u : System A}
        → Alone who s t
        → (step : Step capacity d t u) → side step ≡ who
        → Alone who s u

  -- From a state where the producer is between calls, and the head it has seen is not ahead, steps of the
  -- producer alone, with none of the consumer's between, take it through a whole `try_push x`: the memory
  -- is then what the method leaves, `x` is sent if it says so, and the consumer is where it was and has
  -- received what it had.
  pub push_solo :
      (s : System A) (x : A)
      → s.producer ≡ Producer.ready
      → s.seen_head ≤ s.head
      → (t : System A) × Alone producing s t
        × (memory t ≡ (try_push capacity d (memory s) x).1)
        × (t.producer ≡ Producer.ready)
        × (t.sent ≡ (if (try_push capacity d (memory s) x).0 then s.sent ++ x ∷ [] else s.sent))
        × (t.consumer ≡ s.consumer)
        × (t.received ≡ s.received)
  unfolding try_push side
  push_solo s x e p = elim (Bool-cases (leb capacity (sub64 (u64 s.tail) (u64 s.head)))) [
    | inl full ↦ (
      record s { producer = Producer.ready; seen_head = s.head },
      moves (moves stays (push_load x s.head e p (omega arith)) refl) (push_full x s.head refl full)
          refl,
      rw full,
      refl,
      rw full,
      refl,
      refl,
    )
    | inr free ↦ (
      _,
      moves
          (moves (moves stays (push_load x s.head e p (omega arith)) refl)
            (push_write x s.head refl free) refl)
          (push_store x refl) refl,
      rw free (ground arith),
      refl,
      rw free,
      refl,
      refl,
    )
  ]

  -- From a state where the consumer is between calls, and the tail it has seen is not ahead, its own
  -- steps alone can take it through a whole `try_pop`: the memory is then what the method leaves, and
  -- what it returns is received.
  pub pop_solo :
      (s : System A)
      → s.consumer ≡ Consumer.ready
      → s.seen_tail ≤ s.tail
      → (t : System A) × Alone consuming s t
        × (memory t ≡ (try_pop capacity d (memory s)).1)
        × (t.consumer ≡ Consumer.ready)
        × (t.received ≡ elim (try_pop capacity d (memory s)).0 [
          | none ↦ s.received
          | some x ↦ s.received ++ x ∷ []
        ])
  unfolding try_pop side
  pop_solo s e p = elim (Bool-cases (u64 s.head == u64 s.tail)) [
    | inl empty ↦ (
      record s { consumer = Consumer.ready; seen_tail = s.tail },
      moves (moves stays (pop_load s.tail e p (omega arith)) refl) (pop_empty s.tail refl empty)
          refl,
      rw empty,
      refl,
      rw empty,
    )
    | inr more ↦ (
      _,
      moves
          (moves (moves stays (pop_load s.tail e p (omega arith)) refl) (pop_read s.tail refl more)
            refl)
          (pop_store _ refl) refl,
      rw more (ground arith),
      refl,
      rw more,
    )
  ]
