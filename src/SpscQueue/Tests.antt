-- ===== src/SpscQueue/Tests.antt =====
-- The queue's theorems at concrete inputs, and runs of its methods.
use chronos_x.Base.{
  ℕ, ◌-◌, ◌^◌, ◌≤◌, ◌≡◌, ◌≢◌, refl, true, false, List, [], ◌∷◌, ◌++◌, some, none, arith, length,
  bit_and, u64,
}
use chronos_x.Types.{is_power_of_two}
use chronos_x.Window.{window}
use chronos_x.SpscQueue.{SpscQueue, index_mask, try_push, try_pop}
use chronos_x.SpscQueue.Fifo.{Op, push, pop, pushed, popped}
use chronos_x.SpscQueue.Fifo
use chronos_x.SpscQueue.Invariant.{IsValid}
use chronos_x.SpscQueue.Refine.{run, run_refines}
use chronos_x.SpscQueue.Threads.{Producer, Consumer, System, start, Reach, here, next, memory}
use chronos_x.SpscQueue.Threads.{push_load, push_write, push_store, pop_load}
use chronos_x.SpscQueue.Threads.Safety.{Reach-fifo, no_race}
use chronos_x.SpscQueue.Threads.Solo.{Alone, producing, push_solo}

-- Two slots, with the counters about to wrap.
abbrev wrapping : SpscQueue ℕ
wrapping = record { buffer = 8 ∷ 7 ∷ []; head = 2 ^ 64 - 1; tail = 2 ^ 64 - 1 }

wrapping-IsValid : IsValid 2 wrapping
unfolding is_power_of_two
wrapping-IsValid = record {
  power = refl;
  word = omega arith;
  storage = refl;
  head_word = omega arith;
  tail_word = omega arith;
  bounded = omega arith;
}

abbrev script : List (Op ℕ)
script = push 1 ∷ push 2 ∷ push 3 ∷ pop ∷ pop ∷ pop ∷ []

run-wrapping :
    run 2 0 wrapping script
    ≡ pushed true
      ∷ pushed true
      ∷ pushed false
      ∷ popped (some 1)
      ∷ popped (some 2)
      ∷ popped none
      ∷ []
unfolding run try_push try_pop
run-wrapping = refl

run_refines_example : run 2 0 wrapping script ≡ Fifo.run 2 [] script
run_refines_example = run_refines 2 0 script wrapping wrapping-IsValid

-- One element pushed, a second one being pushed, and a pop begun.
abbrev one_sent : System ℕ
one_sent = record (start 2 0) { buffer = 5 ∷ 0 ∷ []; tail = 1; sent = 5 ∷ [] }

one_sent-Reach : Reach 2 0 (start 2 0) one_sent
one_sent-Reach =
    next
      (next (next here (push_load 5 0 refl (omega arith) (omega arith))) (push_write 5 0 refl refl))
      (push_store 5 refl)

abbrev both_busy : System ℕ
both_busy = record one_sent {
  producer = Producer.loaded 6 0;
  consumer = Consumer.loaded 1;
  seen_tail = 1;
}

both_busy-Reach : Reach 2 0 (start 2 0) both_busy
both_busy-Reach =
    next (next one_sent-Reach (push_load 6 0 refl (omega arith) (omega arith)))
      (pop_load 1 refl (omega arith) (omega arith))

power_two : is_power_of_two 2 ≡ true
unfolding is_power_of_two
power_two = refl

Reach-fifo_example :
    (5 ∷ [] ≡ [] ++ window 0 one_sent.buffer 2 0 1) × (length (window 0 one_sent.buffer 2 0 1) ≤ 2)
Reach-fifo_example = Reach-fifo 2 0 power_two (omega arith) one_sent-Reach

no_race_example : bit_and (u64 1) (index_mask 2) ≢ bit_and (u64 0) (index_mask 2)
no_race_example = no_race 2 0 power_two (omega arith) 6 0 1 both_busy-Reach refl refl refl refl

push_solo_example :
    (t : System ℕ) × Alone 2 0 producing one_sent t
    × (memory t ≡ (try_push 2 0 (memory one_sent) 6).1)
    × (t.producer ≡ Producer.ready)
    × (t.sent ≡ 5 ∷ 6 ∷ [])
    × (t.consumer ≡ one_sent.consumer)
    × (t.received ≡ one_sent.received)
unfolding try_push
push_solo_example = push_solo 2 0 one_sent 6 refl (omega arith)
