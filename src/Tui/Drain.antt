-- ===== src/Tui/Drain.antt =====
-- include/chronosx/tui.hpp: `drain_stats_queue` empties the ring into the dashboard.
use chronos_x.Base.{
  ℕ, zero, suc, ◌+◌, ◌<◌, ◌≡◌, refl, ap, ◌∙◌, List, [], ◌∷◌, none, some, arith, length, u64_mod,
}
use chronos_x.Types.{StatUpdate}
use chronos_x.SpscQueue.{SpscQueue, try_pop}
use chronos_x.SpscQueue.Fifo.{dequeue}
use chronos_x.SpscQueue.Invariant.{IsValid, try_pop-IsValid}
use chronos_x.SpscQueue.Refine.{contents, try_pop_refines}
use chronos_x.Tui.{DashboardState, take_update, drain_stats_queue}
use chronos_x.Tui.Summary.{Summary, record_latency-Summary}

-- The state after some updates, oldest first.
unfoldable pub take_updates : {A : Type 0} → DashboardState A → List StatUpdate → DashboardState A
take_updates state [] = state
take_updates state (update ∷ updates) = take_updates (take_update state update) updates

-- The latencies of updates, the newest first, before others.
unfoldable pub latencies : List StatUpdate → List ℕ → List ℕ
latencies [] samples = samples
latencies (update ∷ updates) samples = latencies updates (update.average_latency_ns ∷ samples)

take_updates-Summary :
    {A : Type 0} (state : DashboardState A) (updates : List StatUpdate) (samples : List ℕ)
    → length samples + length updates < u64_mod
    → Summary samples state.histogram
    → Summary (latencies updates samples) (take_updates state updates).histogram
unfolding take_updates latencies take_update
take_updates-Summary state [] samples few s = s
take_updates-Summary state (update ∷ updates) samples few s =
    take_updates-Summary (take_update state update) updates (update.average_latency_ns ∷ samples)
      (omega (arith, few))
      (record_latency-Summary samples state.histogram update.average_latency_ns (omega (arith, few))
        s)

module _ {A : Type 0} (capacity : ℕ) (d : StatUpdate) where
  pub record Drained (queue : SpscQueue StatUpdate) (state : DashboardState A) (samples : List ℕ)
      (queue' : SpscQueue StatUpdate) (state' : DashboardState A) : Type 0 where
    pub valid : IsValid capacity queue'
    pub empty : contents capacity d queue' ≡ []
    pub updates : state' ≡ take_updates state (contents capacity d queue)
    pub histogram : Summary (latencies (contents capacity d queue) samples) state'.histogram

  drained_state :
      (fuel : ℕ) (queue : SpscQueue StatUpdate) (state : DashboardState A) (items : List StatUpdate)
      → contents capacity d queue ≡ items
      → length items < fuel
      → IsValid capacity queue
      → (queue' : SpscQueue StatUpdate) × (drain_stats_queue capacity d fuel queue state
          ≡ some (queue', take_updates state items))
        × IsValid capacity queue'
        × (contents capacity d queue' ≡ [])
  unfolding drain_stats_queue take_updates dequeue
  drained_state zero queue state items e h v = absurd (omega (arith, h))
  drained_state (suc fuel) queue state [] e h v =
      let (out, queue') = try_pop capacity d queue in
      let popped : (out, contents capacity d queue') ≡ (none, []) =
        try_pop_refines capacity d queue v ∙ ap dequeue e in
      let none_out : out ≡ none = ap (λ p. p.0) popped in
      (
        queue',
        rw (none_out, drain_stats_queue) refl,
        try_pop-IsValid capacity d queue v,
        ap (λ p. p.1) popped,
      )
  drained_state (suc fuel) queue state (update ∷ items) e h v =
      let (out, queue') = try_pop capacity d queue in
      let popped : (out, contents capacity d queue') ≡ (some update, items) =
        try_pop_refines capacity d queue v ∙ ap dequeue e in
      let some_out : out ≡ some update = ap (λ p. p.0) popped in
      let (last, result, valid, empty) =
        drained_state fuel queue' (take_update state update) items (ap (λ p. p.1) popped)
          (omega (arith, h)) (try_pop-IsValid capacity d queue v) in
      (last, rw (some_out, drain_stats_queue) result, valid, empty)

  -- For a valid ring, a histogram that summarises `samples` and fewer than 2 ^ 64 latencies in all: on fuel
  -- for one round more than the ring has elements, the loop ends, leaves the ring empty and
  -- the state as the updates in order make it, and the histogram summarises the latencies
  -- of the updates as well: every bucket has the number of those within its bounds, with the least, the
  -- greatest and the sum modulo 2 ^ 64 of them all.
  pub drain_stats_queue-Drained :
      (fuel : ℕ) (queue : SpscQueue StatUpdate) (state : DashboardState A) (samples : List ℕ)
      → IsValid capacity queue
      → Summary samples state.histogram
      → length samples + length (contents capacity d queue) < u64_mod
      → length (contents capacity d queue) < fuel
      → (queue' : SpscQueue StatUpdate) × (state' : DashboardState A) × (drain_stats_queue capacity
            d fuel queue state
          ≡ some (queue', state'))
        × Drained queue state samples queue' state'
  drain_stats_queue-Drained fuel queue state samples v s few enough =
      let items = contents capacity d queue in
      let (queue', result, valid, empty) = drained_state fuel queue state items refl enough v in
      (
        queue',
        take_updates state items,
        result,
        record {
          valid = valid;
          empty = empty;
          updates = refl;
          histogram = take_updates-Summary state items samples few s;
        },
      )
