-- ===== src/Tui/Tests.antt =====
-- The dashboard's state at concrete updates.
use chronos_x.Base.{Bool, ℕ, ◌≡◌, refl, List, [], ◌∷◌, some, arith, ltb, replicate}
use chronos_x.Types.{is_power_of_two, pass, StatUpdate}
use chronos_x.SpscQueue.{SpscQueue, init, try_push}
use chronos_x.SpscQueue.Invariant.{IsValid, init-IsValid, try_push-IsValid}
use chronos_x.Tui.{
  DashboardState, bucket_for, new_dashboard, drain_stats_queue, bucket_count, average_ns, push,
  new_sparkline, max_value, LatencyHistogram, record_latency, new_histogram,
}
use chronos_x.Tui.Summary.{new_histogram-Summary}
use chronos_x.Tui.Drain.{Drained, drain_stats_queue-Drained}
use chronos_x.Tui.Rolling.{IsGreaterThan, Shows, shown, push_all, push_all-Shows}

abbrev no_update : StatUpdate
no_update = record {
  timestamp_cycles = 0;
  packets_seen = 0;
  packets_dropped = 0;
  bytes_seen = 0;
  average_latency_ns = 0;
  last_action = pass;
  reserved0 = 0;
  reserved1 = 0;
}

abbrev first_update : StatUpdate
first_update = record no_update { packets_seen = 10; average_latency_ns = 2500 }

abbrev second_update : StatUpdate
second_update = record no_update {
  packets_seen = 20;
  packets_dropped = 3;
  average_latency_ns = 900;
}

abbrev one_queued : SpscQueue StatUpdate
one_queued = (try_push 4 no_update (init 4 no_update) first_update).1

abbrev queued : SpscQueue StatUpdate
queued = (try_push 4 no_update one_queued second_update).1

queued-IsValid : IsValid 4 queued
unfolding is_power_of_two
queued-IsValid = try_push-IsValid 4 no_update one_queued second_update (
    try_push-IsValid 4 no_update (init 4 no_update) first_update
      (init-IsValid 4 no_update refl (omega arith)))

abbrev dashboard : DashboardState ℕ
dashboard = new_dashboard 0

drain_stats_queue-Drained_example :
    (queue' : SpscQueue StatUpdate) × (state' : DashboardState ℕ) × (drain_stats_queue 4 no_update 3
        queued dashboard
      ≡ some (queue', state'))
    × Drained 4 no_update queued dashboard [] queue' state'
unfolding init try_push
drain_stats_queue-Drained_example =
    drain_stats_queue-Drained 4 no_update 3 queued dashboard [] queued-IsValid new_histogram-Summary
      (omega arith) (omega arith)

abbrev two_latencies : LatencyHistogram
two_latencies = record_latency (record_latency new_histogram 2500) 900

in_first_bucket : bucket_count two_latencies 0 ≡ 1
unfolding record_latency bucket_count bucket_for
in_first_bucket = refl

average : average_ns two_latencies ≡ 1700
unfolding record_latency average_ns
average = refl

-- One value more than the window holds.
abbrev pushed_values : List ℕ
pushed_values = 9 ∷ 4 ∷ replicate 59 1

abbrev over : ℕ → ℕ → Bool
over a b = ltb b a

over-IsGreaterThan : IsGreaterThan 0 over
over-IsGreaterThan = record {
  irreflexive = λ x. ground arith;
  transitive = λ x y w p q. ground (arith, p, q);
  negative = λ x y w p q. ground (arith, p, q);
}

push_all-Shows_example :
    Shows 0 over (shown pushed_values) (push_all 0 (new_sparkline 0) pushed_values)
push_all-Shows_example = push_all-Shows 0 over pushed_values over-IsGreaterThan (omega arith)

-- The oldest of them, the greatest, is out of sight.
greatest_shown : max_value 0 (λ a b. ltb b a) (push_all 0 (new_sparkline 0) pushed_values) ≡ 4
unfolding push_all push max_value
greatest_shown = refl
