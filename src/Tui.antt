-- ===== src/Tui.antt =====
-- include/chronosx/tui.hpp: the state behind the dashboard. The type of `double` is a parameter, with its
-- zero and its comparison; what is drawn is not modelled.
pub mod Summary
pub mod Rolling
mod Tests
pub mod Drain
use chronos_x.Base.{
  ℕ, zero, suc, ◌+◌, ◌-◌, ◌/◌, ◌%◌, Bool, true, false, ◌||◌, Option, none, some, List, [], ◌∷◌,
  add64, ltb, leb, ◌==◌, if◌then◌else◌, get_or, set, replicate,
}
use chronos_x.Types.{PacketAction, pass, StatUpdate}
use chronos_x.SpscQueue.{SpscQueue, try_pop}

abbrev pub histogram_bucket_count : ℕ
histogram_bucket_count = 16

abbrev pub sparkline_window_size : ℕ
sparkline_window_size = 60

pub record LatencyHistogram : Type 0 where
  pub counts : List ℕ
  pub total_count : ℕ
  pub total_sum_ns : ℕ
  pub min_ns : ℕ
  pub max_ns : ℕ

abbrev pub new_histogram : LatencyHistogram
new_histogram = record {
  counts = replicate histogram_bucket_count 0;
  total_count = 0;
  total_sum_ns = 0;
  min_ns = 0;
  max_ns = 0;
}

unfoldable pub bucket_for : ℕ → ℕ
bucket_for ns =
    if ltb ns 1000
    then 0
    else if ltb ns 10000
    then 1
    else if ltb ns 100000
    then 2
    else if ltb ns 1000000
    then 3
    else if ltb ns 10000000
    then 4
    else if ltb ns 100000000
    then 5
    else if ltb ns 1000000000
    then 6
    else 7

unfoldable pub record_latency : LatencyHistogram → ℕ → LatencyHistogram
record_latency h latency_ns =
    let bucket = bucket_for latency_ns in
    let total_count = add64 h.total_count 1 in
    record {
      counts = set h.counts bucket (add64 (get_or h.counts bucket 0) 1);
      total_count = total_count;
      total_sum_ns = add64 h.total_sum_ns latency_ns;
      min_ns = if ltb latency_ns h.min_ns || total_count == 1 then latency_ns else h.min_ns;
      max_ns = if ltb h.max_ns latency_ns then latency_ns else h.max_ns;
    }

unfoldable pub bucket_count : LatencyHistogram → ℕ → ℕ
bucket_count h bucket = if ltb bucket histogram_bucket_count then get_or h.counts bucket 0 else 0

unfoldable pub average_ns : LatencyHistogram → ℕ
average_ns h = if ltb 0 h.total_count then h.total_sum_ns / h.total_count else 0

unfoldable pub reset_histogram : LatencyHistogram → LatencyHistogram
reset_histogram h = new_histogram

pub record Sparkline {ℓ} (A : Type ℓ) : Type ℓ where
  pub values : List A
  pub write_pos : ℕ
  pub count : ℕ

module _ {ℓ} {A : Type ℓ} (z : A) where
  abbrev pub new_sparkline : Sparkline A
  new_sparkline = record { values = replicate sparkline_window_size z; write_pos = 0; count = 0 }

  unfoldable pub push : Sparkline A → A → Sparkline A
  push s value = record {
    values = set s.values (s.write_pos % sparkline_window_size) value;
    write_pos = add64 s.write_pos 1;
    count = if ltb s.count sparkline_window_size then suc s.count else s.count;
  }

  unfoldable pub reset_sparkline : Sparkline A → Sparkline A
  reset_sparkline s = new_sparkline

  unfoldable pub at : Sparkline A → ℕ → A
  at s index =
      if leb s.count index
      then z
      else let start = if leb s.count s.write_pos then s.write_pos - s.count else 0 in
        get_or s.values ((start + index) % sparkline_window_size) z

  unfoldable pub latest : Sparkline A → A
  latest s =
      if s.count == 0 then z else get_or s.values ((s.write_pos - 1) % sparkline_window_size) z

  -- The loop of `max_value`, over the indices from `index` on.
  unfoldable pub max_loop : (A → A → Bool) → Sparkline A → ℕ → ℕ → A → A
  unfolding at
  max_loop greater s zero index best = best
  max_loop greater s (suc n) index best =
      let value = at s index in
      max_loop greater s n (suc index) (if greater value best then value else best)

  unfoldable pub max_value : (A → A → Bool) → Sparkline A → A
  unfolding max_loop
  max_value greater s = max_loop greater s s.count 0 z

pub record DashboardState (A : Type 0) : Type 0 where
  pub packets_seen : ℕ
  pub packets_dropped : ℕ
  pub bytes_seen : ℕ
  pub average_latency_ns : ℕ
  pub last_action : PacketAction
  pub throughput_mpps : A
  pub throughput_gbps : A
  pub drop_rate_percent : A
  pub histogram : LatencyHistogram
  pub throughput_sparkline : Sparkline A
  pub drop_rate_sparkline : Sparkline A
  pub rule_count : ℕ
  pub update_count : ℕ

abbrev pub new_dashboard : {A : Type 0} → A → DashboardState A
new_dashboard z = record {
  packets_seen = 0;
  packets_dropped = 0;
  bytes_seen = 0;
  average_latency_ns = 0;
  last_action = pass;
  throughput_mpps = z;
  throughput_gbps = z;
  drop_rate_percent = z;
  histogram = new_histogram;
  throughput_sparkline = new_sparkline z;
  drop_rate_sparkline = new_sparkline z;
  rule_count = 0;
  update_count = 0;
}

-- A round of `drain_stats_queue`.
unfoldable pub take_update : {A : Type 0} → DashboardState A → StatUpdate → DashboardState A
unfolding record_latency
take_update state update = record state {
  packets_seen = update.packets_seen;
  packets_dropped = update.packets_dropped;
  bytes_seen = update.bytes_seen;
  average_latency_ns = update.average_latency_ns;
  last_action = update.last_action;
  update_count = add64 state.update_count 1;
  histogram = record_latency state.histogram update.average_latency_ns;
}

-- The loop takes at most as many rounds as there is fuel; without enough the result is none.
unfoldable pub drain_stats_queue :
    {A : Type 0}
    → ℕ
    → StatUpdate
    → ℕ
    → SpscQueue StatUpdate
    → DashboardState A
    → Option (SpscQueue StatUpdate × DashboardState A)
unfolding try_pop take_update
drain_stats_queue capacity d zero queue state = none
drain_stats_queue capacity d (suc fuel) queue state =
    let (update, queue') = try_pop capacity d queue in
    elim update [
      | none ↦ some (queue', state)
      | some u ↦ drain_stats_queue capacity d fuel queue' (take_update state u)
    ]
