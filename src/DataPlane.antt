-- ===== src/DataPlane.antt =====
-- include/chronosx/data_plane.hpp: the batch loop that parses, decides, delays, corrupts, reflects
-- and recycles received frames.
-- UMEM is a list of bytes in the state of the batch; a frame pointer is an offset into it, or none.
-- `has_umem` is `umem_base != nullptr`. The output spans are lists of their full sizes. Counters
-- wrap; the two indices are tested against a span's size before `++` and are written with `suc`.
pub mod Wheel
pub mod Placed
pub mod Step
pub mod Conservation
pub mod Counters
mod Tests
use chronos_x.Base.{
  ℕ, suc, Bool, true, false, not, ◌&&◌, ◌||◌, List, [], ◌∷◌, Option, none, some, add64, ltb, leb,
  if◌then◌else◌, set, drop, length,
}
use chronos_x.Umem.{
  PacketDescriptor, delay_ns_to_ticks, corrupt_packet_payload, descriptor_within_umem, reflect,
}
use chronos_x.Types.{PacketAction}
use chronos_x.PacketParser.{PacketView, packet_ok, parse_packet}
use chronos_x.ChaosEngine.{
  ChaosRule, ChaosDecision, decide_packet_fast, pass_decision, should_drop, should_delay,
  should_corrupt,
}
use chronos_x.TimingWheel.{TimingWheel, DelayedFrame, ScheduleStatus, scheduled, schedule}

pub record ProcessedFrame : Type 0 where
  pub frame_address : ℕ
  pub frame_length : ℕ
  pub rule_id : ℕ
  pub action : PacketAction

pub record DataPlaneBatchStats : Type 0 where
  pub packets_seen : ℕ
  pub packets_dropped : ℕ
  pub packets_delayed : ℕ
  pub packets_corrupted : ℕ
  pub packets_malformed : ℕ
  pub tx_frames : ℕ
  pub recycle_frames : ℕ
  pub schedule_failures : ℕ
  pub output_overflows : ℕ
  pub invalid_descriptors : ℕ
  pub bytes_seen : ℕ

pub record DataPlaneBatchResult : Type 0 where
  pub stats : DataPlaneBatchStats
  pub tx_count : ℕ
  pub recycle_count : ℕ

abbrev pub empty_result : DataPlaneBatchResult
empty_result = record {
  stats = record {
    packets_seen = 0;
    packets_dropped = 0;
    packets_delayed = 0;
    packets_corrupted = 0;
    packets_malformed = 0;
    tx_frames = 0;
    recycle_frames = 0;
    schedule_failures = 0;
    output_overflows = 0;
    invalid_descriptors = 0;
    bytes_seen = 0;
  };
  tx_count = 0;
  recycle_count = 0;
}

-- What a batch reads and writes besides its descriptors and rules.
pub record Batch : Type 0 where
  pub umem : List ℕ
  pub timing_wheel : TimingWheel
  pub tx_output : List ProcessedFrame
  pub recycle_output : List ProcessedFrame
  pub result : DataPlaneBatchResult

abbrev pub new_batch : List ℕ → TimingWheel → List ProcessedFrame → List ProcessedFrame → Batch
new_batch umem timing_wheel tx_output recycle_output = record {
  umem = umem;
  timing_wheel = timing_wheel;
  tx_output = tx_output;
  recycle_output = recycle_output;
  result = empty_result;
}

abbrev pub is_scheduled : ScheduleStatus → Bool
is_scheduled scheduled = true
is_scheduled _ = false

-- `++` on a counter, and the batch with other counters.
abbrev pub increment : ℕ → ℕ
increment n = add64 n 1

abbrev pub count_with : (DataPlaneBatchStats → DataPlaneBatchStats) → Batch → Batch
count_with f b = record b { result = record b.result { stats = f b.result.stats } }

unfoldable pub append_recycle : ProcessedFrame → Batch → Bool × Batch
append_recycle processed b =
    if leb (length b.recycle_output) b.result.recycle_count
    then (false, count_with (λ s. record s { output_overflows = increment s.output_overflows }) b)
    else (
      true,
      record b {
        recycle_output = set b.recycle_output b.result.recycle_count processed;
        result = record b.result {
          recycle_count = suc b.result.recycle_count;
          stats = record b.result.stats {
            recycle_frames = increment b.result.stats.recycle_frames;
          };
        };
      },
    )

-- `++result.stats.packets_dropped`, and the frame is recycled.
abbrev pub drop_frame : ProcessedFrame → Batch → Batch
drop_frame processed b =
    (append_recycle processed
      (count_with (λ s. record s { packets_dropped = increment s.packets_dropped }) b)).1

-- The frame is appended to the transmit span if that has room.
unfoldable pub append_tx : ProcessedFrame → Batch → Batch
unfolding append_recycle
append_tx processed b =
    if ltb b.result.tx_count (length b.tx_output)
    then record b {
      tx_output = set b.tx_output b.result.tx_count processed;
      result = record b.result {
        tx_count = suc b.result.tx_count;
        stats = record b.result.stats { tx_frames = increment b.result.stats.tx_frames };
      };
    }
    else drop_frame processed
        (count_with (λ s. record s { output_overflows = increment s.output_overflows }) b)

abbrev pub count_malformed : Bool → DataPlaneBatchStats → DataPlaneBatchStats
count_malformed valid s = record s {
  packets_malformed = increment s.packets_malformed;
  invalid_descriptors =
      if not valid then increment s.invalid_descriptors else s.invalid_descriptors;
}

-- The frame as the parser gets it.
abbrev pub pointer : List ℕ → Option ℕ → Option (List ℕ)
pointer umem none = none
pointer umem (some frame) = some (drop frame umem)

abbrev pub processed_frame : PacketDescriptor → ChaosDecision → ProcessedFrame
processed_frame descriptor decision = record {
  frame_address = descriptor.frame_address;
  frame_length = descriptor.frame_length;
  rule_id = decision.rule_id;
  action = decision.action;
}

-- The part of the body for a frame that is sent on: it is corrupted, where that was decided,
-- reflected and appended.
unfoldable pub forward : PacketDescriptor → Option ℕ → PacketView → ChaosDecision → Batch → Batch
unfolding corrupt_packet_payload reflect append_tx should_corrupt
forward descriptor frame packet decision b =
    let (corrupted, umem) =
      if should_corrupt decision
      then corrupt_packet_payload frame packet decision.hash b.umem
      else (false, b.umem) in
    append_tx (processed_frame descriptor decision) (
      count_with
        (λ s. record s {
          packets_corrupted =
              if corrupted then increment s.packets_corrupted else s.packets_corrupted;
        })
        (record b { umem = reflect frame descriptor.frame_length umem }))

-- `descriptor_valid`
unfoldable pub is_valid : Bool → ℕ → PacketDescriptor → Bool
unfolding descriptor_within_umem
is_valid has_umem umem_size_bytes descriptor =
    has_umem && descriptor_within_umem descriptor umem_size_bytes

-- `decision`, before the packet's fate is settled.
unfoldable pub decide : List ChaosRule → PacketView → ChaosDecision
unfolding decide_packet_fast
decide rules packet = if packet_ok packet then decide_packet_fast packet rules else pass_decision

module _ (has_umem : Bool) (umem_size_bytes : ℕ) (rules : List ChaosRule)
    (tick_ns slot_count max_frames : ℕ) where
  -- The part of the body for a frame to be delayed.
  unfoldable pub delay_frame : PacketDescriptor → ChaosDecision → Batch → Batch
  unfolding append_recycle delay_ns_to_ticks schedule
  delay_frame descriptor decision b =
      let delayed : DelayedFrame = record {
        frame_address = descriptor.frame_address;
        frame_length = descriptor.frame_length;
        rule_id = decision.rule_id;
        release_tick = 0;
      } in
      let (status, wheel) =
        schedule slot_count max_frames b.timing_wheel delayed
          (delay_ns_to_ticks decision.delay_ns tick_ns) in
      let b = record b { timing_wheel = wheel } in
      if is_scheduled status
      then count_with (λ s. record s { packets_delayed = increment s.packets_delayed }) b
      else drop_frame (processed_frame descriptor decision)
          (count_with (λ s. record s { schedule_failures = increment s.schedule_failures }) b)

  -- The body from the parsed packet and the decision on.
  unfoldable pub dispatch : PacketDescriptor → Option ℕ → PacketView → ChaosDecision → Batch → Batch
  unfolding append_recycle is_valid delay_frame forward should_drop should_delay
  dispatch descriptor frame packet decision b =
      if not (is_valid has_umem umem_size_bytes descriptor) || not (packet_ok packet)
      then drop_frame (processed_frame descriptor decision)
          (count_with (count_malformed (is_valid has_umem umem_size_bytes descriptor)) b)
      else if should_drop decision
      then drop_frame (processed_frame descriptor decision) b
      else if should_delay decision
      then delay_frame descriptor decision b
      else forward descriptor frame packet decision b

  -- The body of the loop.
  unfoldable pub process_packet : PacketDescriptor → Batch → Batch
  unfolding dispatch decide parse_packet is_valid
  process_packet descriptor b =
      let b =
        count_with
          (λ s. record s {
            packets_seen = increment s.packets_seen;
            bytes_seen = add64 s.bytes_seen descriptor.frame_length;
          })
          b in
      let frame =
        if is_valid has_umem umem_size_bytes descriptor
        then some descriptor.frame_address
        else none in
      let packet = parse_packet (pointer b.umem frame) descriptor.frame_length in
      let decision = decide rules packet in dispatch descriptor frame packet decision b

  unfoldable pub process_loop : List PacketDescriptor → Batch → Batch
  unfolding process_packet
  process_loop [] b = b
  process_loop (descriptor ∷ descriptors) b = process_loop descriptors (process_packet descriptor b)

  -- The batch's outcome: memory, wheel, spans and result.
  unfoldable pub process_packet_batch :
      List ℕ
      → List PacketDescriptor
      → TimingWheel
      → List ProcessedFrame
      → List ProcessedFrame
      → Batch
  unfolding process_loop
  process_packet_batch umem rx_descriptors timing_wheel tx_output recycle_output =
      process_loop rx_descriptors (new_batch umem timing_wheel tx_output recycle_output)
