-- ===== src/DataPlane/Counters.antt =====
-- include/chronosx/data_plane.hpp: the counters of a batch.
use chronos_x.Base.{
  ℕ, suc, ◌+◌, ◌<◌, ◌≤◌, ◌≡◌, refl, Bool, not, ◌||◌, List, [], ◌∷◌, Option, none, some, arith,
  length, if◌then◌else◌, Bool-cases, inl, inr, u64_mod, add64,
}
use native.Mathlib.Nat.{zero-add, add-zero}
use chronos_x.PacketParser.{PacketView, packet_ok, parse_packet}
use chronos_x.ChaosEngine.{ChaosRule, ChaosDecision, should_drop, should_delay}
use chronos_x.TimingWheel.{TimingWheel, DelayedFrame, schedule}
use chronos_x.Umem.{PacketDescriptor, delay_ns_to_ticks}
use chronos_x.DataPlane.{
  Batch, ProcessedFrame, append_recycle, append_tx, drop_frame, delay_frame, forward, dispatch,
  process_packet, process_loop, process_packet_batch, pointer, is_valid, decide, is_scheduled,
  processed_frame, count_with, increment, new_batch,
}

-- After `seen` packets, of which `settled` have been sent, delayed or dropped.
pub record Counted (seen settled : ℕ) (b : Batch) : Type 0 where
  pub all_seen : b.result.stats.packets_seen ≡ seen
  pub all_settled :
      b.result.stats.tx_frames + b.result.stats.packets_delayed + b.result.stats.packets_dropped
      ≡ settled
  pub sent : b.result.stats.tx_frames ≡ b.result.tx_count
  pub recycled : b.result.stats.recycle_frames ≡ b.result.recycle_count
  pub dropped_at_least : b.result.stats.recycle_frames ≤ b.result.stats.packets_dropped

drop_frame-Counted :
    (n : ℕ) (p : ProcessedFrame) (b : Batch)
    → suc n < u64_mod
    → Counted (suc n) n b
    → Counted (suc n) (suc n) (drop_frame p b)
unfolding append_recycle
drop_frame-Counted n p b h c =
    ground (arith, c.all_seen, c.all_settled, c.sent, c.recycled, c.dropped_at_least)

append_tx-Counted :
    (n : ℕ) (p : ProcessedFrame) (b : Batch)
    → suc n < u64_mod
    → Counted (suc n) n b
    → Counted (suc n) (suc n) (append_tx p b)
unfolding append_tx
append_tx-Counted n p b h c =
    ground (arith, c.all_seen, c.all_settled, c.sent, c.recycled, c.dropped_at_least)

forward-Counted :
    (n : ℕ) (d : PacketDescriptor) (frame : Option ℕ) (packet : PacketView)
    (decision : ChaosDecision) (b : Batch)
    → suc n < u64_mod
    → Counted (suc n) n b
    → Counted (suc n) (suc n) (forward d frame packet decision b)
unfolding forward
forward-Counted n d frame packet decision b h c =
    append_tx-Counted n (processed_frame d decision) _ h (record {
      all_seen = c.all_seen;
      all_settled = c.all_settled;
      sent = c.sent;
      recycled = c.recycled;
      dropped_at_least = c.dropped_at_least;
    })

module _ (has_umem : Bool) (umem_size_bytes : ℕ) (rules : List ChaosRule)
    (tick_ns slot_count max_frames : ℕ) where
  delay_frame-Counted :
      (n : ℕ) (d : PacketDescriptor) (decision : ChaosDecision) (b : Batch)
      → suc n < u64_mod
      → Counted (suc n) n b
      → Counted
          (suc n)
          (suc n)
          (delay_frame has_umem umem_size_bytes rules tick_ns slot_count max_frames d decision b)
  unfolding delay_frame
  delay_frame-Counted n d decision b h c =
      elim (Bool-cases
        (is_scheduled (schedule slot_count max_frames b.timing_wheel delayed delay).0)) [
          | inl kept ↦ rw kept (record {
            all_seen = c.all_seen;
            all_settled = omega (arith, c.all_settled);
            sent = c.sent;
            recycled = c.recycled;
            dropped_at_least = c.dropped_at_least;
          })
          | inr refused ↦ rw refused (
              drop_frame-Counted n (processed_frame d decision) _ h (record {
                all_seen = c.all_seen;
                all_settled = c.all_settled;
                sent = c.sent;
                recycled = c.recycled;
                dropped_at_least = c.dropped_at_least;
              }))
        ]
    where
      delayed : DelayedFrame
      delayed = record {
        frame_address = d.frame_address;
        frame_length = d.frame_length;
        rule_id = decision.rule_id;
        release_tick = 0;
      }

      delay : ℕ
      delay = delay_ns_to_ticks decision.delay_ns tick_ns

  dispatch-Counted :
      (n : ℕ) (d : PacketDescriptor) (frame : Option ℕ) (packet : PacketView)
      (decision : ChaosDecision) (b : Batch)
      → suc n < u64_mod
      → Counted (suc n) n b
      → Counted (suc n) (suc n) (
          dispatch has_umem umem_size_bytes rules tick_ns slot_count max_frames d frame packet
            decision b)
  unfolding dispatch
  dispatch-Counted n d frame packet decision b h c =
      elim (Bool-cases (not (is_valid has_umem umem_size_bytes d) || not (packet_ok packet))) [
        | inl bad ↦ rw bad (
            drop_frame-Counted n (processed_frame d decision) _ h (record {
              all_seen = c.all_seen;
              all_settled = c.all_settled;
              sent = c.sent;
              recycled = c.recycled;
              dropped_at_least = c.dropped_at_least;
            }))
        | inr good ↦ rw good elim (Bool-cases (should_drop decision)) [
          | inl y ↦ rw y (drop_frame-Counted n (processed_frame d decision) b h c)
          | inr no_drop ↦ rw no_drop elim (Bool-cases (should_delay decision)) [
            | inl y ↦ rw y (delay_frame-Counted n d decision b h c)
            | inr no_delay ↦ rw no_delay (forward-Counted n d frame packet decision b h c)
          ]
        ]
      ]

  process_packet-Counted :
      (n : ℕ) (d : PacketDescriptor) (b : Batch)
      → suc n < u64_mod
      → Counted n n b
      → Counted
          (suc n)
          (suc n)
          (process_packet has_umem umem_size_bytes rules tick_ns slot_count max_frames d b)
  unfolding process_packet
  process_packet-Counted n d b h c =
      dispatch-Counted n d frame packet (decide rules packet) seen h (record {
        all_seen = omega (arith, c.all_seen);
        all_settled = c.all_settled;
        sent = c.sent;
        recycled = c.recycled;
        dropped_at_least = c.dropped_at_least;
      })
    where
      seen : Batch
      seen =
          count_with
            (λ s. record s {
              packets_seen = increment s.packets_seen;
              bytes_seen = add64 s.bytes_seen d.frame_length;
            })
            b

      frame : Option ℕ
      frame = if is_valid has_umem umem_size_bytes d then some d.frame_address else none

      packet : PacketView
      packet = parse_packet (pointer seen.umem frame) d.frame_length

  process_loop-Counted :
      (ds : List PacketDescriptor) (n : ℕ) (b : Batch)
      → n + length ds < u64_mod
      → Counted n n b
      → Counted
          (n + length ds)
          (n + length ds)
          (process_loop has_umem umem_size_bytes rules tick_ns slot_count max_frames ds b)
  unfolding process_loop
  process_loop-Counted [] n b h c = rw (add-zero n) c
  process_loop-Counted (d ∷ ds) n b h c = rw later (
      process_loop-Counted ds (suc n) _ (omega arith)
        (process_packet-Counted n d b (omega arith) c))
    where
      later : n + suc (length ds) ≡ suc n + length ds
      later = omega arith

  -- The counters of a batch of fewer than 2 ^ 64 descriptors: each descriptor is seen, and counted once as sent, delayed or dropped; the
  -- counts of sent and of recycled frames are the numbers of entries written to the two spans; and no more are recycled than dropped.
  pub process_packet_batch-Counted :
      (umem : List ℕ) (ds : List PacketDescriptor) (wheel : TimingWheel)
      (tx recycle : List ProcessedFrame)
      → length ds < u64_mod
      → Counted (length ds) (length ds) (
          process_packet_batch has_umem umem_size_bytes rules tick_ns slot_count max_frames umem ds
            wheel tx recycle)
  unfolding process_packet_batch
  process_packet_batch-Counted umem ds wheel tx recycle h = rw (zero-add (length ds)) at (
      process_loop-Counted ds 0 (new_batch umem wheel tx recycle) (omega arith) (record {
        all_seen = refl;
        all_settled = refl;
        sent = refl;
        recycled = refl;
        dropped_at_least = omega arith;
      }))
