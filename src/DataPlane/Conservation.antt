-- ===== src/DataPlane/Conservation.antt =====
-- include/chronosx/data_plane.hpp: where the frames of a batch are at its end.
use chronos_x.Base.{
  ℕ, ◌+◌, ◌<◌, ◌≤◌, ◌≡◌, refl, ap, ◌∙◌, Bool, not, ◌||◌, List, [], ◌∷◌, Option, none, some, arith,
  length, take, if◌then◌else◌, Bool-cases, inl, inr, u64_mod, add64,
}
use native.Mathlib.Nat.{zero-add}
use chronos_x.PacketParser.{PacketView, packet_ok, parse_packet}
use chronos_x.ChaosEngine.{ChaosRule, ChaosDecision, should_drop, should_delay}
use chronos_x.TimingWheel.{TimingWheel, DelayedFrame, schedule}
use chronos_x.TimingWheel.Invariant.{IsValid}
use chronos_x.Umem.{PacketDescriptor, delay_ns_to_ticks}
use chronos_x.DataPlane.{
  Batch, ProcessedFrame, delay_frame, dispatch, process_packet, process_loop, process_packet_batch,
  pointer, is_valid, decide, is_scheduled, processed_frame, count_with, increment, new_batch,
}
use chronos_x.DataPlane.Wheel.{weigh, wheel_weight}
use chronos_x.DataPlane.Placed.{
  BatchOk, Placed, held, processed_weight, descriptor_weight, prepared-Placed, recount-BatchOk,
  drop_frame-Placed, forward-Placed,
}
use chronos_x.DataPlane.Step.{scheduled-Placed, refused-Placed}

module _ (has_umem : Bool) (umem_size_bytes : ℕ) (rules : List ChaosRule)
    (tick_ns slot_count max_frames : ℕ) (weight : ℕ → ℕ) where
  delay_frame-Placed :
      (d : PacketDescriptor) (decision : ChaosDecision) (b : Batch)
      → BatchOk slot_count max_frames b
      → Placed slot_count max_frames weight
          (weight d.frame_address)
          b
          (delay_frame has_umem umem_size_bytes rules tick_ns slot_count max_frames d decision b)
  unfolding delay_frame
  delay_frame-Placed d decision b v =
      elim (Bool-cases
        (is_scheduled (schedule slot_count max_frames b.timing_wheel delayed delay).0)) [
          | inl kept ↦
              rw kept (scheduled-Placed slot_count max_frames weight b delayed delay _ v kept)
          | inr refused ↦ rw refused (
              refused-Placed slot_count max_frames weight b delayed delay _
                (processed_frame d decision) v refused)
        ]
    where
      delayed : DelayedFrame
      delayed = record {
        frame_address = d.frame_address;
        frame_length = d.frame_length;
        rule_id = decision.rule_id;
        release_tick = 0;
      }

      delay : ℕ
      delay = delay_ns_to_ticks decision.delay_ns tick_ns

  dispatch-Placed :
      (d : PacketDescriptor) (frame : Option ℕ) (packet : PacketView) (decision : ChaosDecision)
      (b : Batch)
      → BatchOk slot_count max_frames b
      → Placed slot_count max_frames weight (weight d.frame_address) b (
          dispatch has_umem umem_size_bytes rules tick_ns slot_count max_frames d frame packet
            decision b)
  unfolding dispatch
  dispatch-Placed d frame packet decision b v =
      elim (Bool-cases (not (is_valid has_umem umem_size_bytes d) || not (packet_ok packet))) [
        | inl bad ↦
            rw bad
              (drop_frame-Placed slot_count max_frames weight (processed_frame d decision) _ b v)
        | inr good ↦ rw good elim (Bool-cases (should_drop decision)) [
          | inl y ↦
              rw y
                (drop_frame-Placed slot_count max_frames weight (processed_frame d decision) _ b v)
          | inr n ↦ rw n elim (Bool-cases (should_delay decision)) [
            | inl y ↦ rw y (delay_frame-Placed d decision b v)
            | inr n ↦ rw n (forward-Placed slot_count max_frames weight d frame packet decision b v)
          ]
        ]
      ]

  process_packet-Placed :
      (d : PacketDescriptor) (b : Batch)
      → BatchOk slot_count max_frames b
      → Placed slot_count max_frames weight
          (weight d.frame_address)
          b
          (process_packet has_umem umem_size_bytes rules tick_ns slot_count max_frames d b)
  unfolding process_packet held
  process_packet-Placed d b v =
      prepared-Placed slot_count max_frames weight (weight d.frame_address) b seen _ refl refl refl
        refl
        (dispatch-Placed d frame packet (decide rules packet) seen
          (recount-BatchOk slot_count max_frames _ b v))
    where
      seen : Batch
      seen =
          count_with
            (λ s. record s {
              packets_seen = increment s.packets_seen;
              bytes_seen = add64 s.bytes_seen d.frame_length;
            })
            b

      frame : Option ℕ
      frame = if is_valid has_umem umem_size_bytes d then some d.frame_address else none

      packet : PacketView
      packet = parse_packet (pointer seen.umem frame) d.frame_length

  -- The loop, on a recycle span with room for the descriptors left.
  process_loop-held :
      (ds : List PacketDescriptor) (b : Batch)
      → BatchOk slot_count max_frames b
      → b.result.recycle_count + length ds ≤ length b.recycle_output
      → held weight (process_loop has_umem umem_size_bytes rules tick_ns slot_count max_frames ds b)
        ≡ held weight b + weigh (descriptor_weight weight) ds
  unfolding process_loop weigh
  process_loop-held [] b v room = omega arith
  process_loop-held (d ∷ ds) b v room =
      let p = process_packet-Placed d b v in
      omega (
        arith,
        p.exactly (omega arith),
        process_loop-held ds _ p.valid (omega (arith, p.recycled, p.same_recycle)),
      )

  process_loop-at_most :
      (ds : List PacketDescriptor) (b : Batch)
      → BatchOk slot_count max_frames b
      → held weight (process_loop has_umem umem_size_bytes rules tick_ns slot_count max_frames ds b)
        ≤ held weight b + weigh (descriptor_weight weight) ds
  unfolding process_loop weigh
  process_loop-at_most [] b v = omega arith
  process_loop-at_most (d ∷ ds) b v =
      let p = process_packet-Placed d b v in
      omega (arith, p.at_most, process_loop-at_most ds _ p.valid)

  -- For a valid wheel whose clock is not within a turn of its end, and a recycle span with an entry for
  -- each descriptor: by any weight on addresses, the first `tx_count` entries of the transmit span, the
  -- first `recycle_count` entries of the recycle span and the wheel together weigh, after the batch, what
  -- the received frames and the wheel weighed before it.
  pub process_packet_batch-conserves :
      (umem : List ℕ) (ds : List PacketDescriptor) (wheel : TimingWheel)
      (tx recycle : List ProcessedFrame)
      → IsValid slot_count max_frames wheel
      → wheel.current_tick + slot_count < u64_mod
      → length ds ≤ length recycle
      → let b =
          process_packet_batch has_umem umem_size_bytes rules tick_ns slot_count max_frames umem ds
            wheel tx recycle in
        weigh (processed_weight weight) (take b.result.tx_count b.tx_output)
          + weigh (processed_weight weight) (take b.result.recycle_count b.recycle_output)
          + wheel_weight weight b.timing_wheel
        ≡ wheel_weight weight wheel + weigh (descriptor_weight weight) ds
  unfolding process_packet_batch held weigh
  process_packet_batch-conserves umem ds wheel tx recycle v clock room =
      process_loop-held ds (new_batch umem wheel tx recycle)
        (record { wheel = v; clock = clock; tx_fits = omega arith; recycle_fits = omega arith })
        (omega arith)
      ∙ ap (λ t. t + weigh (descriptor_weight weight) ds) (zero-add (wheel_weight weight wheel))

  -- For a valid wheel whose clock is not within a turn of its end, and spans of any size, full ones too:
  -- by any weight on addresses, the two spans' entries and the wheel weigh, after the batch, at most
  -- what the received frames and the wheel weighed before it.
  pub process_packet_batch-duplicates_none :
      (umem : List ℕ) (ds : List PacketDescriptor) (wheel : TimingWheel)
      (tx recycle : List ProcessedFrame)
      → IsValid slot_count max_frames wheel
      → wheel.current_tick + slot_count < u64_mod
      → let b =
          process_packet_batch has_umem umem_size_bytes rules tick_ns slot_count max_frames umem ds
            wheel tx recycle in
        weigh (processed_weight weight) (take b.result.tx_count b.tx_output)
          + weigh (processed_weight weight) (take b.result.recycle_count b.recycle_output)
          + wheel_weight weight b.timing_wheel
        ≤ wheel_weight weight wheel + weigh (descriptor_weight weight) ds
  unfolding process_packet_batch held weigh
  process_packet_batch-duplicates_none umem ds wheel tx recycle v clock =
      rw (zero-add (wheel_weight weight wheel)) at (
        process_loop-at_most ds (new_batch umem wheel tx recycle)
          (record { wheel = v; clock = clock; tx_fits = omega arith; recycle_fits = omega arith }))
