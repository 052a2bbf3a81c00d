-- ===== src/DataPlane/Tests.antt =====
-- The data plane's theorems at a concrete batch, and runs of its parts.
use chronos_x.Base.{ℕ, suc, ◌+◌, ◌<◌, ◌≡◌, refl, true, List, [], ◌∷◌, arith, take, u64_mod}
use chronos_x.Types.{pass, is_power_of_two}
use chronos_x.PacketParser.Frames.{Sent, udp_frame}
use chronos_x.TimingWheel.{TimingWheel, init}
use chronos_x.TimingWheel.Invariant.{IsValid, init-IsValid}
use chronos_x.Umem.{PacketDescriptor}
use chronos_x.DataPlane.{ProcessedFrame, Batch, process_packet_batch}
use chronos_x.DataPlane.Wheel.{weigh, wheel_weight}
use chronos_x.DataPlane.Placed.{processed_weight, descriptor_weight}
use chronos_x.DataPlane.Conservation.{process_packet_batch-conserves}
use chronos_x.DataPlane.Counters.{Counted, process_packet_batch-Counted}

abbrev sent : Sent
sent = record {
  destination_mac = 1;
  source_mac = 2;
  service = 0;
  identification = 1;
  time_to_live = 64;
  header_checksum = 0;
  source = 0x0a000001;
  destination = 0x0a000002;
  source_port = 4660;
  destination_port = 80;
  checksum = 0;
  payload = 7 ∷ 8 ∷ 9 ∷ [];
  size = 3;
}

-- A frame of UDP in UMEM, a descriptor of it, and one that reaches past the end.
abbrev received : List PacketDescriptor
received =
    record { frame_address = 0; frame_length = 45; options = 0 }
    ∷ record { frame_address = 40; frame_length = 45; options = 0 }
    ∷ []

abbrev nothing : ProcessedFrame
nothing = record { frame_address = 0; frame_length = 0; rule_id = 0; action = pass }

abbrev wheel : TimingWheel
wheel = init 4 2

power_four : is_power_of_two 4 ≡ true
unfolding is_power_of_two
power_four = refl

clock : wheel.current_tick + 4 < u64_mod
unfolding init
clock = omega arith

wheel-IsValid : IsValid 4 2 wheel
wheel-IsValid = init-IsValid 4 2 power_four

abbrev outcome : Batch
outcome =
    process_packet_batch true 45 [] 1000 4 2 (udp_frame sent) received wheel (nothing ∷ [])
      (nothing ∷ nothing ∷ [])

abbrev weight : ℕ → ℕ
weight address = suc address

process_packet_batch-conserves_example :
    weigh (processed_weight weight) (take outcome.result.tx_count outcome.tx_output)
      + weigh (processed_weight weight) (take outcome.result.recycle_count outcome.recycle_output)
      + wheel_weight weight outcome.timing_wheel
    ≡ wheel_weight weight wheel + weigh (descriptor_weight weight) received
process_packet_batch-conserves_example =
    process_packet_batch-conserves true 45 [] 1000 4 2 weight (udp_frame sent) received wheel
      (nothing ∷ []) (nothing ∷ nothing ∷ []) wheel-IsValid clock (omega arith)

process_packet_batch-Counted_example : Counted 2 2 outcome
process_packet_batch-Counted_example =
    process_packet_batch-Counted true 45 [] 1000 4 2 (udp_frame sent) received wheel (nothing ∷ [])
      (nothing ∷ nothing ∷ []) (omega arith)

one_sent_one_recycled :
    (outcome.result.tx_count ≡ 1)
    × (outcome.result.recycle_count ≡ 1)
    × (outcome.result.stats.invalid_descriptors ≡ 1)
unfolding process_packet_batch init
one_sent_one_recycled = (refl, refl, refl)
