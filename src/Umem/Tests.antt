-- ===== src/Umem/Tests.antt =====
-- The theorems on descriptors, delays and bytes at concrete inputs.
use chronos_x.Base.{
  ℕ, ◌+◌, ◌-◌, ◌%◌, ◌<◌, ◌≤◌, ◌^◌, ◌≡◌, ◌≢◌, refl, false, [], ◌∷◌, some, arith, get_or, bit_xor,
}
use chronos_x.PacketParser.{PacketView}
use chronos_x.PacketParser.Bounds.{InBounds}
use chronos_x.PacketParser.Frames.{Sent, sent_view, udp_frame}
use chronos_x.Umem.{delay_ns_to_ticks, corrupt_packet_payload, swap_ethernet_macs}
use chronos_x.Umem.Bytes.{delay_ns_to_ticks_wraps, corrupt_packet_payload-one_bit}

abbrev sent : Sent
sent = record {
  destination_mac = 1;
  source_mac = 2;
  service = 0;
  identification = 1;
  time_to_live = 64;
  header_checksum = 0;
  source = 0x0a000001;
  destination = 0x0a000002;
  source_port = 4660;
  destination_port = 80;
  checksum = 0;
  payload = 7 ∷ 8 ∷ 9 ∷ [];
  size = 3;
}

longest_delay : delay_ns_to_ticks (2 ^ 64 - 1) 1000000 ≡ 0
longest_delay =
    delay_ns_to_ticks_wraps (2 ^ 64 - 1) 1000000 (omega arith) (omega arith) (omega arith)

abbrev view : PacketView
view = sent_view sent (udp_frame sent) 45 17 8

view-InBounds : InBounds 45 view
view-InBounds = record {
  l3 = refl;
  header_low = omega arith;
  header_high = omega arith;
  l4 = refl;
  datagram = omega arith;
  payload_low = omega arith;
  payload_high = omega arith;
}

corrupt_packet_payload-one_bit_example :
    let k = 42 + 1000 % 3 in
    let once = (corrupt_packet_payload (some 0) view 1000 (udp_frame sent)).1 in
    (42 ≤ k)
    × (k < 42 + 3)
    × (get_or once (0 + k) 0 ≡ bit_xor (get_or (udp_frame sent) (0 + k) 0) 1)
    × ((i : ℕ) → i ≢ 0 + k → get_or once i 0 ≡ get_or (udp_frame sent) i 0)
    × ((corrupt_packet_payload (some 0) view 1000 once).1 ≡ udp_frame sent)
corrupt_packet_payload-one_bit_example =
    corrupt_packet_payload-one_bit (udp_frame sent) view 0 1000 refl view-InBounds (omega arith)
      (omega arith)

too_short_for_macs : (swap_ethernet_macs 0 13 (1 ∷ 2 ∷ [])).0 ≡ false
unfolding swap_ethernet_macs
too_short_for_macs = refl
