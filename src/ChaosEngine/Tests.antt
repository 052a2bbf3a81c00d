-- ===== src/ChaosEngine/Tests.antt =====
-- The engine's theorems at concrete inputs, and runs of it.
use chronos_x.Base.{ℕ, ◌≤◌, ◌≡◌, ◌≢◌, refl, [], ◌∷◌, some, arith}
use chronos_x.Types.{drop, delay}
use chronos_x.PacketParser.{PacketView, payload_data}
use chronos_x.PacketParser.RoundTrip.{payload_data-udp_frame}
use chronos_x.PacketParser.Frames.{Sent, sent_view, udp_frame}
use chronos_x.ChaosEngine.{
  ChaosRule, decide_packet, decide_packet_fast, decide_with, stable_flow_hash, stable_packet_hash,
}
use chronos_x.ChaosEngine.Matching.{Decides, first_match-Decides}
use chronos_x.ChaosEngine.Decision.{decision_of, decide_with_lem}
use chronos_x.ChaosEngine.Flow.{SameFlow, decide_packet_fast-SameFlow}
use chronos_x.ChaosEngine.Sensitivity.{stable_packet_hash-changed}

abbrev sent : ℕ → Sent
sent last = record {
  destination_mac = 1;
  source_mac = 2;
  service = 0;
  identification = 1;
  time_to_live = 64;
  header_checksum = 0;
  source = 0x0a000001;
  destination = 0x0a000002;
  source_port = 4660;
  destination_port = 80;
  checksum = 0;
  payload = 7 ∷ 8 ∷ last ∷ [];
  size = 3;
}

-- The view of a datagram of three bytes, the last one given, in a frame of 45 or more bytes.
abbrev view : ℕ → ℕ → PacketView
view n last = sent_view (sent last) (udp_frame (sent last)) n 17 8

abbrev half : ChaosRule
half = record {
  seed = 7;
  delay_ns = 5000000;
  id = 3;
  src_ip = 0;
  dst_ip = 0x0a000002;
  src_port = 0;
  dst_port = 80;
  probability = 5000;
  protocol = 17;
  action = delay;
  enabled = 1;
}

abbrev other_port : ChaosRule
other_port = record half { dst_port = 81; action = drop }

first_match-Decides_example :
    let rules = other_port ∷ half ∷ [] in
    Decides stable_packet_hash (view 45 9) rules (decide_packet (view 45 9) rules)
    × Decides stable_flow_hash (view 45 9) rules (decide_packet_fast (view 45 9) rules)
first_match-Decides_example = first_match-Decides (view 45 9) (other_port ∷ half ∷ [])

half_decided :
    decide_with stable_flow_hash half (view 45 9)
    ≡ decision_of half (stable_flow_hash half (view 45 9))
half_decided = decide_with_lem stable_flow_hash half (view 45 9)

one_flow : SameFlow (view 45 9) (view 60 10)
one_flow = record {
  same_ok = refl;
  same_src_ip = refl;
  same_dst_ip = refl;
  same_src_port = refl;
  same_dst_port = refl;
  same_protocol = refl;
  same_length = refl;
}

decide_packet_fast-SameFlow_example :
    decide_packet_fast (view 45 9) (half ∷ []) ≡ decide_packet_fast (view 60 10) (half ∷ [])
decide_packet_fast-SameFlow_example =
    decide_packet_fast-SameFlow (view 45 9) (view 60 10) (half ∷ []) one_flow

same_packet : SameFlow (view 45 9) (view 60 9)
same_packet = record {
  same_ok = refl;
  same_src_ip = refl;
  same_dst_ip = refl;
  same_src_port = refl;
  same_dst_port = refl;
  same_protocol = refl;
  same_length = refl;
}

payload_of : (n last : ℕ) → 45 ≤ n → payload_data (view n last) ≡ some (7 ∷ 8 ∷ last ∷ [])
payload_of n last h = payload_data-udp_frame (sent last) n h

nine_ten : ◌≢◌ {A = ℕ} 9 10
nine_ten e = omega arith

stable_packet_hash-changed_example :
    stable_packet_hash half (view 45 9) ≢ stable_packet_hash half (view 60 10)
stable_packet_hash-changed_example =
    stable_packet_hash-changed half (view 45 9) (view 60 10) (7 ∷ 8 ∷ []) [] 9 10 one_flow
      (payload_of 45 9 (omega arith)) (payload_of 60 10 (omega arith))
      (omega arith, (omega arith, tt)) tt (omega arith) (omega arith) (omega arith) nine_ten

disabled : (decide_packet (view 45 9) (record half { enabled = 0 } ∷ [])).matched_rule ≡ 0
unfolding decide_packet
disabled = refl

certain : (decide_packet (view 45 9) (record half { probability = 20000 } ∷ [])).delay_ns ≡ 5000000
unfolding decide_packet
certain = refl
