-- ===== src/Main/Demo/Blocked.antt =====
-- src/main.cpp: packets of build_test_packet under drop rules of the demonstrations, from the parser through the
-- engine to the spans.
use chronos_x.Base.{
  ℕ, ◌+◌, ◌≤◌, ◌<◌, ◌≡◌, refl, ap, ◌∙◌, List, [], ◌∷◌, Bool, true, false, ◌||◌, ◌==◌, Option, some,
  none, add64, arith, drop, length, if◌then◌else◌,
}
use chronos_x.Types.{PacketAction, pass}
use chronos_x.PacketParser.{PacketView, packet_ok, parse_packet}
use chronos_x.PacketParser.Frames.{sent_view}
use chronos_x.ChaosEngine.{
  ChaosRule, ChaosDecision, decide_packet_fast, rule_matches_packet, rule_is_enabled,
  decide_for_rule_fast, decide_with, applied_decision, clamp_probability, should_drop, should_delay,
  should_corrupt,
}
use chronos_x.Umem.{PacketDescriptor}
use chronos_x.DataPlane.{
  Batch, process_packet, dispatch, append_recycle, forward, append_tx, is_valid, decide, increment,
  count_with, pointer,
}
use chronos_x.Main.{build_test_packet}
use chronos_x.Main.Packet.{test_sent, parse_packet-build_test_packet}
use chronos_x.Main.Demo.{drop_rule}

-- Whether drop rules for these ports stop a packet to `port`: a rule with port 0 stops all.
unfoldable pub blocks : List ℕ → ℕ → Bool
blocks [] port = false
blocks (p ∷ ports) port = p == 0 || p == port || blocks ports port

-- A drop rule for each port, with any seeds and numbers.
pub drop_rules : List (ℕ × ℕ × ℕ) → List ChaosRule
drop_rules [] = []
drop_rules ((seed, id, port) ∷ rules) = drop_rule seed id port ∷ drop_rules rules

unfoldable pub ports_of : List (ℕ × ℕ × ℕ) → List ℕ
ports_of [] = []
ports_of ((seed, id, port) ∷ rules) = port ∷ ports_of rules

drop_rule-matches :
    (seed id port : ℕ) (p : PacketView)
    → packet_ok p ≡ true
    → p.ipv4_protocol ≡ 6
    → rule_matches_packet (drop_rule seed id port) p ≡ (port == 0 || port == p.dst_port)
unfolding rule_matches_packet rule_is_enabled
drop_rule-matches seed id port p good tcp = ground (arith, good, tcp)

decide_packet_fast-blocks :
    (rules : List (ℕ × ℕ × ℕ)) (p : PacketView)
    → packet_ok p ≡ true
    → p.ipv4_protocol ≡ 6
    → (decide_packet_fast p (drop_rules rules)).action
      ≡ (if blocks (ports_of rules) p.dst_port then PacketAction.drop else pass)
unfolding decide_packet_fast decide_for_rule_fast decide_with applied_decision clamp_probability
    blocks drop_rules ports_of
decide_packet_fast-blocks [] p good tcp = refl
decide_packet_fast-blocks ((seed, id, port) ∷ rules) p good tcp =
    ground
      (arith, drop_rule-matches seed id port p good tcp, decide_packet_fast-blocks rules p good tcp)

decide-blocks :
    (rules : List (ℕ × ℕ × ℕ)) (p : PacketView)
    → packet_ok p ≡ true
    → p.ipv4_protocol ≡ 6
    → (decide (drop_rules rules) p).action
      ≡ (if blocks (ports_of rules) p.dst_port then PacketAction.drop else pass)
unfolding decide
decide-blocks rules p good tcp = rw good (decide_packet_fast-blocks rules p good tcp)

-- What becomes of a parsed packet whose decision is to drop, or to pass.
dispatch-blocks :
    (size tick_ns slots max_frames : ℕ) (rules : List ChaosRule) (d : PacketDescriptor)
    (frame : Option ℕ) (p : PacketView) (decision : ChaosDecision) (blocked : Bool) (b : Batch)
    → is_valid true size d ≡ true
    → packet_ok p ≡ true
    → decision.action ≡ (if blocked then PacketAction.drop else pass)
    → b.result.tx_count < length b.tx_output
    → let s = b.result.stats in
      let s' =
        (dispatch true size rules tick_ns slots max_frames d frame p decision b).result.stats in
      (s'.packets_dropped ≡ (if blocked then increment s.packets_dropped else s.packets_dropped))
      × (s'.tx_frames ≡ (if blocked then s.tx_frames else increment s.tx_frames))
unfolding dispatch append_recycle forward append_tx should_drop should_delay should_corrupt
dispatch-blocks size tick_ns slots max_frames rules d frame p decision true b valid good act room =
    rw (valid, good, act) (ground arith)
dispatch-blocks size tick_ns slots max_frames rules d frame p decision false b valid good act room =
    rw (valid, good, act) (ground (arith, room))

-- A valid descriptor of a packet that build_test_packet wrote, with a payload of fewer than 65496 bytes,
-- under drop rules for ports: where one of the rules names the packet's port, or port 0, the
-- frame is counted as dropped and none is sent, and otherwise one is sent, as far as the transmit
-- span has room, and none dropped.
pub process_packet-blocks :
    (size tick_ns slots max_frames : ℕ) (rules : List (ℕ × ℕ × ℕ)) (d : PacketDescriptor)
    (b : Batch) (frame : List ℕ) (dst_port payload_size : ℕ)
    → is_valid true size d ≡ true
    → drop d.frame_address b.umem ≡ build_test_packet frame dst_port payload_size
    → 54 + payload_size ≤ length frame
    → 54 + payload_size ≤ d.frame_length
    → payload_size < 65496
    → dst_port < 65536
    → b.result.tx_count < length b.tx_output
    → let blocked = blocks (ports_of rules) dst_port in
      let s = b.result.stats in
      let s' =
        (process_packet true size (drop_rules rules) tick_ns slots max_frames d b).result.stats in
      (s'.packets_dropped ≡ (if blocked then increment s.packets_dropped else s.packets_dropped))
      × (s'.tx_frames ≡ (if blocked then s.tx_frames else increment s.tx_frames))
unfolding process_packet
process_packet-blocks size tick_ns slots max_frames rules d b frame dst_port payload_size valid
      written room inside small port space =
    dispatch-blocks size tick_ns slots max_frames (drop_rules rules) d pointed packet
      (decide (drop_rules rules) packet) (blocks (ports_of rules) dst_port) seen valid
      (ap packet_ok parsed)
      (decide-blocks rules packet (ap packet_ok parsed) (ap (λ p. p.ipv4_protocol) parsed)
        ∙ ap (λ p. if blocks (ports_of rules) p.dst_port then PacketAction.drop else pass) parsed)
      space
  where
    seen : Batch
    seen =
        count_with
          (λ s. record s {
            packets_seen = increment s.packets_seen;
            bytes_seen = add64 s.bytes_seen d.frame_length;
          })
          b

    pointed : Option ℕ
    pointed = if is_valid true size d then some d.frame_address else none

    packet : PacketView
    packet = parse_packet (pointer seen.umem pointed) d.frame_length

    parsed :
        packet
        ≡ sent_view
            (test_sent dst_port payload_size)
            (build_test_packet frame dst_port payload_size)
            d.frame_length
            6
            20
    parsed =
        rw (valid, written)
          (parse_packet-build_test_packet frame dst_port payload_size d.frame_length room small port
            inside)
