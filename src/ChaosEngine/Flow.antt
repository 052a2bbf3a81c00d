-- ===== src/ChaosEngine/Flow.antt =====
-- include/chronosx/chaos_engine.hpp: what a decision depends on.
use chronos_x.Base.{ℕ, zero, suc, List, [], ◌∷◌, some, ◌≡◌, refl, ap, sym, ◌∙◌, take}
use chronos_x.PacketParser.{PacketView, packet_ok, payload_data}
use chronos_x.ChaosEngine.{
  ChaosRule, decide_with, decide_packet, decide_packet_fast, decide_for_rule, decide_for_rule_fast,
  rule_matches_packet, flow_state, hash_payload, packet_state, stable_flow_hash, stable_packet_hash,
  fnv1a_byte, avalanche64,
}

-- Two views of one flow with payloads of one length.
pub record SameFlow (p q : PacketView) : Type 0 where
  pub same_ok : packet_ok p ≡ packet_ok q
  pub same_src_ip : p.src_ip ≡ q.src_ip
  pub same_dst_ip : p.dst_ip ≡ q.dst_ip
  pub same_src_port : p.src_port ≡ q.src_port
  pub same_dst_port : p.dst_port ≡ q.dst_port
  pub same_protocol : p.ipv4_protocol ≡ q.ipv4_protocol
  pub same_length : p.payload_length ≡ q.payload_length

rule_matches_packet-SameFlow :
    (r : ChaosRule) (p q : PacketView)
    → SameFlow p q
    → rule_matches_packet r p ≡ rule_matches_packet r q
unfolding rule_matches_packet
rule_matches_packet-SameFlow r p q s =
    rw (s.same_ok, s.same_src_ip, s.same_dst_ip, s.same_src_port, s.same_dst_port, s.same_protocol)
      refl

pub flow_state-SameFlow :
    (r : ChaosRule) (p q : PacketView) → SameFlow p q → flow_state r p ≡ flow_state r q
unfolding flow_state
flow_state-SameFlow r p q s =
    rw
      (
        s.same_src_ip, s.same_dst_ip, s.same_src_port, s.same_dst_port, s.same_protocol,
        s.same_length,
      )
      refl

decide_with-hash :
    (h : ChaosRule → PacketView → ℕ) (r : ChaosRule) (p q : PacketView)
    → h r p ≡ h r q
    → decide_with h r p ≡ decide_with h r q
unfolding decide_with
decide_with-hash h r p q e = rw e refl

-- The fast decision is the flow's: it is the same on two packets of one flow with payloads of one length, whatever these hold.
pub decide_packet_fast-SameFlow :
    (p q : PacketView) (rules : List ChaosRule)
    → SameFlow p q
    → decide_packet_fast p rules ≡ decide_packet_fast q rules
unfolding decide_packet_fast decide_for_rule_fast stable_flow_hash
decide_packet_fast-SameFlow p q [] s = refl
decide_packet_fast-SameFlow p q (r ∷ rules) s =
    rw
      (
        rule_matches_packet-SameFlow r p q s,
        decide_with-hash stable_flow_hash r p q (ap avalanche64 (flow_state-SameFlow r p q s)),
        decide_packet_fast-SameFlow p q rules s,
      )
      refl

hash_payload-take :
    (n : ℕ) (xs : List ℕ) (h : ℕ) → hash_payload n (take n xs) h ≡ hash_payload n xs h
unfolding hash_payload
hash_payload-take zero xs h = refl
hash_payload-take (suc n) [] h = refl
hash_payload-take (suc n) (x ∷ xs) h = hash_payload-take n xs (fnv1a_byte h x)

packet_state-SameFlow :
    (r : ChaosRule) (p q : PacketView) (xs ys : List ℕ)
    → SameFlow p q
    → payload_data p ≡ some xs
    → payload_data q ≡ some ys
    → take p.payload_length xs ≡ take p.payload_length ys
    → packet_state r p ≡ packet_state r q
unfolding packet_state
packet_state-SameFlow r p q xs ys s xs_of ys_of same =
    rw (xs_of, ys_of, flow_state-SameFlow r p q s)
      (sym (hash_payload-take p.payload_length xs (flow_state r q))
        ∙ ap (λ t. hash_payload p.payload_length t (flow_state r q)) same
        ∙ hash_payload-take p.payload_length ys (flow_state r q)
        ∙ ap (λ t. hash_payload t ys (flow_state r q)) s.same_length)

-- The full decision is the packet's: it is the same on two packets of one flow with the same payload, wherever in whichever frame this stands.
pub decide_packet-SameFlow :
    (p q : PacketView) (rules : List ChaosRule) (xs ys : List ℕ)
    → SameFlow p q
    → payload_data p ≡ some xs
    → payload_data q ≡ some ys
    → take p.payload_length xs ≡ take p.payload_length ys
    → decide_packet p rules ≡ decide_packet q rules
unfolding decide_packet decide_for_rule stable_packet_hash
decide_packet-SameFlow p q [] xs ys s a b c = refl
decide_packet-SameFlow p q (r ∷ rules) xs ys s a b c =
    rw
      (
        rule_matches_packet-SameFlow r p q s,
        decide_with-hash stable_packet_hash r p q
            (ap avalanche64 (packet_state-SameFlow r p q xs ys s a b c)),
        decide_packet-SameFlow p q rules xs ys s a b c,
      )
      refl
