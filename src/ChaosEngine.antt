-- ===== src/ChaosEngine.antt =====
-- include/chronosx/chaos_engine.hpp: rules, their match on a parsed packet, the keyed hashes, and
-- the decision for a packet.
-- Words keep their wrap-around. A payload pointer is the list of bytes from there on; a read past
-- the list, which no caller makes, gives 0.
pub mod Matching
pub mod Decision
pub mod Flow
pub mod Bijection
pub mod Sensitivity
mod Tests
use chronos_x.Base.{
  ℕ, zero, suc, ◌+◌, ◌*◌, ◌%◌, Bool, true, false, not, ◌&&◌, ◌||◌, List, [], ◌∷◌, Option, none,
  some, bit_and, bit_xor, u8, u16, u32, u64, mul64, ◌<<◌, ◌>>◌, ltb, leb, ◌==◌, ◌!=◌, if◌then◌else◌,
  get_or, drop,
}
use chronos_x.Types.{PacketAction, pass, drop as drop_packet, delay, corrupt}
use chronos_x.PacketParser.{PacketView, packet_ok, payload_data, byte_at}

abbrev pub probability_scale : ℕ
probability_scale = 10000

pub record ChaosRule : Type 0 where
  pub seed : ℕ
  pub delay_ns : ℕ
  pub id : ℕ
  pub src_ip : ℕ
  pub dst_ip : ℕ
  pub src_port : ℕ
  pub dst_port : ℕ
  pub probability : ℕ
  pub protocol : ℕ
  pub action : PacketAction
  pub enabled : ℕ

pub record ChaosDecision : Type 0 where
  pub hash : ℕ
  pub delay_ns : ℕ
  pub rule_id : ℕ
  pub roll : ℕ
  pub action : PacketAction
  pub matched_rule : ℕ

-- The comparisons of an action with an enumerator.
abbrev pub is_pass : PacketAction → Bool
is_pass pass = true
is_pass _ = false

abbrev pub is_drop : PacketAction → Bool
is_drop drop_packet = true
is_drop _ = false

abbrev pub is_delay : PacketAction → Bool
is_delay delay = true
is_delay _ = false

abbrev pub is_corrupt : PacketAction → Bool
is_corrupt corrupt = true
is_corrupt _ = false

unfoldable pub matched : ChaosDecision → Bool
matched d = d.matched_rule != 0

unfoldable pub should_forward : ChaosDecision → Bool
should_forward d = not (is_drop d.action)

unfoldable pub should_drop : ChaosDecision → Bool
should_drop d = is_drop d.action

unfoldable pub should_delay : ChaosDecision → Bool
should_delay d = is_delay d.action

unfoldable pub should_corrupt : ChaosDecision → Bool
should_corrupt d = is_corrupt d.action

unfoldable pub clamp_probability : ℕ → ℕ
clamp_probability probability =
    if ltb probability_scale probability then probability_scale else probability

unfoldable pub rule_is_enabled : ChaosRule → Bool
rule_is_enabled rule = rule.enabled != 0

unfoldable pub action_forwards : PacketAction → Bool
action_forwards action = not (is_drop action)

unfoldable pub rule_matches_packet : ChaosRule → PacketView → Bool
unfolding rule_is_enabled
rule_matches_packet rule packet =
    if not (rule_is_enabled rule) || not (packet_ok packet)
    then false
    else if rule.src_ip != 0 && rule.src_ip != packet.src_ip
    then false
    else if rule.dst_ip != 0 && rule.dst_ip != packet.dst_ip
    then false
    else if rule.src_port != 0 && rule.src_port != packet.src_port
    then false
    else if rule.dst_port != 0 && rule.dst_port != packet.dst_port
    then false
    else if rule.protocol != 0 && rule.protocol != packet.ipv4_protocol
    then false
    else true

abbrev pub fnv_offset_basis : ℕ
fnv_offset_basis = 14695981039346656037

abbrev pub fnv_prime : ℕ
fnv_prime = 1099511628211

unfoldable pub fnv1a_byte : ℕ → ℕ → ℕ
fnv1a_byte hash value = mul64 (bit_xor hash value) fnv_prime

unfoldable pub fnv1a_u16 : ℕ → ℕ → ℕ
unfolding fnv1a_byte
fnv1a_u16 hash value =
    let hash = fnv1a_byte hash (u8 (bit_and (value >> 8) 0xff)) in
    fnv1a_byte hash (u8 (bit_and value 0xff))

unfoldable pub fnv1a_u32 : ℕ → ℕ → ℕ
unfolding fnv1a_byte
fnv1a_u32 hash value =
    let hash = fnv1a_byte hash (u8 (bit_and (value >> 24) 0xff)) in
    let hash = fnv1a_byte hash (u8 (bit_and (value >> 16) 0xff)) in
    let hash = fnv1a_byte hash (u8 (bit_and (value >> 8) 0xff)) in
    fnv1a_byte hash (u8 (bit_and value 0xff))

unfoldable pub fnv1a_u64 : ℕ → ℕ → ℕ
unfolding fnv1a_u32
fnv1a_u64 hash value =
    let hash = fnv1a_u32 hash (u32 (bit_and (value >> 32) 0xffffffff)) in
    fnv1a_u32 hash (u32 (bit_and value 0xffffffff))

unfoldable pub avalanche64 : ℕ → ℕ
avalanche64 value =
    let value = bit_xor value (value >> 33) in
    let value = mul64 value 0xff51afd7ed558ccd in
    let value = bit_xor value (value >> 33) in
    let value = mul64 value 0xc4ceb9fe1a85ec53 in bit_xor value (value >> 33)

-- The part that both hashes begin with.
unfoldable pub flow_state : ChaosRule → PacketView → ℕ
unfolding fnv1a_byte fnv1a_u16 fnv1a_u32 fnv1a_u64
flow_state rule packet =
    let hash = fnv1a_u64 fnv_offset_basis rule.seed in
    let hash = fnv1a_u32 hash packet.src_ip in
    let hash = fnv1a_u32 hash packet.dst_ip in
    let hash = fnv1a_u16 hash packet.src_port in
    let hash = fnv1a_u16 hash packet.dst_port in
    let hash = fnv1a_byte hash packet.ipv4_protocol in fnv1a_u64 hash packet.payload_length

-- The loop over the payload, with `count` bytes to go.
unfoldable pub hash_payload : ℕ → List ℕ → ℕ → ℕ
unfolding fnv1a_byte
hash_payload zero payload hash = hash
hash_payload (suc count) payload hash =
    hash_payload count (drop 1 payload) (fnv1a_byte hash (byte_at payload 0))

-- The payload, where there is a pointer to it.
unfoldable pub hash_pointer : Option (List ℕ) → ℕ → ℕ → ℕ
unfolding hash_payload
hash_pointer none count hash = hash
hash_pointer (some payload) count hash = hash_payload count payload hash

unfoldable pub packet_state : ChaosRule → PacketView → ℕ
unfolding flow_state hash_pointer
packet_state rule packet =
    hash_pointer (payload_data packet) packet.payload_length (flow_state rule packet)

unfoldable pub stable_packet_hash : ChaosRule → PacketView → ℕ
unfolding avalanche64 packet_state
stable_packet_hash rule packet = avalanche64 (packet_state rule packet)

unfoldable pub stable_flow_hash : ChaosRule → PacketView → ℕ
unfolding avalanche64 flow_state
stable_flow_hash rule packet = avalanche64 (flow_state rule packet)

abbrev pub pass_decision : ChaosDecision
pass_decision = record {
  hash = 0;
  delay_ns = 0;
  rule_id = 0;
  roll = 0;
  action = pass;
  matched_rule = 0;
}

unfoldable pub pass_from_rule : ChaosRule → ℕ → ℕ → ChaosDecision
pass_from_rule rule hash roll = record {
  hash = hash;
  delay_ns = 0;
  rule_id = rule.id;
  roll = roll;
  action = pass;
  matched_rule = 1;
}

unfoldable pub applied_decision : ChaosRule → ℕ → ℕ → ChaosDecision
applied_decision rule hash roll = record {
  hash = hash;
  delay_ns = if is_delay rule.action then rule.delay_ns else 0;
  rule_id = rule.id;
  roll = roll;
  action = rule.action;
  matched_rule = 1;
}

-- `decide_for_rule` and `decide_for_rule_fast` differ in the hash alone.
unfoldable pub decide_with : (ChaosRule → PacketView → ℕ) → ChaosRule → PacketView → ChaosDecision
unfolding clamp_probability pass_from_rule applied_decision
decide_with hash_of rule packet =
    let probability = clamp_probability rule.probability in
    if is_pass rule.action || probability == 0
    then pass_from_rule rule 0 0
    else if probability == probability_scale
    then applied_decision rule 0 0
    else let hash = hash_of rule packet in
      let roll = u16 (hash % probability_scale) in
      if leb probability roll
      then pass_from_rule rule hash roll
      else applied_decision rule hash roll

unfoldable pub decide_for_rule : ChaosRule → PacketView → ChaosDecision
unfolding decide_with stable_packet_hash
decide_for_rule = decide_with stable_packet_hash

unfoldable pub decide_for_rule_fast : ChaosRule → PacketView → ChaosDecision
unfolding decide_with stable_flow_hash
decide_for_rule_fast = decide_with stable_flow_hash

unfoldable pub decide_packet : PacketView → List ChaosRule → ChaosDecision
unfolding rule_matches_packet decide_for_rule
decide_packet packet [] = pass_decision
decide_packet packet (rule ∷ rules) =
    if rule_matches_packet rule packet
    then decide_for_rule rule packet
    else decide_packet packet rules

unfoldable pub decide_packet_fast : PacketView → List ChaosRule → ChaosDecision
unfolding rule_matches_packet decide_for_rule_fast
decide_packet_fast packet [] = pass_decision
decide_packet_fast packet (rule ∷ rules) =
    if rule_matches_packet rule packet
    then decide_for_rule_fast rule packet
    else decide_packet_fast packet rules
