-- ===== src/Control/LittleEndian.antt =====
-- include/chronosx/chaos_engine.hpp and types.hpp: the object representations of ChaosRule and StatUpdate on a
-- little-endian host, with the sizes and offsets that the static assertions fix, for rules
-- whose action is an enumerator. The reserved bytes are 0.
use chronos_x.Base.{
  ℕ, zero, suc, ◌+◌, ◌*◌, ◌/◌, ◌%◌, List, [], ◌∷◌, ◌++◌, drop, get_or, ◌==◌, if◌then◌else◌,
}
use chronos_x.Types.{PacketAction, pass, delay, corrupt, to_wire_value, StatUpdate}
use chronos_x.ChaosEngine.{ChaosRule}
use chronos_x.Control.{Layout}

-- A field of `n` bytes, and its value.
unfoldable pub field_bytes : ℕ → ℕ → List ℕ
field_bytes zero v = []
field_bytes (suc n) v = v % 256 ∷ field_bytes n (v / 256)

unfoldable pub field_value : ℕ → List ℕ → ℕ
field_value zero bytes = 0
field_value (suc n) [] = 0
field_value (suc n) (b ∷ bytes) = b + 256 * field_value n bytes

unfoldable pub action_of : ℕ → PacketAction
action_of byte =
    if byte == 0
    then pass
    else if byte == 1
    then PacketAction.drop
    else if byte == 2
    then delay
    else corrupt

unfoldable pub rule_layout : Layout ChaosRule
unfolding field_bytes field_value action_of to_wire_value
rule_layout = record {
  size = 40;
  to_bytes = λ r.
      field_bytes 8 r.seed
      ++ field_bytes 8 r.delay_ns
      ++ field_bytes 4 r.id
      ++ field_bytes 4 r.src_ip
      ++ field_bytes 4 r.dst_ip
      ++ field_bytes 2 r.src_port
      ++ field_bytes 2 r.dst_port
      ++ field_bytes 2 r.probability
      ++ (r.protocol ∷ to_wire_value r.action ∷ r.enabled ∷ 0 ∷ 0 ∷ 0 ∷ []);
  from_bytes = λ bytes. record {
    seed = field_value 8 bytes;
    delay_ns = field_value 8 (drop 8 bytes);
    id = field_value 4 (drop 16 bytes);
    src_ip = field_value 4 (drop 20 bytes);
    dst_ip = field_value 4 (drop 24 bytes);
    src_port = field_value 2 (drop 28 bytes);
    dst_port = field_value 2 (drop 30 bytes);
    probability = field_value 2 (drop 32 bytes);
    protocol = get_or bytes 34 0;
    action = action_of (get_or bytes 35 0);
    enabled = get_or bytes 36 0;
  };
}

unfoldable pub stats_layout : Layout StatUpdate
unfolding field_bytes field_value action_of to_wire_value
stats_layout = record {
  size = 48;
  to_bytes = λ s.
      field_bytes 8 s.timestamp_cycles
      ++ field_bytes 8 s.packets_seen
      ++ field_bytes 8 s.packets_dropped
      ++ field_bytes 8 s.bytes_seen
      ++ field_bytes 8 s.average_latency_ns
      ++ (to_wire_value s.last_action ∷ s.reserved0 ∷ [])
      ++ field_bytes 2 s.reserved1
      ++ field_bytes 4 0;
  from_bytes = λ bytes. record {
    timestamp_cycles = field_value 8 bytes;
    packets_seen = field_value 8 (drop 8 bytes);
    packets_dropped = field_value 8 (drop 16 bytes);
    bytes_seen = field_value 8 (drop 24 bytes);
    average_latency_ns = field_value 8 (drop 32 bytes);
    last_action = action_of (get_or bytes 40 0);
    reserved0 = get_or bytes 41 0;
    reserved1 = field_value 2 (drop 42 bytes);
  };
}
