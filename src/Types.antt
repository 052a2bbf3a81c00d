-- ===== src/Types.antt =====
-- include/chronosx/types.hpp: the power-of-two test behind every ring capacity, the packet actions
-- with their wire values, and the statistics record.
pub mod PowerOfTwo
mod Tests
use chronos_x.Base.{ℕ, ◌-◌, Bool, ◌&&◌, bit_and, ◌==◌, ◌!=◌}

-- `value - 1` is read only where `value` is not 0.
unfoldable pub is_power_of_two : ℕ → Bool
is_power_of_two value = value != 0 && (bit_and value (value - 1) == 0)

pub data PacketAction : Type 0 where
  pass drop delay corrupt : PacketAction

-- `enum class PacketAction : std::uint8_t`, and `to_wire_value`, its cast to the byte.
unfoldable pub to_wire_value : PacketAction → ℕ
to_wire_value pass = 0
to_wire_value drop = 1
to_wire_value delay = 2
to_wire_value corrupt = 3

pub record StatUpdate : Type 0 where
  pub timestamp_cycles : ℕ
  pub packets_seen : ℕ
  pub packets_dropped : ℕ
  pub bytes_seen : ℕ
  pub average_latency_ns : ℕ
  pub last_action : PacketAction
  pub reserved0 : ℕ
  pub reserved1 : ℕ

-- The default member initialisers.
abbrev pub stat_update_default : StatUpdate
stat_update_default = record {
  timestamp_cycles = 0;
  packets_seen = 0;
  packets_dropped = 0;
  bytes_seen = 0;
  average_latency_ns = 0;
  last_action = pass;
  reserved0 = 0;
  reserved1 = 0;
}
