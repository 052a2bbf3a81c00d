-- ===== src/Main/Demo.antt =====
-- src/main.cpp: the rules of the demonstrations, and how run_demo installs them. The arrays for a request and its
-- response hold 512 bytes.
pub mod Installed
pub mod Blocked
use chronos_x.Base.{ℕ, List, take, replicate}
use chronos_x.Types.{PacketAction, delay, StatUpdate}
use chronos_x.ChaosEngine.{ChaosRule, probability_scale}
use chronos_x.Protocol.Codec.{encode_message}
use chronos_x.Control.{Layout, add_rule, header_of}
use chronos_x.ControlPlane.{ControlPlaneCore, handle_request}

-- The rule that drops the packets to a port; the demonstrations have two of them, for port 8080.
abbrev pub drop_rule : ℕ → ℕ → ℕ → ChaosRule
drop_rule seed id dst_port = record {
  seed = seed;
  delay_ns = 0;
  id = id;
  src_ip = 0;
  dst_ip = 0;
  src_port = 0;
  dst_port = dst_port;
  probability = probability_scale;
  protocol = 6;
  action = PacketAction.drop;
  enabled = 1;
}

abbrev pub delay_rule : ChaosRule
delay_rule = record {
  seed = 0xcafe;
  delay_ns = 100000;
  id = 2;
  src_ip = 0;
  dst_ip = 0;
  src_port = 0;
  dst_port = 9090;
  probability = 5000;
  protocol = 6;
  action = delay;
  enabled = 1;
}

-- The lambda, with the core that it captures.
unfoldable pub install_rule :
    Layout ChaosRule → Layout StatUpdate → ℕ → ControlPlaneCore → ChaosRule → ControlPlaneCore
install_rule rule_layout stats_layout max_rules control_core rule =
    let (encoded, request) =
      encode_message (header_of add_rule rule.id) (rule_layout.to_bytes rule) (replicate 512 0) in
    (handle_request rule_layout stats_layout max_rules control_core
      (take encoded.bytes_written request) (replicate 512 0)).1
