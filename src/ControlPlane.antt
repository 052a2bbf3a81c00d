-- ===== src/ControlPlane.antt =====
-- include/chronosx/control_plane.hpp: the buffer that puts messages together, the configuration, and
-- ControlPlaneCore, which publishes the rules. The server is in Server.
-- A `RuleSnapshot` is its list of rules; the shared pointer to it, stored and loaded atomically, is a
-- field that a request writes in one step.
pub mod Buffer
pub mod Messages
pub mod Loop
pub mod Connection
pub mod Stream
pub mod Descriptors
pub mod Startup
pub mod Leaks
pub mod History
pub mod Termination
pub mod Server
pub mod Clients
pub mod Snapshot
mod Tests
use Prim.Native.String.{String}
use chronos_x.Base.{
  ℕ, ◌+◌, ◌-◌, ◌^◌, List, [], Bool, true, false, not, ◌&&◌, ◌||◌, ltb, leb, ◌==◌, ◌!=◌,
  if◌then◌else◌, length, replicate, take, drop,
}
use chronos_x.Types.{StatUpdate}
use chronos_x.ChaosEngine.{ChaosRule}
use chronos_x.Protocol.{is_ok, rules_of}
use chronos_x.Protocol.Codec.{
  protocol_header_bytes, max_control_payload_bytes, byte, read_u32_be, copy_to,
}
use chronos_x.Control.{
  Layout, ControlCore, ControlResponse, Reply, opcode_byte, ping, add_rule, remove_rule,
  clear_rules, new_core, publish_stats, handle,
}

abbrev pub default_control_port : ℕ
default_control_port = 9090

abbrev pub max_control_connections : ℕ
max_control_connections = 16

abbrev pub control_read_buffer_bytes : ℕ
control_read_buffer_bytes = 8192

abbrev pub control_response_buffer_bytes : ℕ
control_response_buffer_bytes = 8192

pub data ControlPlaneStatus : Type 0 where
  ok bind_failed listen_failed epoll_create_failed accept_failed read_failed write_failed
        connection_closed too_many_connections invalid_message shutdown_requested event_fd_failed
        not_initialized already_initialized :
      ControlPlaneStatus

unfoldable pub control_plane_status_name : ControlPlaneStatus → String
control_plane_status_name ControlPlaneStatus.ok = "Ok"
control_plane_status_name ControlPlaneStatus.bind_failed = "BindFailed"
control_plane_status_name ControlPlaneStatus.listen_failed = "ListenFailed"
control_plane_status_name ControlPlaneStatus.epoll_create_failed = "EpollCreateFailed"
control_plane_status_name ControlPlaneStatus.accept_failed = "AcceptFailed"
control_plane_status_name ControlPlaneStatus.read_failed = "ReadFailed"
control_plane_status_name ControlPlaneStatus.write_failed = "WriteFailed"
control_plane_status_name ControlPlaneStatus.connection_closed = "ConnectionClosed"
control_plane_status_name ControlPlaneStatus.too_many_connections = "TooManyConnections"
control_plane_status_name ControlPlaneStatus.invalid_message = "InvalidMessage"
control_plane_status_name ControlPlaneStatus.shutdown_requested = "ShutdownRequested"
control_plane_status_name ControlPlaneStatus.event_fd_failed = "EventFdFailed"
control_plane_status_name ControlPlaneStatus.not_initialized = "NotInitialized"
control_plane_status_name ControlPlaneStatus.already_initialized = "AlreadyInitialized"

pub record ConnectionBuffer : Type 0 where
  pub buffer : List ℕ
  pub write_pos : ℕ
  pub overflowed : Bool

abbrev pub new_buffer : ConnectionBuffer
new_buffer = record {
  buffer = replicate control_read_buffer_bytes 0;
  write_pos = 0;
  overflowed = false;
}

unfoldable pub append : ConnectionBuffer → List ℕ → ℕ × ConnectionBuffer
unfolding copy_to
append b data' =
    let space = length b.buffer - b.write_pos in
    let copy_bytes = if ltb (length data') space then length data' else space in
    (
      copy_bytes,
      record {
        buffer = copy_to b.buffer b.write_pos (take copy_bytes data');
        write_pos = b.write_pos + copy_bytes;
        overflowed = b.overflowed || copy_bytes != length data';
      },
    )

abbrev pub readable : ConnectionBuffer → List ℕ
readable b = take b.write_pos b.buffer

unfoldable pub consume : ConnectionBuffer → ℕ → ConnectionBuffer
unfolding copy_to
consume b count = if leb b.write_pos count then record b { write_pos = 0 } else record b {
  buffer = copy_to b.buffer 0 (take (b.write_pos - count) (drop count b.buffer));
  write_pos = b.write_pos - count;
}

unfoldable pub reset : ConnectionBuffer → ConnectionBuffer
reset b = record b { write_pos = 0; overflowed = false }

unfoldable pub has_complete_message : ConnectionBuffer → Bool
unfolding read_u32_be
has_complete_message b =
    if ltb b.write_pos protocol_header_bytes
    then false
    else let payload_length = read_u32_be (readable b) 8 in
      if ltb max_control_payload_bytes payload_length
      then true
      else leb (protocol_header_bytes + payload_length) b.write_pos

unfoldable pub next_message_length : ConnectionBuffer → ℕ
unfolding read_u32_be
next_message_length b =
    if ltb b.write_pos protocol_header_bytes
    then 0
    else let payload_length = read_u32_be (readable b) 8 in
      if ltb max_control_payload_bytes payload_length
      then b.write_pos
      else protocol_header_bytes + payload_length

-- The backlog is an `int`, kept as its 32 bits.
pub record ControlPlaneConfig : Type 0 where
  pub port : ℕ
  pub max_connections : ℕ
  pub listen_backlog : ℕ

unfoldable pub valid : ControlPlaneConfig → Bool
valid c =
    ltb 0 c.port
    && ltb 0 c.max_connections
    && leb c.max_connections max_control_connections
    && (ltb 0 c.listen_backlog && ltb c.listen_backlog (2 ^ 31))

pub record ControlPlaneCore : Type 0 where
  pub control : ControlCore
  pub rule_snapshot : List ChaosRule

-- The opcode at byte 3, as its byte.
unfoldable pub peek_request_opcode : List ℕ → ℕ
unfolding opcode_byte
peek_request_opcode request = if ltb (length request) 4 then opcode_byte ping else byte request 3

unfoldable pub is_rule_mutating_request : ℕ → Bool
unfolding opcode_byte
is_rule_mutating_request opcode =
    opcode == opcode_byte add_rule
    || opcode == opcode_byte remove_rule
    || opcode == opcode_byte clear_rules

abbrev pub rules : ControlPlaneCore → List ChaosRule
rules p = rules_of p.control.rule_table

unfoldable pub publish_rules : ControlPlaneCore → ControlPlaneCore
publish_rules p = record p { rule_snapshot = rules p }

unfoldable pub core_publish_stats : ControlPlaneCore → StatUpdate → ControlPlaneCore
unfolding publish_stats
core_publish_stats p update = record p { control = publish_stats p.control update }

module _ (rule_layout : Layout ChaosRule) (stats_layout : Layout StatUpdate) (max_rules : ℕ) where
  unfoldable pub new_control_plane_core : ControlPlaneCore
  unfolding new_core
  new_control_plane_core = record {
    control = new_core rule_layout stats_layout max_rules;
    rule_snapshot = [];
  }

  unfoldable pub handle_request : ControlPlaneCore → List ℕ → List ℕ → Reply × ControlPlaneCore
  unfolding peek_request_opcode handle is_rule_mutating_request publish_rules is_ok
  handle_request p request response =
      let request_opcode = peek_request_opcode request in
      let (reply, control) = handle rule_layout stats_layout max_rules p.control request response in
      let p : ControlPlaneCore = record p { control = control } in
      (
        reply,
        if is_ok reply.0.status && is_rule_mutating_request request_opcode
            then publish_rules p
            else p,
      )
