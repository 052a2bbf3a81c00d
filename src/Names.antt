-- ===== src/Names.antt =====
-- The names of status codes and owners in include/chronosx: frame_allocator.hpp, packet_parser.hpp,
-- timing_wheel.hpp and protocol.hpp. The text behind each switch, "Unknown", is for values that are no
-- enumerators, which the data types do not have.
use Prim.Native.String.{String}
use chronos_x.FrameAllocator.{FrameOwner, FrameStatus}
use chronos_x.PacketParser.{ParseStatus}
use chronos_x.TimingWheel.{ScheduleStatus}
use chronos_x.Protocol.{ProtocolStatus}

unfoldable pub frame_owner_name : FrameOwner → String
frame_owner_name FrameOwner.free = "Free"
frame_owner_name FrameOwner.fill_ring = "FillRing"
frame_owner_name FrameOwner.rx_ring = "RxRing"
frame_owner_name FrameOwner.data_plane = "DataPlane"
frame_owner_name FrameOwner.timing_wheel = "TimingWheel"
frame_owner_name FrameOwner.tx_ring = "TxRing"
frame_owner_name FrameOwner.completion_ring = "CompletionRing"

unfoldable pub frame_status_name : FrameStatus → String
frame_status_name FrameStatus.ok = "Ok"
frame_status_name FrameStatus.pool_empty = "PoolEmpty"
frame_status_name FrameStatus.pool_full = "PoolFull"
frame_status_name FrameStatus.invalid_frame_index = "InvalidFrameIndex"
frame_status_name FrameStatus.invalid_frame_address = "InvalidFrameAddress"
frame_status_name FrameStatus.invalid_owner = "InvalidOwner"

unfoldable pub parse_status_name : ParseStatus → String
parse_status_name ParseStatus.ok = "Ok"
parse_status_name ParseStatus.null_data = "NullData"
parse_status_name ParseStatus.too_short_for_ethernet = "TooShortForEthernet"
parse_status_name ParseStatus.non_ipv4 = "NonIPv4"
parse_status_name ParseStatus.too_short_for_ipv4 = "TooShortForIPv4"
parse_status_name ParseStatus.invalid_ipv4_version = "InvalidIPv4Version"
parse_status_name ParseStatus.invalid_ipv4_header_length = "InvalidIPv4HeaderLength"
parse_status_name ParseStatus.truncated_ipv4_header = "TruncatedIPv4Header"
parse_status_name ParseStatus.ipv4_total_length_too_small = "IPv4TotalLengthTooSmall"
parse_status_name ParseStatus.ipv4_total_length_exceeds_frame = "IPv4TotalLengthExceedsFrame"
parse_status_name ParseStatus.ipv4_fragment_without_l4 = "IPv4FragmentWithoutL4"
parse_status_name ParseStatus.unsupported_transport = "UnsupportedTransport"
parse_status_name ParseStatus.too_short_for_tcp = "TooShortForTCP"
parse_status_name ParseStatus.invalid_tcp_header_length = "InvalidTCPHeaderLength"
parse_status_name ParseStatus.truncated_tcp_header = "TruncatedTCPHeader"
parse_status_name ParseStatus.too_short_for_udp = "TooShortForUDP"
parse_status_name ParseStatus.invalid_udp_length = "InvalidUDPLength"
parse_status_name ParseStatus.truncated_udp_payload = "TruncatedUDPPayload"

unfoldable pub schedule_status_name : ScheduleStatus → String
schedule_status_name ScheduleStatus.scheduled = "Scheduled"
schedule_status_name ScheduleStatus.delay_too_large = "DelayTooLarge"
schedule_status_name ScheduleStatus.slot_full = "SlotFull"

unfoldable pub protocol_status_name : ProtocolStatus → String
protocol_status_name ProtocolStatus.ok = "Ok"
protocol_status_name ProtocolStatus.buffer_too_small = "BufferTooSmall"
protocol_status_name ProtocolStatus.payload_too_large = "PayloadTooLarge"
protocol_status_name ProtocolStatus.invalid_magic = "InvalidMagic"
protocol_status_name ProtocolStatus.invalid_version = "InvalidVersion"
protocol_status_name ProtocolStatus.truncated_payload = "TruncatedPayload"
protocol_status_name ProtocolStatus.crc_mismatch = "CrcMismatch"
protocol_status_name ProtocolStatus.unknown_opcode = "UnknownOpcode"
protocol_status_name ProtocolStatus.invalid_payload = "InvalidPayload"
protocol_status_name ProtocolStatus.rule_table_full = "RuleTableFull"
protocol_status_name ProtocolStatus.rule_index_out_of_range = "RuleIndexOutOfRange"
