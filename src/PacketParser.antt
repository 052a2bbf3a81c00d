-- ===== src/PacketParser.antt =====
-- include/chronosx/packet_parser.hpp: the zero-copy parser of Ethernet, IPv4, TCP and UDP headers.
-- A `const Byte*` is an optional list of bytes, from the pointer on; `data[i]` is `byte_at frame i`.
-- A read past the list gives 0. Casts keep their wrap-around; sums of
-- offsets, which are bounded by the frame's length, are plain.
pub mod Bounds
pub mod Reads
pub mod Fields
pub mod Frames
pub mod RoundTrip
mod Tests
use chronos_x.Base.{
  ℕ, ◌+◌, ◌-◌, ◌*◌, Bool, true, false, not, ◌&&◌, List, Option, none, some, bit_and, bit_or, u8,
  u16, u32, ◌<<◌, ◌>>◌, ltb, leb, ◌==◌, ◌!=◌, if◌then◌else◌, get_or, drop,
}

abbrev pub ethernet_header_bytes : ℕ
ethernet_header_bytes = 14

abbrev pub ipv4_base_header_bytes : ℕ
ipv4_base_header_bytes = 20

abbrev pub tcp_base_header_bytes : ℕ
tcp_base_header_bytes = 20

abbrev pub udp_header_bytes : ℕ
udp_header_bytes = 8

abbrev pub ether_type_ipv4 : ℕ
ether_type_ipv4 = 0x0800

abbrev pub ipv4_protocol_tcp : ℕ
ipv4_protocol_tcp = 6

abbrev pub ipv4_protocol_udp : ℕ
ipv4_protocol_udp = 17

abbrev pub ipv4_fragment_offset_mask : ℕ
ipv4_fragment_offset_mask = 0x1fff

pub data ParseStatus : Type 0 where
  ok null_data too_short_for_ethernet non_ipv4 too_short_for_ipv4 invalid_ipv4_version
        invalid_ipv4_header_length truncated_ipv4_header ipv4_total_length_too_small
        ipv4_total_length_exceeds_frame ipv4_fragment_without_l4 unsupported_transport
        too_short_for_tcp invalid_tcp_header_length truncated_tcp_header too_short_for_udp
        invalid_udp_length truncated_udp_payload :
      ParseStatus

abbrev pub status_ok : ParseStatus → Bool
status_ok ok = true
status_ok _ = false

pub record PacketView : Type 0 where
  pub bytes : Option (List ℕ)
  pub frame_length : ℕ
  pub status : ParseStatus
  pub ether_type : ℕ
  pub ipv4_protocol : ℕ
  pub ipv4_header_length : ℕ
  pub ipv4_total_length : ℕ
  pub src_ip : ℕ
  pub dst_ip : ℕ
  pub l3_offset : ℕ
  pub l4_offset : ℕ
  pub payload_offset : ℕ
  pub payload_length : ℕ
  pub tcp_header_length : ℕ
  pub src_port : ℕ
  pub dst_port : ℕ

abbrev pub packet_ok : PacketView → Bool
packet_ok v = status_ok v.status

unfoldable pub is_ipv4 : PacketView → Bool
is_ipv4 v = v.ether_type == ether_type_ipv4

unfoldable pub is_tcp : PacketView → Bool
is_tcp v = packet_ok v && v.ipv4_protocol == ipv4_protocol_tcp

unfoldable pub is_udp : PacketView → Bool
is_udp v = packet_ok v && v.ipv4_protocol == ipv4_protocol_udp

-- `data + offset`, where the view's guard holds.
unfoldable pub dst_mac : PacketView → Option (List ℕ)
dst_mac v = elim v.bytes [
  | none ↦ none
  | some frame ↦ if leb ethernet_header_bytes v.frame_length then some frame else none
]

unfoldable pub src_mac : PacketView → Option (List ℕ)
src_mac v = elim v.bytes [
  | none ↦ none
  | some frame ↦ if leb ethernet_header_bytes v.frame_length then some (drop 6 frame) else none
]

unfoldable pub payload_data : PacketView → Option (List ℕ)
payload_data v = elim v.bytes [
  | none ↦ none
  | some frame ↦
      if packet_ok v && leb v.payload_offset v.frame_length
      then some (drop v.payload_offset frame)
      else none
]

abbrev pub byte_at : List ℕ → ℕ → ℕ
byte_at frame i = get_or frame i 0

unfoldable pub read_be16 : List ℕ → ℕ → ℕ
read_be16 frame offset =
    let high = u16 (byte_at frame offset << 8) in
    let low = u16 (byte_at frame (offset + 1)) in u16 (bit_or high low)

unfoldable pub read_be32 : List ℕ → ℕ → ℕ
read_be32 frame offset =
    let b0 = byte_at frame offset in
    let b1 = byte_at frame (offset + 1) in
    let b2 = byte_at frame (offset + 2) in
    let b3 = byte_at frame (offset + 3) in
    u32 (bit_or (bit_or (bit_or (u32 (b0 << 24)) (u32 (b1 << 16))) (u32 (b2 << 8))) b3)

unfoldable pub ipv4_version : ℕ → ℕ
ipv4_version version_ihl = u8 (version_ihl >> 4)

unfoldable pub ipv4_ihl_words : ℕ → ℕ
ipv4_ihl_words version_ihl = u8 (bit_and version_ihl 0x0f)

unfoldable pub tcp_data_offset_words : ℕ → ℕ
tcp_data_offset_words data_offset_reserved = u8 (data_offset_reserved >> 4)

abbrev pub failed : PacketView → ParseStatus → PacketView
failed view status = record view { status = status }

-- The branch for TCP, once the transport's length is known.
unfoldable pub parse_tcp : List ℕ → ℕ → PacketView → PacketView
unfolding read_be16 tcp_data_offset_words
parse_tcp frame transport_length view =
    if ltb transport_length tcp_base_header_bytes
    then failed view too_short_for_tcp
    else let data_offset_words = tcp_data_offset_words (byte_at frame (view.l4_offset + 12)) in
      if ltb data_offset_words 5
      then failed view invalid_tcp_header_length
      else let view = record view { tcp_header_length = data_offset_words * 4 } in
        if ltb transport_length view.tcp_header_length
        then failed view truncated_tcp_header
        else record view {
          src_port = read_be16 frame view.l4_offset;
          dst_port = read_be16 frame (view.l4_offset + 2);
          payload_offset = view.l4_offset + view.tcp_header_length;
          payload_length = transport_length - view.tcp_header_length;
          status = ok;
        }

-- The branch for UDP.
unfoldable pub parse_udp : List ℕ → ℕ → PacketView → PacketView
unfolding read_be16
parse_udp frame transport_length view =
    if ltb transport_length udp_header_bytes
    then failed view too_short_for_udp
    else let udp_length = read_be16 frame (view.l4_offset + 4) in
      if ltb udp_length udp_header_bytes
      then failed view invalid_udp_length
      else if ltb transport_length udp_length
      then failed view truncated_udp_payload
      else record view {
        src_port = read_be16 frame view.l4_offset;
        dst_port = read_be16 frame (view.l4_offset + 2);
        payload_offset = view.l4_offset + udp_header_bytes;
        payload_length = udp_length - udp_header_bytes;
        status = ok;
      }

-- The view with the fields of an unfragmented datagram.
unfoldable pub with_network_fields : List ℕ → PacketView → PacketView
unfolding read_be32
with_network_fields frame view = record view {
  ipv4_protocol = byte_at frame (view.l3_offset + 9);
  src_ip = read_be32 frame (view.l3_offset + 12);
  dst_ip = read_be32 frame (view.l3_offset + 16);
  l4_offset = view.l3_offset + view.ipv4_header_length;
}

-- From the test for a fragment on: addresses, protocol and transport.
unfoldable pub parse_transport : List ℕ → PacketView → PacketView
unfolding read_be16 with_network_fields parse_tcp parse_udp
parse_transport frame view =
    let flags_fragment = read_be16 frame (view.l3_offset + 6) in
    let fragment_offset = u16 (bit_and flags_fragment ipv4_fragment_offset_mask) in
    if fragment_offset != 0
    then failed view ipv4_fragment_without_l4
    else let view = with_network_fields frame view in
      let transport_length = view.ipv4_total_length - view.ipv4_header_length in
      if view.ipv4_protocol == ipv4_protocol_tcp
      then parse_tcp frame transport_length view
      else if view.ipv4_protocol == ipv4_protocol_udp
      then parse_udp frame transport_length view
      else failed view unsupported_transport

-- From the datagram's total length on, when the whole header is in the frame.
unfoldable pub parse_datagram : List ℕ → ℕ → PacketView → PacketView
unfolding read_be16 parse_transport
parse_datagram frame length view =
    let view = record view { ipv4_total_length = read_be16 frame (view.l3_offset + 2) } in
    if ltb view.ipv4_total_length view.ipv4_header_length
    then failed view ipv4_total_length_too_small
    else if ltb length (view.l3_offset + view.ipv4_total_length)
    then failed view ipv4_total_length_exceeds_frame
    else parse_transport frame view

-- From the header's length in words on.
unfoldable pub parse_header_length : List ℕ → ℕ → ℕ → PacketView → PacketView
unfolding parse_datagram
parse_header_length frame length ihl_words view =
    if ltb ihl_words 5
    then failed view invalid_ipv4_header_length
    else let view = record view { ipv4_header_length = ihl_words * 4 } in
      if ltb length (view.l3_offset + view.ipv4_header_length)
      then failed view truncated_ipv4_header
      else parse_datagram frame length view

-- From the IPv4 header on.
unfoldable pub parse_ipv4 : List ℕ → ℕ → PacketView → PacketView
unfolding ipv4_version ipv4_ihl_words parse_header_length
parse_ipv4 frame length view =
    if ltb length (view.l3_offset + ipv4_base_header_bytes)
    then failed view too_short_for_ipv4
    else let version_ihl = byte_at frame view.l3_offset in
      let ihl_words = ipv4_ihl_words version_ihl in
      if ipv4_version version_ihl != 4
      then failed view invalid_ipv4_version
      else parse_header_length frame length ihl_words view

-- The view at the start.
abbrev pub new_view : Option (List ℕ) → ℕ → PacketView
new_view bytes length = record {
  bytes = bytes;
  frame_length = length;
  status = too_short_for_ethernet;
  ether_type = 0;
  ipv4_protocol = 0;
  ipv4_header_length = 0;
  ipv4_total_length = 0;
  src_ip = 0;
  dst_ip = 0;
  l3_offset = 0;
  l4_offset = 0;
  payload_offset = 0;
  payload_length = 0;
  tcp_header_length = 0;
  src_port = 0;
  dst_port = 0;
}

unfoldable pub parse_packet : Option (List ℕ) → ℕ → PacketView
unfolding read_be16 parse_ipv4
parse_packet none length =
    failed (new_view none length) (if length == 0 then too_short_for_ethernet else null_data)
parse_packet (some frame) length =
    let view = new_view (some frame) length in
    if ltb length ethernet_header_bytes
    then failed view too_short_for_ethernet
    else let view = record view { ether_type = read_be16 frame 12 } in
      if view.ether_type != ether_type_ipv4
      then failed view non_ipv4
      else parse_ipv4 frame length (record view { l3_offset = ethernet_header_bytes })
