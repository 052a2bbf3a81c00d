-- ===== src/PacketParser/RoundTrip.antt =====
-- include/chronosx/packet_parser.hpp: the parser against the frames of `Frames`.
use chronos_x.Base.{
  ℕ, ◌+◌, ◌-◌, ◌^◌, ◌≤◌, ◌<◌, List, some, ◌≡◌, refl, ap, ◌∙◌, ◌==◌, if◌then◌else◌, arith, le→ltb,
  u16, bit_and,
}
use chronos_x.PacketParser.{
  PacketView, parse_packet, parse_ipv4, parse_datagram, parse_header_length, parse_transport,
  parse_tcp, parse_udp, with_network_fields, read_be16, read_be32, new_view, byte_at, ipv4_version,
  ipv4_ihl_words, payload_data, tcp_data_offset_words, failed, unsupported_transport,
}
use chronos_x.PacketParser.Fields.{be16_field, be32_field}
use chronos_x.PacketParser.Frames.{Sent, udp_frame, sent_view, tcp_frame}

-- The reads of the network header, in any buffer.
pub record Reads (f : List ℕ) (s : Sent) (kind size : ℕ) : Type 0 where
  pub ether : read_be16 f 12 ≡ 0x0800
  pub version : byte_at f 14 ≡ 0x45
  pub total : read_be16 f 16 ≡ size
  pub whole : u16 (bit_and (read_be16 f 20) 0x1fff) ≡ 0
  pub protocol : byte_at f 23 ≡ kind
  pub source : read_be32 f 26 ≡ s.source
  pub destination : read_be32 f 30 ≡ s.destination

-- The view at the start of the transport header.
abbrev network_view : Sent → List ℕ → ℕ → ℕ → ℕ → PacketView
network_view s f n protocol total = record (new_view (some f) n) {
  ether_type = 0x0800;
  ipv4_protocol = protocol;
  ipv4_header_length = 20;
  ipv4_total_length = total;
  src_ip = s.source;
  dst_ip = s.destination;
  l3_offset = 14;
  l4_offset = 34;
}

abbrev by_protocol : Sent → List ℕ → ℕ → ℕ → ℕ → PacketView
by_protocol s f n protocol total =
    let view = network_view s f n protocol total in
    if protocol == 6
    then parse_tcp f (total - 20) view
    else if protocol == 17
    then parse_udp f (total - 20) view
    else failed view unsupported_transport

parse_transport-Reads :
    (f : List ℕ) (s : Sent) (n protocol total : ℕ) (v : PacketView)
    → Reads f s protocol total
    → v ≡ record (new_view (some f) n) {
      ether_type = 0x0800;
      ipv4_header_length = 20;
      ipv4_total_length = total;
      l3_offset = 14;
    }
    → parse_transport f v ≡ by_protocol s f n protocol total
unfolding parse_transport with_network_fields
parse_transport-Reads f s n protocol total v r e =
    rw (e, r.whole, r.protocol, r.source, r.destination) refl

parse_packet-Reads :
    (f : List ℕ) (s : Sent) (n protocol total : ℕ)
    → Reads f s protocol total
    → 20 ≤ total
    → 14 + total ≤ n
    → parse_packet (some f) n ≡ by_protocol s f n protocol total
unfolding parse_packet parse_ipv4 parse_header_length parse_datagram ipv4_version ipv4_ihl_words
parse_packet-Reads f s n protocol total r low inside =
    rw
      (
        le→ltb n 14 (omega arith),
        r.ether,
        le→ltb n 34 (omega arith),
        r.version,
        le→ltb n 34 (omega arith),
        r.total,
        le→ltb total 20 low,
        le→ltb n (14 + total) inside,
        parse_transport-Reads f s n protocol total _ r refl,
      )
      refl

-- A datagram of UDP comes back as it was sent, in a buffer of `n` bytes with room for it, whatever
-- follows the payload: addresses, ports, and a payload of `size` bytes at offset 42.
pub parse_packet-udp_frame :
    (s : Sent) (n : ℕ)
    → s.size < 65508
    → s.source < 2 ^ 32
    → s.destination < 2 ^ 32
    → s.source_port < 65536
    → s.destination_port < 65536
    → 42 + s.size ≤ n
    → parse_packet (some (udp_frame s)) n ≡ sent_view s (udp_frame s) n 17 8
unfolding parse_udp
parse_packet-udp_frame s n small src dst sport dport inside =
    parse_packet-Reads f s n 17 (20 + (8 + s.size)) reads (omega arith) (omega arith)
    ∙ rw
        (
          be16_field f 34 s.source_port sport refl refl,
          be16_field f 36 s.destination_port dport refl refl,
          be16_field f 38 (8 + s.size) (omega arith) refl refl,
          le→ltb (20 + (8 + s.size) - 20) 8 (omega arith),
          le→ltb (8 + s.size) 8 (omega arith),
          le→ltb (20 + (8 + s.size) - 20) (8 + s.size) (omega arith),
          rest,
        )
        refl
  where
    rest : 8 + s.size - 8 ≡ s.size
    rest = omega arith

    f : List ℕ
    f = udp_frame s

    reads : Reads f s 17 (20 + (8 + s.size))
    reads = record {
      ether = be16_field f 12 0x0800 (omega arith) refl refl;
      version = refl;
      total = be16_field f 16 (20 + (8 + s.size)) (omega arith) refl refl;
      whole =
          ap (λ (v : ℕ). u16 (bit_and v 0x1fff)) (be16_field f 20 0x4000 (omega arith) refl refl);
      protocol = refl;
      source = be32_field f 26 s.source src refl refl refl refl;
      destination = be32_field f 30 s.destination dst refl refl refl refl;
    }

-- The pointer to the payload of such a datagram is at the payload's first byte.
pub payload_data-udp_frame :
    (s : Sent) (n : ℕ)
    → 42 + s.size ≤ n
    → payload_data (sent_view s (udp_frame s) n 17 8) ≡ some s.payload
unfolding payload_data
payload_data-udp_frame s n inside = ground arith

-- The reads of a TCP header without options, behind those of the network header.
pub parse_packet_tcp :
    (f : List ℕ) (s : Sent) (n : ℕ)
    → Reads f s 6 (20 + (20 + s.size))
    → read_be16 f 34 ≡ s.source_port
    → read_be16 f 36 ≡ s.destination_port
    → byte_at f 46 ≡ 0x50
    → 54 + s.size ≤ n
    → parse_packet (some f) n ≡ sent_view s f n 6 20
unfolding parse_tcp tcp_data_offset_words
parse_packet_tcp f s n reads source destination offset inside =
    parse_packet-Reads f s n 6 (20 + (20 + s.size)) reads (omega arith) (omega arith)
    ∙ rw (source, destination, offset, le→ltb (20 + (20 + s.size) - 20) 20 (omega arith), rest) refl
  where
    rest : 20 + (20 + s.size) - 20 - 20 ≡ s.size
    rest = omega arith

pub parse_packet-tcp_frame :
    (s : Sent) (sequence acknowledgment flags window urgent n : ℕ)
    → s.size < 65496
    → s.source < 2 ^ 32
    → s.destination < 2 ^ 32
    → s.source_port < 65536
    → s.destination_port < 65536
    → 54 + s.size ≤ n
    → parse_packet (some (tcp_frame s sequence acknowledgment flags window urgent)) n
      ≡ sent_view s (tcp_frame s sequence acknowledgment flags window urgent) n 6 20
parse_packet-tcp_frame s sequence acknowledgment flags window urgent n small src dst sport dport
      inside =
    parse_packet_tcp f s n reads (be16_field f 34 s.source_port sport refl refl)
      (be16_field f 36 s.destination_port dport refl refl) refl inside
  where
    f : List ℕ
    f = tcp_frame s sequence acknowledgment flags window urgent

    reads : Reads f s 6 (20 + (20 + s.size))
    reads = record {
      ether = be16_field f 12 0x0800 (omega arith) refl refl;
      version = refl;
      total = be16_field f 16 (20 + (20 + s.size)) (omega arith) refl refl;
      whole =
          ap (λ (v : ℕ). u16 (bit_and v 0x1fff)) (be16_field f 20 0x4000 (omega arith) refl refl);
      protocol = refl;
      source = be32_field f 26 s.source src refl refl refl refl;
      destination = be32_field f 30 s.destination dst refl refl refl refl;
    }
