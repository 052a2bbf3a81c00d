-- ===== src/PacketParser/Frames.antt =====
-- include/chronosx/packet_parser.hpp: a builder of frames, written from the formats and not from the parser.
use chronos_x.Base.{ℕ, ◌+◌, ◌/◌, ◌%◌, ◌^◌, List, [], ◌∷◌, ◌++◌, some, ◌==◌, if◌then◌else◌}
use chronos_x.PacketParser.{PacketView, ok}

-- A number as its bytes, the highest first.
abbrev pub be16 : ℕ → List ℕ
be16 n = n / 256 ∷ n % 256 ∷ []

abbrev pub be32 : ℕ → List ℕ
be32 n = n / 2 ^ 24 ∷ n / 2 ^ 16 % 256 ∷ n / 2 ^ 8 % 256 ∷ n % 256 ∷ []

abbrev pub be48 : ℕ → List ℕ
be48 n = be16 (n / 2 ^ 32) ++ be32 (n % 2 ^ 32)

-- What a sender chooses for an unfragmented datagram: addresses, ports, payload, and the fields that
-- the parser does not look at.
pub record Sent : Type 0 where
  pub destination_mac : ℕ
  pub source_mac : ℕ
  pub service : ℕ
  pub identification : ℕ
  pub time_to_live : ℕ
  pub header_checksum : ℕ
  pub source : ℕ
  pub destination : ℕ
  pub source_port : ℕ
  pub destination_port : ℕ
  pub checksum : ℕ
  pub payload : List ℕ
  pub size : ℕ

-- The frame of a datagram with the protocol and the transport bytes given.
abbrev pub ipv4_frame : Sent → ℕ → ℕ → List ℕ → List ℕ
ipv4_frame s protocol transport_size transport =
    be48 s.destination_mac
    ++ be48 s.source_mac
    ++ be16 0x0800
    ++ (0x45 ∷ s.service ∷ [])
    ++ be16 (20 + transport_size)
    ++ be16 s.identification
    ++ be16 0x4000
    ++ (s.time_to_live ∷ protocol ∷ [])
    ++ be16 s.header_checksum
    ++ be32 s.source
    ++ be32 s.destination
    ++ transport

-- A datagram of UDP. `payload` holds `size` bytes and the frame's padding after them.
abbrev pub udp_frame : Sent → List ℕ
udp_frame s = ipv4_frame s 17 (8 + s.size) (
    be16 s.source_port
    ++ be16 s.destination_port
    ++ be16 (8 + s.size)
    ++ be16 s.checksum
    ++ s.payload)

-- The view of what was sent.
abbrev pub sent_view : Sent → List ℕ → ℕ → ℕ → ℕ → PacketView
sent_view s frame n protocol header = record {
  bytes = some frame;
  frame_length = n;
  status = ok;
  ether_type = 0x0800;
  ipv4_protocol = protocol;
  ipv4_header_length = 20;
  ipv4_total_length = 20 + (header + s.size);
  src_ip = s.source;
  dst_ip = s.destination;
  l3_offset = 14;
  l4_offset = 34;
  payload_offset = 34 + header;
  payload_length = s.size;
  tcp_header_length = if protocol == 6 then header else 0;
  src_port = s.source_port;
  dst_port = s.destination_port;
}

-- A segment of TCP with no options.
abbrev pub tcp_frame : Sent → ℕ → ℕ → ℕ → ℕ → ℕ → List ℕ
tcp_frame s sequence acknowledgment flags window urgent = ipv4_frame s 6 (20 + s.size) (
    be16 s.source_port
    ++ be16 s.destination_port
    ++ be32 sequence
    ++ be32 acknowledgment
    ++ (0x50 ∷ flags ∷ [])
    ++ be16 window
    ++ be16 s.checksum
    ++ be16 urgent
    ++ s.payload)
