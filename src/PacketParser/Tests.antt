-- ===== src/PacketParser/Tests.antt =====
-- The parser's theorems at concrete frames, and runs of the parser.
use chronos_x.Base.{◌≡◌, refl, ap, true, [], ◌∷◌, ◌++◌, none, some, arith}
use chronos_x.PacketParser.{parse_packet, packet_ok, null_data}
use chronos_x.PacketParser.Bounds.{InBounds, parse_packet-InBounds}
use chronos_x.PacketParser.Reads.{Agree, Agree-append, answer, parse_packet-Agree}
use chronos_x.PacketParser.Frames.{Sent, sent_view, udp_frame, tcp_frame}
use chronos_x.PacketParser.RoundTrip.{parse_packet-udp_frame, parse_packet-tcp_frame}

-- Port 4660 of 10.0.0.1 to port 80 of 10.0.0.2, with a payload of three bytes and padding.
abbrev sent : Sent
sent = record {
  destination_mac = 0x112233445566;
  source_mac = 0xaabbccddeeff;
  service = 0;
  identification = 1;
  time_to_live = 64;
  header_checksum = 0;
  source = 0x0a000001;
  destination = 0x0a000002;
  source_port = 4660;
  destination_port = 80;
  checksum = 0;
  payload = 7 ∷ 8 ∷ 9 ∷ 0 ∷ [];
  size = 3;
}

parse_packet-udp_frame_example :
    parse_packet (some (udp_frame sent)) 46 ≡ sent_view sent (udp_frame sent) 46 17 8
parse_packet-udp_frame_example =
    parse_packet-udp_frame sent 46 (omega arith) (omega arith) (omega arith) (omega arith)
      (omega arith) (omega arith)

parse_packet-tcp_frame_example :
    parse_packet (some (tcp_frame sent 1 2 0x18 1024 0)) 58
    ≡ sent_view sent (tcp_frame sent 1 2 0x18 1024 0) 58 6 20
parse_packet-tcp_frame_example =
    parse_packet-tcp_frame sent 1 2 0x18 1024 0 58 (omega arith) (omega arith) (omega arith)
      (omega arith) (omega arith) (omega arith)

frame_ok : packet_ok (parse_packet (some (udp_frame sent)) 46) ≡ true
frame_ok = ap packet_ok (
    parse_packet-udp_frame sent 46 (omega arith) (omega arith) (omega arith) (omega arith)
      (omega arith) (omega arith))

parse_packet-InBounds_example : InBounds 46 (parse_packet (some (udp_frame sent)) 46)
parse_packet-InBounds_example = parse_packet-InBounds (some (udp_frame sent)) 46 frame_ok

-- What stands behind the frame does not matter.
longer : Agree 46 (udp_frame sent) (udp_frame sent ++ (1 ∷ []))
longer = Agree-append (udp_frame sent) (1 ∷ [])

parse_packet-Agree_example :
    answer (parse_packet (some (udp_frame sent)) 46)
    ≡ answer (parse_packet (some (udp_frame sent ++ (1 ∷ []))) 46)
parse_packet-Agree_example =
    parse_packet-Agree 46 (udp_frame sent) (udp_frame sent ++ (1 ∷ [])) longer

null_pointer : (parse_packet none 10).status ≡ null_data
unfolding parse_packet
null_pointer = refl
