-- ===== src/PacketParser/Bounds.antt =====
-- include/chronosx/packet_parser.hpp: what an accepted view promises about offsets and lengths.
use chronos_x.Base.{
  ℕ, ◌+◌, ◌-◌, ◌*◌, ◌≤◌, ◌<◌, true, false, List, Option, none, some, ◌≡◌, ap, arith,
}
use chronos_x.Base.Bits.{bit_and_mask}
use chronos_x.PacketParser.{
  PacketView, packet_ok, parse_packet, parse_ipv4, parse_datagram, parse_header_length,
  parse_transport, parse_tcp, new_view, byte_at, with_network_fields, parse_udp, ipv4_ihl_words,
  read_be16,
}

-- What every later stage may assume of a view whose status is `ok`, in a frame of `n` bytes.
pub record InBounds (n : ℕ) (v : PacketView) : Type 0 where
  pub l3 : v.l3_offset ≡ 14
  pub header_low : 20 ≤ v.ipv4_header_length
  pub header_high : v.ipv4_header_length ≤ 60
  pub l4 : v.l4_offset ≡ 14 + v.ipv4_header_length
  pub datagram : 14 + v.ipv4_total_length ≤ n
  pub payload_low : v.l4_offset + 8 ≤ v.payload_offset
  pub payload_high : v.payload_offset + v.payload_length ≤ 14 + v.ipv4_total_length

-- What holds of the view between the network and the transport header, with its status not yet set.
record Network (n : ℕ) (v : PacketView) : Type 0 where
  pending : packet_ok v ≡ false
  l3 : v.l3_offset ≡ 14
  header_low : 20 ≤ v.ipv4_header_length
  header_high : v.ipv4_header_length ≤ 60
  total : v.ipv4_header_length ≤ v.ipv4_total_length
  datagram : 14 + v.ipv4_total_length ≤ n

parse_udp-InBounds :
    (f : List ℕ) (n : ℕ) (v : PacketView)
    → Network n v
    → v.l4_offset ≡ 14 + v.ipv4_header_length
    → packet_ok (parse_udp f (v.ipv4_total_length - v.ipv4_header_length) v) ≡ true
    → InBounds n (parse_udp f (v.ipv4_total_length - v.ipv4_header_length) v)
unfolding parse_udp
parse_udp-InBounds f n v w b h =
    ground (arith, w.pending, w.l3, w.header_low, w.header_high, w.total, w.datagram)

Accepted : ℕ → PacketView → Type 0
Accepted n v = packet_ok v ≡ true → InBounds n v

parse_tcp-InBounds :
    (f : List ℕ) (n : ℕ) (v : PacketView)
    → Network n v
    → v.l4_offset ≡ 14 + v.ipv4_header_length
    → packet_ok (parse_tcp f (v.ipv4_total_length - v.ipv4_header_length) v) ≡ true
    → InBounds n (parse_tcp f (v.ipv4_total_length - v.ipv4_header_length) v)
unfolding parse_tcp
parse_tcp-InBounds f n v w b h =
    ground (arith, w.pending, w.l3, w.header_low, w.header_high, w.total, w.datagram)

parse_transport-InBounds :
    (f : List ℕ) (n : ℕ) (v : PacketView)
    → Network n v
    → packet_ok (parse_transport f v) ≡ true
    → InBounds n (parse_transport f v)
unfolding parse_transport with_network_fields
parse_transport-InBounds f n v w h = ground (
  arith,
  w.pending,
  parse_tcp-InBounds f n (with_network_fields f v) moved start,
  parse_udp-InBounds f n (with_network_fields f v) moved start,
)
  where
    start : v.l3_offset + v.ipv4_header_length ≡ 14 + v.ipv4_header_length
    start = ap (λ t. t + v.ipv4_header_length) w.l3

    moved : Network n (with_network_fields f v)
    moved = record {
      pending = w.pending;
      l3 = w.l3;
      header_low = w.header_low;
      header_high = w.header_high;
      total = w.total;
      datagram = w.datagram;
    }

ihl-bound : (x : ℕ) → ipv4_ihl_words x < 16
unfolding ipv4_ihl_words
ihl-bound x = omega (arith, bit_and_mask 4 x)

parse_datagram-InBounds :
    (f : List ℕ) (n : ℕ) (v : PacketView)
    → packet_ok v ≡ false
    → v.l3_offset ≡ 14
    → 20 ≤ v.ipv4_header_length
    → v.ipv4_header_length ≤ 60
    → packet_ok (parse_datagram f n v) ≡ true
    → InBounds n (parse_datagram f n v)
unfolding parse_datagram
parse_datagram-InBounds f n v p l low high h = ground (
  arith,
  parse_transport-InBounds f n (record v { ipv4_total_length = read_be16 f (v.l3_offset + 2) }),
)

parse_header_length-InBounds :
    (f : List ℕ) (n words : ℕ) (v : PacketView)
    → words < 16
    → packet_ok v ≡ false
    → v.l3_offset ≡ 14
    → packet_ok (parse_header_length f n words v) ≡ true
    → InBounds n (parse_header_length f n words v)
unfolding parse_header_length
parse_header_length-InBounds f n words v few p l h =
    ground (arith, parse_datagram-InBounds f n (record v { ipv4_header_length = words * 4 }))

parse_ipv4-InBounds :
    (f : List ℕ) (n : ℕ) (v : PacketView)
    → packet_ok v ≡ false
    → v.l3_offset ≡ 14
    → packet_ok (parse_ipv4 f n v) ≡ true
    → InBounds n (parse_ipv4 f n v)
unfolding parse_ipv4
parse_ipv4-InBounds f n v p l h = ground (
  arith,
  parse_header_length-InBounds f n (ipv4_ihl_words (byte_at f v.l3_offset)) v
      (ihl-bound (byte_at f v.l3_offset)) p l,
)

-- A view that the parser returns with the status `Ok`, whatever the pointer, has a network header of 20
-- to 60 bytes at offset 14 and the transport header behind it; the payload begins at least 8 bytes after
-- that and ends inside the datagram, which ends inside the given length.
pub parse_packet-InBounds :
    (f : Option (List ℕ)) (n : ℕ)
    → packet_ok (parse_packet f n) ≡ true
    → InBounds n (parse_packet f n)
unfolding parse_packet
parse_packet-InBounds none n h = ground arith
parse_packet-InBounds (some f) n h = ground (
  arith,
  parse_ipv4-InBounds f n
      (record (new_view (some f) n) { ether_type = read_be16 f 12; l3_offset = 14 }),
)
