-- ===== src/PacketParser/Reads.antt =====
-- include/chronosx/packet_parser.hpp: which bytes the parser reads.
use chronos_x.Base.{
  ℕ, zero, suc, [], ◌∷◌, ◌++◌, length, ◌+◌, ◌-◌, ◌*◌, ◌≤◌, ◌<◌, List, none, some, ◌≡◌, refl, ap,
  sym, ◌∙◌, ltb, arith, Bool-cases, inl, inr,
}
use chronos_x.PacketParser.{
  PacketView, parse_packet, parse_ipv4, parse_datagram, parse_header_length, ipv4_ihl_words,
  parse_transport, parse_tcp, parse_udp, with_network_fields, read_be16, read_be32, new_view,
  byte_at,
}

-- Two buffers with the same first `n` bytes.
pub Agree : ℕ → List ℕ → List ℕ → Type 0
Agree n xs ys = (i : ℕ) → i < n → byte_at xs i ≡ byte_at ys i

read_be16-Agree :
    (n : ℕ) (xs ys : List ℕ) (i : ℕ) → Agree n xs ys → i + 2 ≤ n → read_be16 xs i ≡ read_be16 ys i
unfolding read_be16 Agree
read_be16-Agree n xs ys i same h = rw (same i (omega arith), same (i + 1) (omega arith)) refl

read_be32-Agree :
    (n : ℕ) (xs ys : List ℕ) (i : ℕ) → Agree n xs ys → i + 4 ≤ n → read_be32 xs i ≡ read_be32 ys i
unfolding read_be32 Agree
read_be32-Agree n xs ys i same h =
    rw
      (
        same i (omega arith),
        same (i + 1) (omega arith),
        same (i + 2) (omega arith),
        same (i + 3) (omega arith),
      )
      refl

parse_udp-Agree :
    (n : ℕ) (xs ys : List ℕ) (len : ℕ) (v : PacketView)
    → Agree n xs ys
    → v.l4_offset + len ≤ n
    → parse_udp xs len v ≡ parse_udp ys len v
unfolding parse_udp
parse_udp-Agree n xs ys len v same h = ground (
  arith,
  read_be16-Agree n xs ys v.l4_offset same,
  read_be16-Agree n xs ys (v.l4_offset + 2) same,
  read_be16-Agree n xs ys (v.l4_offset + 4) same,
)

parse_tcp-Agree :
    (n : ℕ) (xs ys : List ℕ) (len : ℕ) (v : PacketView)
    → Agree n xs ys
    → v.l4_offset + len ≤ n
    → parse_tcp xs len v ≡ parse_tcp ys len v
unfolding parse_tcp Agree
parse_tcp-Agree n xs ys len v same h = ground (
  arith,
  same (v.l4_offset + 12),
  read_be16-Agree n xs ys v.l4_offset same,
  read_be16-Agree n xs ys (v.l4_offset + 2) same,
)

with_network_fields-Agree :
    (n : ℕ) (xs ys : List ℕ) (v : PacketView)
    → Agree n xs ys
    → v.l3_offset + 20 ≤ n
    → with_network_fields xs v ≡ with_network_fields ys v
unfolding with_network_fields Agree
with_network_fields-Agree n xs ys v same h =
    rw
      (
        same (v.l3_offset + 9) (omega arith),
        read_be32-Agree n xs ys (v.l3_offset + 12) same (omega arith),
        read_be32-Agree n xs ys (v.l3_offset + 16) same (omega arith),
      )
      refl

transport_inside :
    (ys : List ℕ) (n : ℕ) (v : PacketView)
    → v.ipv4_header_length ≤ v.ipv4_total_length
    → v.l3_offset + v.ipv4_total_length ≤ n
    → (with_network_fields ys v).l4_offset + (v.ipv4_total_length - v.ipv4_header_length) ≤ n
unfolding with_network_fields
transport_inside ys n v le h = omega arith

parse_transport-Agree :
    (n : ℕ) (xs ys : List ℕ) (v : PacketView)
    → Agree n xs ys
    → v.l3_offset + 20 ≤ n
    → v.ipv4_header_length ≤ v.ipv4_total_length
    → v.l3_offset + v.ipv4_total_length ≤ n
    → parse_transport xs v ≡ parse_transport ys v
unfolding parse_transport
parse_transport-Agree n xs ys v same h le inside = ground (
  arith,
  with_network_fields-Agree n xs ys v same,
  read_be16-Agree n xs ys (v.l3_offset + 6) same,
  parse_udp-Agree n xs ys (v.ipv4_total_length - v.ipv4_header_length) (with_network_fields ys v)
      same bound,
  parse_tcp-Agree n xs ys (v.ipv4_total_length - v.ipv4_header_length) (with_network_fields ys v)
      same bound,
)
  where
    bound : (with_network_fields ys v).l4_offset + (v.ipv4_total_length - v.ipv4_header_length) ≤ n
    bound = transport_inside ys n v le inside

parse_datagram-Agree :
    (n : ℕ) (xs ys : List ℕ) (v : PacketView)
    → Agree n xs ys
    → v.l3_offset + 20 ≤ n
    → parse_datagram xs n v ≡ parse_datagram ys n v
unfolding parse_datagram
parse_datagram-Agree n xs ys v same h =
    rw (read_be16-Agree n xs ys (v.l3_offset + 2) same (omega arith)) ground (
      arith,
      parse_transport-Agree n xs ys
          (record v { ipv4_total_length = read_be16 ys (v.l3_offset + 2) }) same h,
    )

parse_header_length-Agree :
    (n words : ℕ) (xs ys : List ℕ) (v : PacketView)
    → Agree n xs ys
    → v.l3_offset + 20 ≤ n
    → parse_header_length xs n words v ≡ parse_header_length ys n words v
unfolding parse_header_length
parse_header_length-Agree n words xs ys v same h =
    ground
      (arith, parse_datagram-Agree n xs ys (record v { ipv4_header_length = words * 4 }) same h)

parse_ipv4-Agree :
    (n : ℕ) (xs ys : List ℕ) (v : PacketView)
    → Agree n xs ys
    → parse_ipv4 xs n v ≡ parse_ipv4 ys n v
unfolding parse_ipv4 Agree
parse_ipv4-Agree n xs ys v same = ground (
  arith,
  same v.l3_offset,
  parse_header_length-Agree n (ipv4_ihl_words (byte_at ys v.l3_offset)) xs ys v same,
)

-- The parser's answer, apart from the pointer that it hands on.
pub answer : PacketView → PacketView
answer v = record v { bytes = none }

answer-parse_udp :
    (f : List ℕ) (n : ℕ) (v : PacketView) → answer (parse_udp f n v) ≡ parse_udp f n (answer v)
unfolding parse_udp answer
answer-parse_udp f n v = ground arith

answer-parse_tcp :
    (f : List ℕ) (n : ℕ) (v : PacketView) → answer (parse_tcp f n v) ≡ parse_tcp f n (answer v)
unfolding parse_tcp answer
answer-parse_tcp f n v = ground arith

answer-parse_transport :
    (f : List ℕ) (v : PacketView) → answer (parse_transport f v) ≡ parse_transport f (answer v)
unfolding parse_transport answer with_network_fields
answer-parse_transport f v = ground (
  arith,
  answer-parse_tcp f (v.ipv4_total_length - v.ipv4_header_length) (with_network_fields f v),
  answer-parse_udp f (v.ipv4_total_length - v.ipv4_header_length) (with_network_fields f v),
)

answer-parse_datagram :
    (f : List ℕ) (n : ℕ) (v : PacketView)
    → answer (parse_datagram f n v) ≡ parse_datagram f n (answer v)
unfolding parse_datagram answer
answer-parse_datagram f n v = ground (
  arith,
  answer-parse_transport f (record v { ipv4_total_length = read_be16 f (v.l3_offset + 2) }),
)

answer-parse_header_length :
    (f : List ℕ) (n words : ℕ) (v : PacketView)
    → answer (parse_header_length f n words v) ≡ parse_header_length f n words (answer v)
unfolding parse_header_length answer
answer-parse_header_length f n words v =
    ground (arith, answer-parse_datagram f n (record v { ipv4_header_length = words * 4 }))

answer-parse_ipv4 :
    (f : List ℕ) (n : ℕ) (v : PacketView) → answer (parse_ipv4 f n v) ≡ parse_ipv4 f n (answer v)
unfolding parse_ipv4 answer
answer-parse_ipv4 f n v =
    ground (arith, answer-parse_header_length f n (ipv4_ihl_words (byte_at f v.l3_offset)) v)

parse_ipv4-answer :
    (n : ℕ) (xs ys : List ℕ) (v w : PacketView)
    → Agree n xs ys
    → answer v ≡ answer w
    → answer (parse_ipv4 xs n v) ≡ answer (parse_ipv4 ys n w)
parse_ipv4-answer n xs ys v w same e =
    answer-parse_ipv4 xs n v
    ∙ ap (parse_ipv4 xs n) e
    ∙ parse_ipv4-Agree n xs ys (answer w) same
    ∙ sym (answer-parse_ipv4 ys n w)

-- Of a buffer, the parser reads its first `n` bytes and no other: two buffers that agree there have the same answer.
pub parse_packet-Agree :
    (n : ℕ) (xs ys : List ℕ)
    → Agree n xs ys
    → answer (parse_packet (some xs) n) ≡ answer (parse_packet (some ys) n)
unfolding parse_packet answer
parse_packet-Agree n xs ys same = elim (Bool-cases (ltb n 14)) [
  | inl e ↦ rw e refl
  | inr e ↦
      rw (read_be16-Agree n xs ys 12 same (ground arith)) ground
        (arith, parse_ipv4-answer n xs ys (start xs) (start ys) same refl)
]
  where
    start : List ℕ → PacketView
    start zs = record (new_view (some zs) n) { ether_type = read_be16 ys 12; l3_offset = 14 }

byte_at-append : (xs ys : List ℕ) (i : ℕ) → i < length xs → byte_at xs i ≡ byte_at (xs ++ ys) i
byte_at-append [] ys i h = absurd (omega arith)
byte_at-append (x ∷ xs) ys zero h = refl
byte_at-append (x ∷ xs) ys (suc i) h = byte_at-append xs ys i (omega arith)

pub Agree-append : (xs ys : List ℕ) → Agree (length xs) xs (xs ++ ys)
unfolding Agree
Agree-append xs ys = byte_at-append xs ys
