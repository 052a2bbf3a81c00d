-- ===== src/Main/Packet.antt =====
-- src/main.cpp: what the parser makes of a packet of the demonstrations.
use chronos_x.Base.{
  ℕ, zero, suc, ◌+◌, ◌≤◌, ◌<◌, ◌≡◌, refl, ap, sym, ◌∙◌, List, [], ◌∷◌, ◌++◌, some, arith, bit_and,
  u8, u16, set, length, drop, replicate,
}
use chronos_x.PacketParser.{parse_packet, read_be16}
use chronos_x.PacketParser.Fields.{be16_field, be32_field}
use chronos_x.PacketParser.Frames.{Sent, sent_view}
use chronos_x.PacketParser.RoundTrip.{Reads, parse_packet_tcp}
use chronos_x.Protocol.Header.{low_byte}
use chronos_x.Main.{zero_fill, payload_loop, write_headers, build_test_packet}

zero_fill-add :
    (m n : ℕ) (frame : List ℕ)
    → m ≤ length frame
    → zero_fill (m + n) frame ≡ replicate m 0 ++ zero_fill n (drop m frame)
unfolding zero_fill
zero_fill-add zero n frame h = ap (λ (k : ℕ). zero_fill k frame) (omega arith)
zero_fill-add (suc m) n [] h = absurd (omega (arith, h))
zero_fill-add (suc m) n (x ∷ frame) h =
    ap (λ (k : ℕ). zero_fill k (x ∷ frame)) (let e : suc m + n ≡ suc (m + n) = omega arith in e)
    ∙ ap (λ l. 0 ∷ l) (zero_fill-add m n frame (omega (arith, h)))

set-append : (xs ys : List ℕ) (i v : ℕ) → set (xs ++ ys) (length xs + i) v ≡ xs ++ set ys i v
set-append [] ys i v = ap (λ (k : ℕ). set ys k v) (omega arith)
set-append (x ∷ xs) ys i v =
    ap (λ (k : ℕ). set (x ∷ (xs ++ ys)) k v)
      (let e : suc (length xs) + i ≡ suc (length xs + i) = omega arith in e)
    ∙ ap (λ l. x ∷ l) (set-append xs ys i v)

-- The payload, written behind a header of 54 bytes.
tail_loop : ℕ → ℕ → List ℕ → List ℕ
tail_loop zero i tail = tail
tail_loop (suc n) i tail = tail_loop n (suc i) (set tail i (u8 (bit_and i 0xff)))

payload_loop_lem :
    (n i : ℕ) (header tail : List ℕ)
    → length header ≡ 54
    → payload_loop n i (header ++ tail) ≡ header ++ tail_loop n i tail
unfolding payload_loop tail_loop
payload_loop_lem zero i header tail e = refl
payload_loop_lem (suc n) i header tail e =
    ap (payload_loop n (suc i)) (
      ap (λ (k : ℕ). set (header ++ tail) (k + i) (u8 (bit_and i 0xff))) (sym e)
      ∙ set-append header tail i (u8 (bit_and i 0xff)))
    ∙ payload_loop_lem n (suc i) header (set tail i (u8 (bit_and i 0xff))) e

-- What the sender of such a packet chose.
abbrev pub test_sent : ℕ → ℕ → Sent
test_sent dst_port payload_size = record {
  destination_mac = 0;
  source_mac = 0;
  service = 0;
  identification = 0;
  time_to_live = 64;
  header_checksum = 0;
  source = 0;
  destination = 0;
  source_port = 12345;
  destination_port = dst_port;
  checksum = 0;
  payload = [];
  size = payload_size;
}

abbrev header : ℕ → ℕ → List ℕ
header dst_port payload_size = write_headers dst_port payload_size (replicate 54 0)

built :
    (frame : List ℕ) (dst_port payload_size : ℕ)
    → 54 + payload_size ≤ length frame
    → build_test_packet frame dst_port payload_size
      ≡ header dst_port payload_size
        ++ tail_loop payload_size 0 (zero_fill payload_size (drop 54 frame))
unfolding build_test_packet write_headers
built frame dst_port payload_size h =
    ap (λ f. payload_loop payload_size 0 (write_headers dst_port payload_size f))
      (zero_fill-add 54 payload_size frame (omega (arith, h)))
    ∙ payload_loop_lem payload_size 0 (header dst_port payload_size) _ refl

-- In a frame with room for it, a packet with a payload of fewer than 65496 bytes is parsed, in any length
-- that holds it, to the view of an unfragmented TCP segment from port 12345 to the port given, with
-- null addresses and a payload of that size at offset 54.
pub parse_packet-build_test_packet :
    (frame : List ℕ) (dst_port payload_size n : ℕ)
    → 54 + payload_size ≤ length frame
    → payload_size < 65496
    → dst_port < 65536
    → 54 + payload_size ≤ n
    → let packet = build_test_packet frame dst_port payload_size in
      parse_packet (some packet) n ≡ sent_view (test_sent dst_port payload_size) packet n 6 20
unfolding write_headers read_be16
parse_packet-build_test_packet frame dst_port payload_size n room small port inside =
    rw (built frame dst_port payload_size room) (
      parse_packet_tcp f (test_sent dst_port payload_size) n reads
        (be16_field f 34 12345 (omega arith) refl refl)
        (be16_field f 36 dst_port port (omega (arith, port)) (low_byte dst_port)) refl inside)
  where
    tail : List ℕ
    tail = tail_loop payload_size 0 (zero_fill payload_size (drop 54 frame))

    f : List ℕ
    f = header dst_port payload_size ++ tail

    reads : Reads f (test_sent dst_port payload_size) 6 (20 + (20 + payload_size))
    reads = record {
      ether = be16_field f 12 0x0800 (omega arith) refl refl;
      version = refl;
      total =
          be16_field f 16 (20 + (20 + payload_size)) (omega (arith, small)) (omega (arith, small))
            (low_byte (u16 (20 + 20 + payload_size)) ∙ omega (arith, small));
      whole = refl;
      protocol = refl;
      source = be32_field f 26 0 (omega arith) refl refl refl refl;
      destination = be32_field f 30 0 (omega arith) refl refl refl refl;
    }
