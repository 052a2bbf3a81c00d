-- ===== src/Main.antt =====
-- src/main.cpp: the packets of the demonstrations, and the live mode over a socket of libxdp.
pub mod Packet
pub mod Live
pub mod Demo
mod Tests
use chronos_x.Base.{ℕ, zero, suc, ◌+◌, ◌%◌, List, [], ◌∷◌, bit_and, u8, u16, ◌>>◌, set}

-- The `memset` at the start.
unfoldable pub zero_fill : ℕ → List ℕ → List ℕ
zero_fill zero frame = frame
zero_fill (suc n) [] = []
zero_fill (suc n) (x ∷ frame) = 0 ∷ zero_fill n frame

-- The loop over the payload, `n` rounds from `i` on.
unfoldable pub payload_loop : ℕ → ℕ → List ℕ → List ℕ
payload_loop zero i frame = frame
payload_loop (suc n) i frame = payload_loop n (suc i) (set frame (54 + i) (u8 (bit_and i 0xff)))

-- The headers' bytes that are not zero.
unfoldable pub write_headers : ℕ → ℕ → List ℕ → List ℕ
write_headers dst_port payload_size frame =
    let frame = set frame 12 0x08 in
    let frame = set frame 13 0x00 in
    let frame = set frame 14 0x45 in
    let total_len = u16 (20 + 20 + payload_size) in
    let frame = set frame 16 (u8 (total_len >> 8)) in
    let frame = set frame 17 (u8 (bit_and total_len 0xff)) in
    let frame = set frame 22 64 in
    let frame = set frame 23 6 in
    let frame = set frame 34 (u8 (12345 >> 8)) in
    let frame = set frame 35 (u8 (bit_and 12345 0xff)) in
    let frame = set frame 36 (u8 (dst_port >> 8)) in
    let frame = set frame 37 (u8 (bit_and dst_port 0xff)) in set frame 46 0x50

-- `frame` is what lies behind the pointer.
unfoldable pub build_test_packet : List ℕ → ℕ → ℕ → List ℕ
unfolding zero_fill payload_loop write_headers
build_test_packet frame dst_port payload_size =
    let total_frame = 14 + 20 + 20 + payload_size in
    payload_loop payload_size 0 (write_headers dst_port payload_size (zero_fill total_frame frame))
