-- ===== src/Umem/Bytes.antt =====
-- include/chronosx/data_plane.hpp: the tests and writes on UMEM, and the conversion of delays.
use native.Mathlib.Nat.{div-add-mod', mod-lt, div-eq_of_lt, mod-eq_of_lt}
use chronos_x.Base.{
  ℕ, zero, suc, ◌+◌, ◌-◌, ◌*◌, ◌/◌, ◌%◌, ◌<◌, ◌≤◌, ◌≡◌, ◌≢◌, ◌↔◌, refl, ap, sym, ◌∙◌, true, List,
  [], ◌∷◌, some, arith, length, set, get_or, u64_mod, add64, sub64, bit_xor, get_or-set_self,
  get_or-set_ne,
}
use chronos_x.Base.Bits.{bit_xor_twice}
use chronos_x.PacketParser.{PacketView, packet_ok}
use chronos_x.PacketParser.Bounds.{InBounds}
use chronos_x.Umem.{
  PacketDescriptor, descriptor_within_umem, delay_ns_to_ticks, corrupt_packet_payload,
}

-- A descriptor with a 64-bit address is accepted exactly if its frame ends inside UMEM.
pub descriptor_within_umem_iff :
    (d : PacketDescriptor) (size : ℕ)
    → d.frame_address < u64_mod
    → descriptor_within_umem d size ≡ true ↔ d.frame_address + d.frame_length ≤ size
unfolding descriptor_within_umem
descriptor_within_umem_iff d size h = ground arith

-- The conversion without the machine's order of operations.
ticks_lem :
    (delay tick : ℕ)
    → 0 < delay
    → 0 < tick
    → delay_ns_to_ticks delay tick ≡ (delay + tick - 1) % u64_mod / tick
unfolding delay_ns_to_ticks
ticks_lem delay tick d t = ground (arith, wrap)
  where
    wrap : sub64 (add64 delay tick) 1 ≡ (delay + tick - 1) % u64_mod
    wrap = omega arith

quotient_pos : (n tick delay : ℕ) → 0 < delay → delay ≤ n * tick → 0 < n
quotient_pos zero tick delay d h = absurd (omega arith)
quotient_pos (suc n) tick delay d h = omega arith

-- Where the sum of delay and tick fits in 64 bits, the ticks of a delay are its length in ticks rounded up:
-- the least number of ticks, of at least one, that lasts as long as the delay.
pub delay_ns_to_ticks_rounds_up :
    (delay tick : ℕ)
    → 0 < delay
    → 0 < tick
    → delay + tick ≤ u64_mod
    → let n = delay_ns_to_ticks delay tick in
      (0 < n) × (delay ≤ n * tick) × (n * tick < delay + tick)
delay_ns_to_ticks_rounds_up delay tick d t fits =
    (quotient_pos (delay_ns_to_ticks delay tick) tick delay d low, low, high)
  where
    exact : delay_ns_to_ticks delay tick ≡ (delay + tick - 1) / tick
    exact = ticks_lem delay tick d t ∙ ap (λ m. m / tick) (mod-eq_of_lt (omega arith))

    parts : delay_ns_to_ticks delay tick * tick + (delay + tick - 1) % tick ≡ delay + tick - 1
    parts = rw exact (div-add-mod' (delay + tick - 1) tick)

    low : delay ≤ delay_ns_to_ticks delay tick * tick
    low = omega (arith, parts, mod-lt (delay + tick - 1) t)

    high : delay_ns_to_ticks delay tick * tick < delay + tick
    high = omega (arith, parts)

-- Where the sum of a delay and a tick, of 64 bits each, exceeds 2 ^ 64, the delay is 0 ticks.
pub delay_ns_to_ticks_wraps :
    (delay tick : ℕ)
    → delay < u64_mod
    → tick < u64_mod
    → u64_mod < delay + tick
    → delay_ns_to_ticks delay tick ≡ 0
delay_ns_to_ticks_wraps delay tick d t over =
    ticks_lem delay tick (omega arith) (omega arith) ∙ div-eq_of_lt (omega arith)

-- A payload that can be corrupted is so in one byte, which lies in the payload, in its lowest bit.
corrupted_at :
    (frame : ℕ) (p : PacketView) (selector : ℕ) (umem : List ℕ)
    → packet_ok p ≡ true
    → 0 < p.payload_length
    → p.payload_offset + p.payload_length ≤ p.frame_length
    → let at_byte = frame + (p.payload_offset + selector % p.payload_length) in
      corrupt_packet_payload (some frame) p selector umem
      ≡ (true, set umem at_byte (bit_xor (get_or umem at_byte 0) 1))
unfolding corrupt_packet_payload
corrupted_at frame p selector umem ok pos inside = ground (arith, ok, mod-lt selector pos)

set_back : (xs : List ℕ) (k a : ℕ) → set (set xs k a) k (get_or xs k 0) ≡ xs
set_back [] k a = refl
set_back (x ∷ xs) zero a = refl
set_back (x ∷ xs) (suc k) a = ap (λ t. x ∷ t) (set_back xs k a)

-- Corruption changes one bit, of one byte of the payload, and doing it again with the same selector undoes it. For a view with the parser's
-- bounds and a payload of at least one byte, of a frame at `start` that lies in UMEM, the offset `k` of the byte is in the payload,
-- every other byte of UMEM is as before, and the second call gives UMEM back.
pub corrupt_packet_payload-one_bit :
    (umem : List ℕ) (p : PacketView) (start selector : ℕ)
    → packet_ok p ≡ true
    → InBounds p.frame_length p
    → 0 < p.payload_length
    → start + p.frame_length ≤ length umem
    → let k = p.payload_offset + selector % p.payload_length in
      let once = (corrupt_packet_payload (some start) p selector umem).1 in
      (p.payload_offset ≤ k)
      × (k < p.payload_offset + p.payload_length)
      × (get_or once (start + k) 0 ≡ bit_xor (get_or umem (start + k) 0) 1)
      × ((i : ℕ) → i ≢ start + k → get_or once i 0 ≡ get_or umem i 0)
      × ((corrupt_packet_payload (some start) p selector once).1 ≡ umem)
corrupt_packet_payload-one_bit umem p start selector ok inside pos fits = (
  omega arith,
  omega (arith, lt),
  rw write same,
  (λ i ne.
      rw write
        (get_or-set_ne umem at_byte i (bit_xor (get_or umem at_byte 0) 1) 0 (λ e. ne (sym e)))),
  (rw
      (
        write,
        corrupted_at start p selector once ok pos ends,
        same,
        bit_xor_twice (get_or umem at_byte 0) 1,
      )
      (set_back umem at_byte (bit_xor (get_or umem at_byte 0) 1))),
)
  where
    at_byte : ℕ
    at_byte = start + (p.payload_offset + selector % p.payload_length)

    once : List ℕ
    once = set umem at_byte (bit_xor (get_or umem at_byte 0) 1)

    lt : selector % p.payload_length < p.payload_length
    lt = mod-lt selector pos

    ends : p.payload_offset + p.payload_length ≤ p.frame_length
    ends = omega (arith, inside.payload_high, inside.datagram)

    same : get_or once at_byte 0 ≡ bit_xor (get_or umem at_byte 0) 1
    same =
        get_or-set_self umem at_byte (bit_xor (get_or umem at_byte 0) 1) 0 (omega (arith, lt, ends))

    write : corrupt_packet_payload (some start) p selector umem ≡ (true, once)
    write = corrupted_at start p selector umem ok pos ends
