-- ===== src/Umem.antt =====
-- include/chronosx/data_plane.hpp: the functions on descriptors, delays and the bytes of UMEM, which
-- the batch loop calls. UMEM is a list of bytes; a frame pointer is an offset into it, or none.
pub mod Bytes
pub mod Macs
mod Tests
use chronos_x.Base.{
  ℕ, zero, suc, ◌+◌, ◌-◌, ◌/◌, ◌%◌, Bool, true, false, not, ◌||◌, List, Option, none, some, bit_xor,
  add64, sub64, u64_mod, ltb, leb, ◌==◌, if◌then◌else◌, get_or, set,
}
use chronos_x.PacketParser.{PacketView, packet_ok, ethernet_header_bytes}

pub record PacketDescriptor : Type 0 where
  pub frame_address : ℕ
  pub frame_length : ℕ
  pub options : ℕ

unfoldable pub delay_ns_to_ticks : ℕ → ℕ → ℕ
delay_ns_to_ticks delay_ns tick_ns =
    if delay_ns == 0
    then 1
    else if tick_ns == 0
    then delay_ns
    else sub64 (add64 delay_ns tick_ns) 1 / tick_ns

-- The loop's body: the bytes at `index` and `index + 6` of the frame at `start` change places.
abbrev pub swap_bytes : ℕ → ℕ → List ℕ → List ℕ
swap_bytes start index umem =
    set (set umem (start + index) (get_or umem (start + (index + 6)) 0)) (start + (index + 6))
      (get_or umem (start + index) 0)

-- `n` rounds from `index` on.
unfoldable pub swap_loop : ℕ → ℕ → ℕ → List ℕ → List ℕ
swap_loop zero index start umem = umem
swap_loop (suc n) index start umem = swap_loop n (suc index) start (swap_bytes start index umem)

unfoldable pub swap_ethernet_macs : ℕ → ℕ → List ℕ → Bool × List ℕ
unfolding swap_loop
swap_ethernet_macs start size umem =
    if ltb size ethernet_header_bytes then (false, umem) else (true, swap_loop 6 0 start umem)

unfoldable pub corrupt_packet_payload : Option ℕ → PacketView → ℕ → List ℕ → Bool × List ℕ
corrupt_packet_payload none packet selector umem = (false, umem)
corrupt_packet_payload (some frame) packet selector umem =
    if not (packet_ok packet)
      || packet.payload_length == 0
      || leb packet.frame_length packet.payload_offset
    then (false, umem)
    else let byte_offset = packet.payload_offset + selector % packet.payload_length in
      if leb packet.frame_length byte_offset then (false, umem) else (
        true,
        set umem (frame + byte_offset) (bit_xor (get_or umem (frame + byte_offset) 0) 0x01),
      )

unfoldable pub descriptor_within_umem : PacketDescriptor → ℕ → Bool
descriptor_within_umem descriptor umem_size_bytes =
    if ltb (u64_mod - 1) descriptor.frame_address
    then false
    else let address = descriptor.frame_address in
      if ltb umem_size_bytes address
      then false
      else leb descriptor.frame_length (umem_size_bytes - address)

-- `if (frame != nullptr) (void)swap_ethernet_macs(…)`
unfoldable pub reflect : Option ℕ → ℕ → List ℕ → List ℕ
unfolding swap_ethernet_macs
reflect none size umem = umem
reflect (some start) size umem = (swap_ethernet_macs start size umem).1
