-- ===== src/Main/Live/Fill.antt =====
-- src/main.cpp: the first fill of `run_live`.
use chronos_x.Base.{ℕ, ◌+◌, ◌≡◌, List, [], ◌∷◌, ◌++◌, length}
use chronos_x.FrameAllocator.{FrameAllocator, fill_ring, make_handle}
use chronos_x.FrameAllocator.Invariant.{IsValid}
use chronos_x.FrameAllocator.Handed.{Handed}
use chronos_x.LibxdpSocket.{LibxdpSocket, XskRings}
use chronos_x.LibxdpSocket.Contract.{Producer}
use chronos_x.Main.Live.{request_at}

module _ {P C : Type 0} (rings : XskRings P C)
    (frame_count frame_size slot_count max_frames tick_ns : ℕ) where
  -- The addresses of frames by their index.
  pub addresses_of : List ℕ → List ℕ
  addresses_of [] = []
  addresses_of (i ∷ frames) = (make_handle frame_count frame_size i).address ∷ addresses_of frames

  record Allocated (n : ℕ) (a : FrameAllocator) (addresses : List ℕ) (a' : FrameAllocator)
      : Type 0 where
    frames : List ℕ
    size : length frames ≡ n
    named : addresses ≡ addresses_of frames
    handed : Handed fill_ring frames a a'
    valid : IsValid frame_count a'

  module _ (laws : Producer rings.reserve rings.submit rings.write_fill_addr) where
    -- The frames handed out are those whose addresses are added to the ring, and those of a last round
    -- for which the ring had no room.
    pub record Filled (a : FrameAllocator) (s : LibxdpSocket P C) (filled filled' : ℕ)
        (a' : FrameAllocator) (s' : LibxdpSocket P C) (added lost : List ℕ) : Type 0 where
      pub valid : IsValid frame_count a'
      pub handed : Handed fill_ring (added ++ lost) a a'
      pub queue : laws.queue s'.fill_ring ≡ laws.queue s.fill_ring ++ addresses_of added
      pub size : filled + length added ≡ filled'
      pub lost_size : length lost ≡ request_at frame_count filled'
