-- ===== src/Main/Live.antt =====
-- src/main.cpp: `run_live` behind the socket's `init`. The sizes of the pool and the wheel and the tick are
-- parameters, and so are libxdp's rings; `sendto` gives what the kicks of a round return.
pub mod Rounds
pub mod Fill
use chronos_x.Base.{
  ℕ, zero, suc, ◌+◌, ◌-◌, ◌*◌, Bool, true, false, not, ◌&&◌, ◌||◌, Option, none, some, List, [],
  ◌∷◌, add64, ltb, ◌==◌, if◌then◌else◌, length, take, map,
}
use chronos_x.Umem.{PacketDescriptor}
use chronos_x.FrameAllocator.{
  FrameAllocator, FrameOwner, fill_ring, data_plane, tx_ring, is_ok, allocate, transition,
  handle_from_address, owner_of,
}
use chronos_x.TimingWheel.{TimingWheel}
use chronos_x.DataPlane.{ProcessedFrame, process_packet_batch}
use chronos_x.SocketManager.{RxDescriptor, TxDescriptor}
use chronos_x.LibxdpSocket.{
  LibxdpSocket, XskRings, SendError, refill, submit_tx, drain_completions, consume_rx, kick_tx,
}
use chronos_x.Runtime.{data_plane_batch_size, descriptor_of}

-- The objects and counters of the loop, with the bytes of the mapped area.
pub record LiveState (P C : Type 0) : Type 0 where
  pub socket : LibxdpSocket P C
  pub allocator : FrameAllocator
  pub timing_wheel : TimingWheel
  pub memory : List ℕ
  pub tx : List ProcessedFrame
  pub recycle : List ProcessedFrame
  pub packets_seen : ℕ
  pub packets_dropped : ℕ
  pub tx_submitted : ℕ
  pub completed : ℕ

abbrev pub is_some {ℓ} : {A : Type ℓ} → Option A → Bool
is_some none = false
is_some (some x) = true

-- How many frames a round of the first fill asks for.
unfoldable pub request_at : ℕ → ℕ → ℕ
request_at frame_count filled =
    if ltb (frame_count - filled) data_plane_batch_size
    then frame_count - filled
    else data_plane_batch_size

module _ {P C : Type 0} (rings : XskRings P C)
    (frame_count frame_size slot_count max_frames tick_ns : ℕ) where
  -- The allocations of a round of the first fill: the addresses of the frames.
  unfoldable pub allocate_frames : ℕ → FrameAllocator → List ℕ × FrameAllocator
  unfolding allocate
  allocate_frames zero a = ([], a)
  allocate_frames (suc n) a =
      let (allocation, a') = allocate frame_count frame_size a fill_ring in
      let (addresses, a'') = allocate_frames n a' in
      if not (is_ok allocation.status)
      then ([], a')
      else (allocation.frame.address ∷ addresses, a'')

  -- The loop of the first fill; none if the fuel runs out.
  unfoldable pub fill_frames :
      ℕ → ℕ → FrameAllocator → LibxdpSocket P C → Option (ℕ × FrameAllocator × LibxdpSocket P C)
  fill_frames zero filled a s = none
  fill_frames (suc fuel) filled a s =
      let (addresses, a') = allocate_frames (request_at frame_count filled) a in
      let (result, s') = refill rings s addresses in
      let rest = fill_frames fuel (filled + result.count) a' s' in
      if not (ltb filled frame_count)
      then some (filled, a, s)
      else if result.count == 0
      then some (filled, a', s')
      else rest

  -- A frame at an address goes from an owner to the fill ring, true if it did.
  unfoldable pub return_frame : FrameOwner → ℕ → LiveState P C → Bool × LiveState P C
  unfolding handle_from_address transition refill
  return_frame owner address l =
      let frame = handle_from_address frame_count frame_size address in
      let (status, a) = transition frame_count frame_size l.allocator frame.frame owner fill_ring in
      if not (is_ok frame.status)
      then (false, l)
      else if not (is_ok status)
      then (false, record l { allocator = a })
      else (
        true,
        record l { allocator = a; socket = (refill rings l.socket (frame.frame.address ∷ [])).1 },
      )

  unfoldable pub complete : List ℕ → LiveState P C → LiveState P C
  unfolding return_frame
  complete [] l = l
  complete (address ∷ addresses) l =
      let (done, l) = return_frame tx_ring address l in
      complete addresses (if done then record l { completed = add64 l.completed 1 } else l)

  unfoldable pub live_receive :
      List RxDescriptor → FrameAllocator → List PacketDescriptor × FrameAllocator
  unfolding handle_from_address owner_of transition
  live_receive [] a = ([], a)
  live_receive (rx ∷ rxs) a =
      let frame = handle_from_address frame_count frame_size rx.address in
      let owner = owner_of frame_count frame_size a frame.frame.index in
      let (status, a') = transition frame_count frame_size a frame.frame owner data_plane in
      let refused = live_receive rxs a in
      let (descriptors, a'') = live_receive rxs a' in
      if not (is_ok frame.status)
      then refused
      else if not (is_ok status)
      then (descriptors, a'')
      else (descriptor_of rx ∷ descriptors, a'')

  unfoldable pub recycle_frames : List ℕ → LiveState P C → LiveState P C
  unfolding return_frame
  recycle_frames [] l = l
  recycle_frames (address ∷ addresses) l =
      recycle_frames addresses (return_frame data_plane address l).1

  -- `index` counts the rounds of the loop.
  unfoldable pub transmit_one :
      (ℕ → Option SendError) → ℕ → ProcessedFrame → LiveState P C → LiveState P C
  unfolding handle_from_address transition submit_tx kick_tx
  transmit_one sendto index f l =
      let frame = handle_from_address frame_count frame_size f.frame_address in
      let (status, a) =
        transition frame_count frame_size l.allocator frame.frame data_plane tx_ring in
      let (result, s) =
        submit_tx rings l.socket
          (record { address = f.frame_address; length = f.frame_length; options = 0 } ∷ []) in
      if not (is_ok frame.status)
      then l
      else if not (is_ok status)
      then record l { allocator = a }
      else if result.count == 1
      then record l {
        allocator = a;
        socket = (kick_tx (sendto index) s).1;
        tx_submitted = add64 l.tx_submitted 1;
      }
      else record l { allocator = a; socket = s }

  unfoldable pub transmit :
      (ℕ → Option SendError) → ℕ → List ProcessedFrame → LiveState P C → LiveState P C
  unfolding transmit_one
  transmit sendto index [] l = l
  transmit sendto index (f ∷ frames) l =
      transmit sendto (suc index) frames (transmit_one sendto index f l)

  -- A round of the loop behind the test for received descriptors.
  unfoldable pub live_batch :
      (ℕ → Option SendError) → List RxDescriptor → LiveState P C → LiveState P C
  unfolding live_receive process_packet_batch recycle_frames transmit
  live_batch sendto rx l =
      let (descriptors, a) = live_receive rx l.allocator in
      let batch =
        process_packet_batch (is_some l.socket.umem_area) l.socket.umem_size [] tick_ns slot_count
          max_frames l.memory descriptors l.timing_wheel l.tx l.recycle in
      let l : LiveState P C = record l {
        allocator = a;
        timing_wheel = batch.timing_wheel;
        memory = batch.umem;
        tx = batch.tx_output;
        recycle = batch.recycle_output;
        packets_seen = add64 l.packets_seen batch.result.stats.packets_seen;
        packets_dropped = add64 l.packets_dropped batch.result.stats.packets_dropped;
      } in
      let l =
        recycle_frames
          (map (λ f. f.frame_address) (take batch.result.recycle_count batch.recycle_output)) l in
      transmit sendto 0 (take batch.result.tx_count batch.tx_output) l

  unfoldable pub live_round : (ℕ → Option SendError) → LiveState P C → LiveState P C
  unfolding drain_completions complete consume_rx live_batch
  live_round sendto l =
      let (_, completions, s) = drain_completions rings l.socket data_plane_batch_size in
      let l = complete completions (record l { socket = s }) in
      let (result, rx, s) = consume_rx rings l.socket data_plane_batch_size in
      let l = record l { socket = s } in if result.count == 0 then l else live_batch sendto rx l
