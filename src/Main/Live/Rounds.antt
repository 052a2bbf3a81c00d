-- ===== src/Main/Live/Rounds.antt =====
-- src/main.cpp: which frames are free does not change in the loop of `run_live`.
use chronos_x.Base.{
  ℕ, suc, ◌≢◌, ◌∙◌, Option, List, [], ◌∷◌, All, ◌==◌, Bool-cases, inl, inr, add64, map, take,
}
use chronos_x.FrameAllocator.{
  FrameAllocator, FrameOwner, free, fill_ring, data_plane, tx_ring, is_ok, transition,
  handle_from_address, owner_of,
}
use chronos_x.FrameAllocator.Invariant.{IsValid}
use chronos_x.DataPlane.{ProcessedFrame, process_packet_batch}
use chronos_x.SocketManager.{RxDescriptor}
use chronos_x.LibxdpSocket.{
  LibxdpSocket, XskRings, SendError, submit_tx, drain_completions, consume_rx,
}
use chronos_x.Runtime.{data_plane_batch_size}
use chronos_x.Runtime.Custody.{
  Keeps, Keeps_self, Keeps_twice, transition-Keeps, Used, is_free_address-Keeps, taken_owner,
}
use chronos_x.Runtime.Moves.{fill_used, tx_used, data_plane_used}
use chronos_x.Main.Live.{
  LiveState, is_some, return_frame, complete, live_receive, recycle_frames, transmit_one, transmit,
  live_batch, live_round,
}

module _ {P C : Type 0} (rings : XskRings P C)
    (frame_count frame_size slot_count max_frames tick_ns : ℕ) where
  abbrev Kept : LiveState P C → LiveState P C → Type 0
  Kept l l' = Keeps frame_count frame_size l.allocator l'.allocator

  return_frame-Kept :
      (owner : FrameOwner) (address : ℕ) (l : LiveState P C)
      → owner ≢ free
      → IsValid frame_count l.allocator
      → Kept l
          (return_frame rings frame_count frame_size slot_count max_frames tick_ns owner address
            l).1
  unfolding return_frame
  return_frame-Kept owner address l used v =
      let frame = handle_from_address frame_count frame_size address in
      let (status, a) = transition frame_count frame_size l.allocator frame.frame owner fill_ring in
      let moved =
        transition-Keeps frame_count frame_size l.allocator frame.frame owner fill_ring used
          fill_used v in
      elim (Bool-cases (is_ok frame.status)) [
        | inr bad ↦ rw (bad, return_frame) (Keeps_self frame_count frame_size l.allocator v)
        | inl good ↦ elim (Bool-cases (is_ok status)) [
          | inr refused ↦ rw (good, refused, return_frame) moved
          | inl done ↦ rw (good, done, return_frame) moved
        ]
      ]

  complete-Kept :
      (addresses : List ℕ) (l : LiveState P C)
      → IsValid frame_count l.allocator
      → Kept l (complete rings frame_count frame_size slot_count max_frames tick_ns addresses l)
  unfolding complete
  complete-Kept [] l v = Keeps_self frame_count frame_size l.allocator v
  complete-Kept (address ∷ addresses) l v =
      let (done, l') =
        return_frame rings frame_count frame_size slot_count max_frames tick_ns tx_ring address l in
      let first = return_frame-Kept tx_ring address l tx_used v in
      elim (Bool-cases done) [
        | inl counted ↦
            rw (counted, complete)
              (Keeps_twice frame_count frame_size first (complete-Kept addresses _ first.valid))
        | inr refused ↦
            rw (refused, complete)
              (Keeps_twice frame_count frame_size first (complete-Kept addresses l' first.valid))
      ]

  recycle_frames-Kept :
      (addresses : List ℕ) (l : LiveState P C)
      → IsValid frame_count l.allocator
      → Kept l
          (recycle_frames rings frame_count frame_size slot_count max_frames tick_ns addresses l)
  unfolding recycle_frames
  recycle_frames-Kept [] l v = Keeps_self frame_count frame_size l.allocator v
  recycle_frames-Kept (address ∷ addresses) l v =
      let first = return_frame-Kept data_plane address l data_plane_used v in
      Keeps_twice frame_count frame_size first (recycle_frames-Kept addresses _ first.valid)

  transmit_one-Kept :
      (sendto : ℕ → Option SendError) (index : ℕ) (f : ProcessedFrame) (l : LiveState P C)
      → IsValid frame_count l.allocator
      → Kept l
          (transmit_one rings frame_count frame_size slot_count max_frames tick_ns sendto index f l)
  unfolding transmit_one
  transmit_one-Kept sendto index f l v =
      let frame = handle_from_address frame_count frame_size f.frame_address in
      let (status, a) =
        transition frame_count frame_size l.allocator frame.frame data_plane tx_ring in
      let moved =
        transition-Keeps frame_count frame_size l.allocator frame.frame data_plane tx_ring
          data_plane_used tx_used v in
      let (result, sent) =
        submit_tx rings l.socket
          (record { address = f.frame_address; length = f.frame_length; options = 0 } ∷ []) in
      elim (Bool-cases (is_ok frame.status)) [
        | inr bad ↦ rw (bad, transmit_one) (Keeps_self frame_count frame_size l.allocator v)
        | inl good ↦ elim (Bool-cases (is_ok status)) [
          | inr refused ↦ rw (good, refused, transmit_one) moved
          | inl done ↦ elim (Bool-cases (result.count == 1)) [
            | inr full ↦ rw (good, done, full, transmit_one) moved
            | inl room ↦ rw (good, done, room, transmit_one) moved
          ]
        ]
      ]

  transmit-Kept :
      (sendto : ℕ → Option SendError) (index : ℕ) (frames : List ProcessedFrame) (l : LiveState P C)
      → IsValid frame_count l.allocator
      → Kept l (
          transmit rings frame_count frame_size slot_count max_frames tick_ns sendto index frames l)
  unfolding transmit
  transmit-Kept sendto index [] l v = Keeps_self frame_count frame_size l.allocator v
  transmit-Kept sendto index (f ∷ frames) l v =
      let first = transmit_one-Kept sendto index f l v in
      Keeps_twice frame_count frame_size first
        (transmit-Kept sendto (suc index) frames _ first.valid)

  live_receive-Kept :
      (a : FrameAllocator) (rxs : List RxDescriptor) (b : FrameAllocator)
      → All (λ (rx : RxDescriptor). Used frame_count frame_size a rx.address) rxs
      → Keeps frame_count frame_size a b
      → Keeps frame_count frame_size a
          (live_receive rings frame_count frame_size slot_count max_frames tick_ns rxs b).1
  unfolding live_receive
  live_receive-Kept a [] b used k = k
  live_receive-Kept a (rx ∷ rxs) b (in_use, used) k =
      let handle = handle_from_address frame_count frame_size rx.address in
      elim (Bool-cases (is_ok handle.status)) [
        | inr bad ↦ rw (bad, live_receive) (live_receive-Kept a rxs b used k)
        | inl good ↦
            let owner : FrameOwner = owner_of frame_count frame_size b handle.frame.index in
            let (status, b') = transition frame_count frame_size b handle.frame owner data_plane in
            let used_here =
              taken_owner frame_count frame_size b rx.address
                (is_free_address-Keeps frame_count frame_size a b rx.address k ∙ in_use) good in
            let moved =
              transition-Keeps frame_count frame_size b handle.frame owner data_plane used_here
                data_plane_used k.valid in
            let rest =
              live_receive-Kept a rxs b' used (Keeps_twice frame_count frame_size k moved) in
            elim (Bool-cases (is_ok status)) [
              | inr refused ↦ rw (good, refused, live_receive) rest
              | inl taken ↦ rw (good, taken, live_receive) rest
            ]
      ]

  -- What a round receives.
  abbrev pub received : LiveState P C → List RxDescriptor
  received l =
      let (_, completions, s) = drain_completions rings l.socket data_plane_batch_size in
      let l' =
        complete rings frame_count frame_size slot_count max_frames tick_ns completions
          (record l { socket = s }) in
      (consume_rx rings l'.socket data_plane_batch_size).1

  live_batch-Kept :
      (a : FrameAllocator) (sendto : ℕ → Option SendError) (rxs : List RxDescriptor)
      (l : LiveState P C)
      → All (λ (rx : RxDescriptor). Used frame_count frame_size a rx.address) rxs
      → Keeps frame_count frame_size a l.allocator
      → Keeps frame_count frame_size a
          (live_batch rings frame_count frame_size slot_count max_frames tick_ns sendto rxs
            l).allocator
  unfolding live_batch
  live_batch-Kept a sendto rxs l used k =
      let k1 = live_receive-Kept a rxs l.allocator used k in
      let (descriptors, b) =
        live_receive rings frame_count frame_size slot_count max_frames tick_ns rxs l.allocator in
      let batch =
        process_packet_batch (is_some l.socket.umem_area) l.socket.umem_size [] tick_ns slot_count
          max_frames l.memory descriptors l.timing_wheel l.tx l.recycle in
      let m : LiveState P C = record l {
        allocator = b;
        timing_wheel = batch.timing_wheel;
        memory = batch.umem;
        tx = batch.tx_output;
        recycle = batch.recycle_output;
        packets_seen = add64 l.packets_seen batch.result.stats.packets_seen;
        packets_dropped = add64 l.packets_dropped batch.result.stats.packets_dropped;
      } in
      let recycled =
        map (λ f. f.frame_address) (take batch.result.recycle_count batch.recycle_output) in
      let k2 = recycle_frames-Kept recycled m k1.valid in
      let k3 =
        transmit-Kept sendto 0 (take batch.result.tx_count batch.tx_output)
          (recycle_frames rings frame_count frame_size slot_count max_frames tick_ns recycled m)
          k2.valid in
      Keeps_twice frame_count frame_size k1 (Keeps_twice frame_count frame_size k2 k3)

  live_round-Kept :
      (a : FrameAllocator) (sendto : ℕ → Option SendError) (l : LiveState P C)
      → All (λ (rx : RxDescriptor). Used frame_count frame_size a rx.address) (received l)
      → Keeps frame_count frame_size a l.allocator
      → Keeps frame_count frame_size a
          (live_round rings frame_count frame_size slot_count max_frames tick_ns sendto l).allocator
  unfolding live_round
  live_round-Kept a sendto l used k =
      let (_, completions, s) = drain_completions rings l.socket data_plane_batch_size in
      let l' =
        complete rings frame_count frame_size slot_count max_frames tick_ns completions
          (record l { socket = s }) in
      let k' =
        Keeps_twice frame_count frame_size k
          (complete-Kept completions (record l { socket = s }) k.valid) in
      let (result, rx, s') = consume_rx rings l'.socket data_plane_batch_size in
      elim (Bool-cases (result.count == 0)) [
        | inl idle ↦ rw (idle, live_round) k'
        | inr some_rx ↦
            rw (some_rx, live_round)
              (live_batch-Kept a sendto rx (record l' { socket = s' }) used k')
      ]

  -- The loop from a state on: before each round the kernel may do anything to the socket's rings and to the
  -- packets, but it delivers only frames that are in use in the pool `a`.
  pub data LiveRun (a : FrameAllocator) (start : LiveState P C) : LiveState P C → Type 0 where
    here : LiveRun a start start
    next :
        {l : LiveState P C} (s : LibxdpSocket P C) (memory : List ℕ) (sendto : ℕ → Option SendError)
        → LiveRun a start l
        → All
            (λ (rx : RxDescriptor). Used frame_count frame_size a rx.address)
            (received (record l { socket = s; memory = memory }))
        → LiveRun a start (
            live_round rings frame_count frame_size slot_count max_frames tick_ns sendto
              (record l { socket = s; memory = memory }))

  -- From a well-formed pool, in any number of rounds of the loop in which the kernel delivers only frames that
  -- were in use at its start, with whatever results of libxdp's rings and of sendto: the pool
  -- stays well formed and the same frames are free, so that none in use gets onto the free stack.
  pub LiveRun-Keeps :
      (start : LiveState P C) {l : LiveState P C}
      → IsValid frame_count start.allocator
      → LiveRun start.allocator start l
      → Keeps frame_count frame_size start.allocator l.allocator
  LiveRun-Keeps start v here = Keeps_self frame_count frame_size start.allocator v
  LiveRun-Keeps start v (next s memory sendto run used) =
      live_round-Kept start.allocator sendto _ used (LiveRun-Keeps start v run)
