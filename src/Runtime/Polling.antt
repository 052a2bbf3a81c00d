-- ===== src/Runtime/Polling.antt =====
-- include/chronosx/af_xdp_runtime.hpp: a whole poll, against the pool.
use chronos_x.Base.{
  ℕ, ◌+◌, ◌<◌, ◌*◌, ◌≡◌, refl, ap, ◌∙◌, List, All, Bool, true, false, not, arith, if◌then◌else◌,
  replicate, take, map, add64, u64_mod,
}
use chronos_x.ChaosEngine.{ChaosRule}
use chronos_x.Umem.{PacketDescriptor}
use chronos_x.FrameAllocator.{FrameAllocator, data_plane, tx_ring}
use chronos_x.FrameAllocator.Invariant.{IsValid}
use chronos_x.TimingWheel.{TimingWheel, DelayedFrame, tick}
use chronos_x.TimingWheel.Invariant.{entries, index-lt}
use chronos_x.TimingWheel.Invariant
use chronos_x.TimingWheel.Tick.{tick-IsValid}
use chronos_x.DataPlane.{ProcessedFrame, process_packet_batch}
use chronos_x.DataPlane.Conservation.{process_packet_batch-duplicates_none}
use chronos_x.SocketManager.{SimulatedXskSocket, RxDescriptor, consume_rx, drain_completions}
use chronos_x.Runtime.{
  Poll, AfXdpRuntimeAdapter, RuntimePollResult, no_stats, no_processed, data_plane_batch_size,
  delayed_frame, receive, drain_completed, release_delayed, process, poll, poll_once, with_socket,
  receive,
}
use chronos_x.Runtime.Custody.{Keeps, Keeps_self, Keeps_twice, Used}
use chronos_x.Runtime.Moves.{
  Moves, tx_used, data_plane_used, refill_addresses-Moves, submit_tx-Moves, receive-Moves,
}
use chronos_x.Runtime.Waiting.{
  ticked, delayed-Used, tick-wheel_weight, weigh-weightless, weightless-Used, HoldsUsed,
  free_weight,
}

module _
    (frame_count frame_size fill_size comp_size rx_size tx_size slot_count max_frames
      tick_ns : ℕ) where
  abbrev drained : Poll → Poll
  drained =
      drain_completed frame_count frame_size fill_size comp_size rx_size tx_size slot_count
        max_frames tick_ns

  abbrev released : Poll → Poll
  released =
      release_delayed frame_count frame_size fill_size comp_size rx_size tx_size slot_count
        max_frames tick_ns

  abbrev processed : List ChaosRule → List PacketDescriptor → Poll → Poll
  processed =
      process frame_count frame_size fill_size comp_size rx_size tx_size slot_count max_frames
        tick_ns

  abbrev Moved : Poll → Poll → Type 0
  Moved =
      Moves frame_count frame_size fill_size comp_size rx_size tx_size slot_count max_frames tick_ns

  drain_completed-Moves : (p : Poll) → IsValid frame_count p.adapter.allocator → Moved p (drained p)
  unfolding drain_completed
  drain_completed-Moves p v =
      let (result, completed, socket) =
        drain_completions fill_size comp_size rx_size tx_size p.adapter.socket
          data_plane_batch_size in
      let q = with_socket socket p in
      let q' : Poll = record q {
        stats = record q.stats { tx_completed = add64 q.stats.tx_completed result.count };
      } in
      let m =
        refill_addresses-Moves frame_count frame_size fill_size comp_size rx_size tx_size slot_count
          max_frames tick_ns tx_ring completed q' tx_used v in
      record { pool = m.pool; wheel = m.wheel; rx = m.rx }

  -- What the wheel hands over goes to the TX ring, and the wheel moves by a tick.
  record Released (a : FrameAllocator) (p q : Poll) : Type 0 where
    pool : Keeps frame_count frame_size p.adapter.allocator q.adapter.allocator
    valid : Invariant.IsValid slot_count max_frames q.adapter.timing_wheel
    clock : q.adapter.timing_wheel.current_tick ≡ p.adapter.timing_wheel.current_tick + 1
    holds : HoldsUsed frame_count frame_size a q.adapter.timing_wheel
    rx : q.adapter.socket.rx_ring ≡ p.adapter.socket.rx_ring

  release_delayed-Released :
      (a : FrameAllocator) (p : Poll)
      → Keeps frame_count frame_size a p.adapter.allocator
      → Invariant.IsValid slot_count max_frames p.adapter.timing_wheel
      → p.adapter.timing_wheel.current_tick + 1 < u64_mod
      → HoldsUsed frame_count frame_size a p.adapter.timing_wheel
      → Released a p (released p)
  unfolding release_delayed
  release_delayed-Released a p k v c h =
      let (expired, wheel) = tick slot_count max_frames p.adapter.timing_wheel in
      let weighed =
        tick-wheel_weight (free_weight frame_count frame_size a) slot_count max_frames
          p.adapter.timing_wheel c v in
      let used = delayed-Used frame_count frame_size a expired (
        weightless-Used frame_count frame_size (λ (f : DelayedFrame). f.frame_address) a expired
          (omega (arith, weighed, h))) in
      let q : Poll = record p { adapter = record p.adapter { timing_wheel = wheel } } in
      let m =
        submit_tx-Moves frame_count frame_size fill_size comp_size rx_size tx_size slot_count
          max_frames tick_ns a (map delayed_frame expired) q used k in
      record {
        pool = m.pool;
        valid = rw m.wheel (tick-IsValid slot_count max_frames p.adapter.timing_wheel c v);
        clock =
            ap (λ (w : TimingWheel). w.current_tick) m.wheel
            ∙ ticked slot_count max_frames p.adapter.timing_wheel c;
        holds = rw m.wheel (omega (arith, weighed, h));
        rx = m.rx;
      }

  -- The batch and what follows it.
  process-Moves :
      (a : FrameAllocator) (rules : List ChaosRule) (descriptors : List PacketDescriptor) (p : Poll)
      → Keeps frame_count frame_size a p.adapter.allocator
      → Invariant.IsValid slot_count max_frames p.adapter.timing_wheel
      → p.adapter.timing_wheel.current_tick + slot_count < u64_mod
      → HoldsUsed frame_count frame_size a p.adapter.timing_wheel
      → All (λ (d : PacketDescriptor). Used frame_count frame_size a d.frame_address) descriptors
      → Keeps frame_count frame_size a (processed rules descriptors p).adapter.allocator
        × HoldsUsed frame_count frame_size a (processed rules descriptors p).adapter.timing_wheel
  unfolding process
  process-Moves a rules descriptors p k v c h used =
      let span = replicate data_plane_batch_size no_processed in
      let batch =
        process_packet_batch true (frame_count * frame_size) rules tick_ns slot_count max_frames
          p.adapter.umem descriptors p.adapter.timing_wheel span span in
      let atmost =
        process_packet_batch-duplicates_none true (frame_count * frame_size) rules tick_ns
          slot_count max_frames (free_weight frame_count frame_size a) p.adapter.umem descriptors
          p.adapter.timing_wheel span span v c in
      let none =
        weigh-weightless frame_count frame_size (λ (d : PacketDescriptor). d.frame_address) a
          descriptors used in
      let q : Poll = record {
        adapter = record p.adapter { umem = batch.umem; timing_wheel = batch.timing_wheel };
        stats = record p.stats { data_plane = batch.result.stats };
      } in
      let sent =
        weightless-Used frame_count frame_size (λ (f : ProcessedFrame). f.frame_address) a
          (take batch.result.tx_count batch.tx_output) (omega (arith, atmost, h, none)) in
      let m =
        submit_tx-Moves frame_count frame_size fill_size comp_size rx_size tx_size slot_count
          max_frames tick_ns a (take batch.result.tx_count batch.tx_output) q sent k in
      let m' =
        refill_addresses-Moves frame_count frame_size fill_size comp_size rx_size tx_size slot_count
          max_frames tick_ns data_plane
          (map (λ f. f.frame_address) (take batch.result.recycle_count batch.recycle_output)) _
          data_plane_used m.pool.valid in
      (
        Keeps_twice frame_count frame_size k (Keeps_twice frame_count frame_size m.pool m'.pool),
        rw (m'.wheel ∙ m.wheel) (omega (arith, atmost, h, none)),
      )

  -- What the RX ring has for a poll.
  abbrev pub arrived : SimulatedXskSocket → List RxDescriptor
  arrived socket = (consume_rx fill_size comp_size rx_size tx_size socket data_plane_batch_size).1

  arrived_same : (s t : SimulatedXskSocket) → t.rx_ring ≡ s.rx_ring → arrived t ≡ arrived s
  unfolding consume_rx
  arrived_same s t e = rw e refl

  -- What a poll owes to the adapter it was called on.
  pub record Sound (a : FrameAllocator) (r : AfXdpRuntimeAdapter) : Type 0 where
    pub pool : Keeps frame_count frame_size a r.allocator
    pub wheel : HoldsUsed frame_count frame_size a r.timing_wheel

  poll-Sound :
      (rules : List ChaosRule) (r : AfXdpRuntimeAdapter)
      → IsValid frame_count r.allocator
      → Invariant.IsValid slot_count max_frames r.timing_wheel
      → r.timing_wheel.current_tick + slot_count + 1 < u64_mod
      → HoldsUsed frame_count frame_size r.allocator r.timing_wheel
      → All
          (λ (rx : RxDescriptor). Used frame_count frame_size r.allocator rx.address)
          (arrived r.socket)
      → Sound r.allocator
          (poll frame_count frame_size fill_size comp_size rx_size tx_size slot_count max_frames
            tick_ns rules r).adapter
  unfolding poll
  poll-Sound rules r v w c h rx =
      let p : Poll = record { adapter = r; stats = no_stats } in
      let d = drain_completed-Moves p v in
      let clock = ap (λ (w : TimingWheel). w.current_tick) d.wheel in
      let e =
        release_delayed-Released r.allocator (drained p) d.pool (rw d.wheel w)
          (omega (arith, clock, c)) (rw d.wheel h) in
      let q = released (drained p) in
      let (result, got, socket) =
        consume_rx fill_size comp_size rx_size tx_size q.adapter.socket data_plane_batch_size in
      let q' : Poll = record {
        adapter = record q.adapter { socket = socket };
        stats = record q.stats { rx_frames = result.count };
      } in
      let k = Keeps_twice frame_count frame_size d.pool e.pool in
      let (m, ds) =
        receive-Moves frame_count frame_size fill_size comp_size rx_size tx_size slot_count
          max_frames tick_ns r.allocator got q'
          (rw (arrived_same r.socket q.adapter.socket (e.rx ∙ d.rx)) rx) k in
      let (descriptors, after) =
        receive frame_count frame_size fill_size comp_size rx_size tx_size slot_count max_frames
          tick_ns got q' in
      let (pool, wheel) =
        process-Moves r.allocator rules descriptors after
          (Keeps_twice frame_count frame_size k m.pool) (rw m.wheel e.valid)
          (omega (arith, clock, e.clock, c, ap (λ (w : TimingWheel). w.current_tick) m.wheel))
          (rw m.wheel e.holds) ds in
      record { pool = pool; wheel = wheel }

  guarded :
      (a : FrameAllocator) (initialized : Bool) (x y : RuntimePollResult × AfXdpRuntimeAdapter)
      → Sound a x.1
      → Sound a y.1
      → Sound a (if not initialized then x else y).1
  guarded a true x y sx sy = sy
  guarded a false x y sx sy = sx

  -- For a well-formed pool and a well-formed wheel whose clock is not within a turn of its end: when neither
  -- the delayed frames nor those that the RX ring has for the poll are free, a poll leaves the
  -- pool well formed and the same frames free, so that it gives none back and takes none, and the wheel
  -- holds no free frame after it either.
  pub poll_once-Sound :
      (rules : List ChaosRule) (r : AfXdpRuntimeAdapter)
      → IsValid frame_count r.allocator
      → Invariant.IsValid slot_count max_frames r.timing_wheel
      → r.timing_wheel.current_tick + slot_count + 1 < u64_mod
      → HoldsUsed frame_count frame_size r.allocator r.timing_wheel
      → All
          (λ (rx : RxDescriptor). Used frame_count frame_size r.allocator rx.address)
          (arrived r.socket)
      → Sound r.allocator
          (poll_once frame_count frame_size fill_size comp_size rx_size tx_size slot_count
            max_frames tick_ns rules r).1
  unfolding poll_once
  poll_once-Sound rules r v w c h rx =
      guarded r.allocator r.initialized _ _
        (record { pool = Keeps_self frame_count frame_size r.allocator v; wheel = h })
        (poll-Sound rules r v w c h rx)
