-- ===== src/Runtime.antt =====
-- include/chronosx/af_xdp_runtime.hpp: the adapter that moves frames between the socket's rings, the
-- data plane and the timing wheel, and keeps their owners. The sizes of the template's socket, pool and wheel
-- are parameters, as is the tick that `process_packet_batch` takes by default.
pub mod Custody
pub mod Moves
pub mod Waiting
pub mod Polling
pub mod Startup
mod Tests
use chronos_x.Base.{
  ℕ, zero, suc, ◌+◌, ◌*◌, Bool, true, false, not, List, [], ◌∷◌, add64, ltb, ◌==◌, if◌then◌else◌,
  length, replicate, take, map,
}
use chronos_x.Types.{PacketAction, pass, delay}
use chronos_x.ChaosEngine.{ChaosRule}
use chronos_x.Umem.{PacketDescriptor}
use chronos_x.FrameAllocator.{
  FrameAllocator, FrameHandle, FrameOwner, FrameStatus, free, fill_ring, data_plane, tx_ring, is_ok,
  allocate, transition, handle_from_address, owner_of,
}
use chronos_x.FrameAllocator
use chronos_x.TimingWheel.{TimingWheel, DelayedFrame, tick}
use chronos_x.TimingWheel
use chronos_x.DataPlane.{ProcessedFrame, DataPlaneBatchStats, empty_result, process_packet_batch}
use chronos_x.SocketManager.{
  SimulatedXskSocket, RxDescriptor, TxDescriptor, new_socket, refill, drain_completions, consume_rx,
  kick_tx,
}
use chronos_x.SocketManager

abbrev pub data_plane_batch_size : ℕ
data_plane_batch_size = 64

pub data RuntimeStatus : Type 0 where
  ok already_initialized not_initialized frame_allocation_failed invalid_frame invalid_owner
        ring_full :
      RuntimeStatus

abbrev pub is_runtime_ok : RuntimeStatus → Bool
is_runtime_ok ok = true
is_runtime_ok _ = false

pub record RuntimePollStats : Type 0 where
  pub rx_frames : ℕ
  pub tx_submitted : ℕ
  pub tx_completed : ℕ
  pub fill_refilled : ℕ
  pub fill_failures : ℕ
  pub owner_failures : ℕ
  pub data_plane : DataPlaneBatchStats

abbrev pub no_stats : RuntimePollStats
no_stats = record {
  rx_frames = 0;
  tx_submitted = 0;
  tx_completed = 0;
  fill_refilled = 0;
  fill_failures = 0;
  owner_failures = 0;
  data_plane = empty_result.stats;
}

pub record RuntimePollResult : Type 0 where
  pub status : RuntimeStatus
  pub stats : RuntimePollStats

pub record AfXdpRuntimeAdapter : Type 0 where
  pub umem : List ℕ
  pub allocator : FrameAllocator
  pub socket : SimulatedXskSocket
  pub timing_wheel : TimingWheel
  pub initialized : Bool

-- What a poll changes: the adapter and the statistics.
pub record Poll : Type 0 where
  pub adapter : AfXdpRuntimeAdapter
  pub stats : RuntimePollStats

abbrev pub owner_failed : Poll → Poll
owner_failed p = record p {
  stats = record p.stats { owner_failures = add64 p.stats.owner_failures 1 };
}

abbrev pub fill_failed : Poll → Poll
fill_failed p = record p {
  stats = record p.stats { fill_failures = add64 p.stats.fill_failures 1 };
}

abbrev pub with_allocator : FrameAllocator → Poll → Poll
with_allocator a p = record p { adapter = record p.adapter { allocator = a } }

abbrev pub with_socket : SimulatedXskSocket → Poll → Poll
with_socket s p = record p { adapter = record p.adapter { socket = s } }

abbrev pub no_processed : ProcessedFrame
no_processed = record { frame_address = 0; frame_length = 0; rule_id = 0; action = pass }

abbrev pub delayed_frame : DelayedFrame → ProcessedFrame
delayed_frame frame = record {
  frame_address = frame.frame_address;
  frame_length = frame.frame_length;
  rule_id = frame.rule_id;
  action = delay;
}

abbrev pub descriptor_of : RxDescriptor → PacketDescriptor
descriptor_of rx = record {
  frame_address = rx.address;
  frame_length = rx.length;
  options = rx.options;
}

module _
    (frame_count frame_size fill_size comp_size rx_size tx_size slot_count max_frames
      tick_ns : ℕ) where
  unfoldable pub new_adapter : AfXdpRuntimeAdapter
  unfolding FrameAllocator.init new_socket TimingWheel.init
  new_adapter = record {
    umem = replicate (frame_count * frame_size) 0;
    allocator = FrameAllocator.init frame_count frame_size;
    socket = new_socket fill_size comp_size rx_size tx_size;
    timing_wheel = TimingWheel.init slot_count max_frames;
    initialized = false;
  }

  -- The loop of `init`, `n` rounds; true if it ran to its end.
  unfoldable pub init_loop : ℕ → AfXdpRuntimeAdapter → RuntimeStatus × AfXdpRuntimeAdapter
  unfolding allocate refill transition
  init_loop zero r = (ok, r)
  init_loop (suc n) r =
      let (allocation, a) = allocate frame_count frame_size r.allocator fill_ring in
      let (fill, socket) =
        refill fill_size comp_size rx_size tx_size r.socket (allocation.frame.address ∷ []) in
      let rest = init_loop n (record r { allocator = a; socket = socket }) in
      if not (is_ok allocation.status)
      then (frame_allocation_failed, record r { allocator = a })
      else if not (fill.count == 1)
      then (
        ring_full,
        record r {
          allocator = (transition frame_count frame_size a allocation.frame fill_ring free).1;
          socket = socket;
        },
      )
      else rest

  -- `initial_fill_frames` is the member of `RuntimeConfig`.
  unfoldable pub init : ℕ → AfXdpRuntimeAdapter → RuntimeStatus × AfXdpRuntimeAdapter
  unfolding init_loop
  init initial_fill_frames r =
      if r.initialized
      then (already_initialized, r)
      else let fill_target =
          if ltb initial_fill_frames frame_count then initial_fill_frames else frame_count in
        let (status, r') = init_loop fill_target r in
        (status, if is_runtime_ok status then record r' { initialized = true } else r')

  unfoldable pub refill_one : FrameHandle → FrameOwner → Poll → Poll
  unfolding transition refill
  refill_one frame expected_owner p =
      let (status, a) =
        transition frame_count frame_size p.adapter.allocator frame expected_owner fill_ring in
      if not (is_ok status)
      then owner_failed (with_allocator a p)
      else let (fill, socket) =
          refill fill_size comp_size rx_size tx_size p.adapter.socket (frame.address ∷ []) in
        let p = with_socket socket (with_allocator a p) in
        if fill.count == 1
        then record p { stats = record p.stats { fill_refilled = add64 p.stats.fill_refilled 1 } }
        else with_allocator (transition frame_count frame_size a frame fill_ring expected_owner).1
            (fill_failed p)

  -- The loops of `drain_completions` and `refill_recycled`: addresses with the owner expected.
  unfoldable pub refill_addresses : FrameOwner → List ℕ → Poll → Poll
  unfolding refill_one handle_from_address
  refill_addresses expected_owner [] p = p
  refill_addresses expected_owner (address ∷ addresses) p =
      let frame = handle_from_address frame_count frame_size address in
      refill_addresses expected_owner addresses (
        if not (is_ok frame.status)
        then owner_failed p
        else refill_one frame.frame expected_owner p)

  unfoldable pub drain_completed : Poll → Poll
  unfolding drain_completions refill_addresses
  drain_completed p =
      let (result, completed, socket) =
        drain_completions fill_size comp_size rx_size tx_size p.adapter.socket
          data_plane_batch_size in
      let p = with_socket socket p in
      refill_addresses tx_ring completed (record p {
        stats = record p.stats { tx_completed = add64 p.stats.tx_completed result.count };
      })

  -- A round of `submit_tx`.
  unfoldable pub submit_one : ProcessedFrame → Poll → Poll
  unfolding handle_from_address owner_of transition SocketManager.submit_tx kick_tx
  submit_one frame p =
      let handle = handle_from_address frame_count frame_size frame.frame_address in
      if not (is_ok handle.status)
      then owner_failed p
      else let owner = owner_of frame_count frame_size p.adapter.allocator handle.frame.index in
        let (status, a) =
          transition frame_count frame_size p.adapter.allocator handle.frame owner tx_ring in
        if not (is_ok status)
        then owner_failed (with_allocator a p)
        else let (result, socket) =
            SocketManager.submit_tx fill_size comp_size rx_size tx_size p.adapter.socket (
              record { address = frame.frame_address; length = frame.frame_length; options = 0 }
              ∷ []) in
          if result.count == 1
          then with_socket (kick_tx socket).1 (
              with_allocator a (record p {
                stats = record p.stats { tx_submitted = add64 p.stats.tx_submitted 1 };
              }))
          else with_socket socket (
              with_allocator (transition frame_count frame_size a handle.frame tx_ring owner).1
                (fill_failed p))

  unfoldable pub submit_tx : List ProcessedFrame → Poll → Poll
  unfolding submit_one
  submit_tx [] p = p
  submit_tx (frame ∷ frames) p = submit_tx frames (submit_one frame p)

  unfoldable pub release_delayed : Poll → Poll
  unfolding tick submit_tx
  release_delayed p =
      let (expired, wheel) = tick slot_count max_frames p.adapter.timing_wheel in
      submit_tx (map delayed_frame expired)
        (record p { adapter = record p.adapter { timing_wheel = wheel } })

  -- The loop of `poll_once` over the received descriptors, with those it passes on.
  unfoldable pub receive : List RxDescriptor → Poll → List PacketDescriptor × Poll
  unfolding handle_from_address owner_of transition
  receive [] p = ([], p)
  receive (rx ∷ rxs) p =
      let frame = handle_from_address frame_count frame_size rx.address in
      let owner = owner_of frame_count frame_size p.adapter.allocator frame.frame.index in
      let (status, a) =
        transition frame_count frame_size p.adapter.allocator frame.frame owner data_plane in
      let (refused, p') = receive rxs (owner_failed p) in
      let (failed, p'') = receive rxs (owner_failed (with_allocator a p)) in
      let (descriptors, p''') = receive rxs (with_allocator a p) in
      if not (is_ok frame.status)
      then (refused, p')
      else if not (is_ok status)
      then (failed, p'')
      else (descriptor_of rx ∷ descriptors, p''')

  -- `poll_once` behind the receive loop.
  unfoldable pub process : List ChaosRule → List PacketDescriptor → Poll → Poll
  unfolding process_packet_batch submit_tx refill_addresses
  process rules descriptors p =
      let span = replicate data_plane_batch_size no_processed in
      let batch =
        process_packet_batch true (frame_count * frame_size) rules tick_ns slot_count max_frames
          p.adapter.umem descriptors p.adapter.timing_wheel span span in
      let p : Poll = record {
        adapter = record p.adapter { umem = batch.umem; timing_wheel = batch.timing_wheel };
        stats = record p.stats { data_plane = batch.result.stats };
      } in
      let p = submit_tx (take batch.result.tx_count batch.tx_output) p in
      refill_addresses data_plane
        (map (λ f. f.frame_address) (take batch.result.recycle_count batch.recycle_output)) p

  -- `poll_once` behind its guard.
  unfoldable pub poll : List ChaosRule → AfXdpRuntimeAdapter → Poll
  unfolding drain_completed release_delayed consume_rx receive process
  poll rules r =
      let p = release_delayed (drain_completed (record { adapter = r; stats = no_stats })) in
      let (result, rx, socket) =
        consume_rx fill_size comp_size rx_size tx_size p.adapter.socket data_plane_batch_size in
      let p = with_socket socket p in
      let p : Poll = record p { stats = record p.stats { rx_frames = result.count } } in
      let (descriptors, p) = receive rx p in process rules descriptors p

  unfoldable pub poll_once :
      List ChaosRule → AfXdpRuntimeAdapter → RuntimePollResult × AfXdpRuntimeAdapter
  unfolding poll
  poll_once rules r =
      let p = poll rules r in
      if not r.initialized
      then (record { status = not_initialized; stats = no_stats }, r)
      else (record { status = ok; stats = p.stats }, p.adapter)
