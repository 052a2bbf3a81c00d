-- ===== src/Runtime/Tests.antt =====
-- The adapter with a pool of four frames, at concrete calls.
use chronos_x.Base.{◌≡◌, refl, [], ◌∷◌, arith}
use chronos_x.Types.{is_power_of_two}
use chronos_x.FrameAllocator.Init.{init-IsValid}
use chronos_x.FrameAllocator.{handle_from_address, owner_of}
use chronos_x.TimingWheel.Invariant
use chronos_x.DataPlane.Wheel.{weigh, slot_weight, wheel_weight}
use chronos_x.SocketManager.{inject_rx, consume_rx}
use chronos_x.Runtime.{
  AfXdpRuntimeAdapter, already_initialized, ok, ring_full, new_adapter, init, poll_once,
}
use chronos_x.Runtime.Custody.{is_free_address}
use chronos_x.Runtime.Startup.{init-Started}
use chronos_x.Runtime.Polling.{Sound, poll_once-Sound}

abbrev fresh : AfXdpRuntimeAdapter
fresh = new_adapter 4 64 4 4 4 4 4 4 1000

abbrev started : AfXdpRuntimeAdapter
started = (init 4 64 4 4 4 4 4 4 1000 2 fresh).1

-- The kernel delivers two frames that the fill ring has, one of them empty.
abbrev ready : AfXdpRuntimeAdapter
ready = record started {
  socket =
      (inject_rx 4 4 4 4 started.socket (
        record { address = 0; length = 0; options = 0 }
        ∷ record { address = 64; length = 60; options = 0 }
        ∷ [])).1;
}

started_status : (init 4 64 4 4 4 4 4 4 1000 2 fresh).0 ≡ ok
unfolding init new_adapter
started_status = refl

left_free : started.allocator.free_count ≡ 2
unfolding init new_adapter
left_free = refl

-- More fill frames than the ring holds.
too_many : (init 4 64 2 4 4 4 4 4 1000 3 (new_adapter 4 64 2 4 4 4 4 4 1000)).0 ≡ ring_full
unfolding init new_adapter
too_many = refl

second_init : (init 4 64 4 4 4 4 4 4 1000 2 started).0 ≡ already_initialized
unfolding init new_adapter
second_init = refl

poll_once-Sound_example :
    Sound 4 64 4 4 4 4 4 4 1000 ready.allocator (poll_once 4 64 4 4 4 4 4 4 1000 [] ready).1
unfolding init new_adapter is_power_of_two wheel_weight weigh slot_weight consume_rx inject_rx
    is_free_address handle_from_address owner_of
poll_once-Sound_example =
    poll_once-Sound 4 64 4 4 4 4 4 4 1000 [] ready
      (init-Started 4 64 4 4 4 4 4 4 1000 2 fresh (init-IsValid 4 64 (omega arith))).pool
      (Invariant.init-IsValid 4 4 refl) (omega arith) refl (refl, (refl, tt))
