-- ===== src/Runtime/Startup.antt =====
-- include/chronosx/af_xdp_runtime.hpp: what `init` leaves.
use chronos_x.Base.{
  ℕ, zero, suc, ◌≡◌, refl, [], ◌∷◌, Bool, true, false, not, ltb, ◌==◌, if◌then◌else◌,
}
use chronos_x.FrameAllocator.{free, fill_ring, allocate, is_ok}
use chronos_x.FrameAllocator.Invariant.{IsValid}
use chronos_x.FrameAllocator.Methods.{allocate-IsValid}
use chronos_x.FrameAllocator.Release.{transition-IsValid}
use chronos_x.SocketManager.{refill}
use chronos_x.Runtime.{
  RuntimeStatus, AfXdpRuntimeAdapter, init_loop, init, is_runtime_ok, already_initialized,
}
use chronos_x.Runtime.Moves.{fill_used}

module _
    (frame_count frame_size fill_size comp_size rx_size tx_size slot_count max_frames
      tick_ns : ℕ) where
  -- A well-formed pool, and the wheel as it was.
  pub record Started (r q : AfXdpRuntimeAdapter) : Type 0 where
    pub pool : IsValid frame_count q.allocator
    pub wheel : q.timing_wheel ≡ r.timing_wheel

  cases_Started :
      (r : AfXdpRuntimeAdapter) (b c : Bool) (x y z : RuntimeStatus × AfXdpRuntimeAdapter)
      → Started r x.1
      → Started r y.1
      → Started r z.1
      → Started r (if not b then x else if not c then y else z).1
  cases_Started r false c x y z sx sy sz = sx
  cases_Started r true false x y z sx sy sz = sy
  cases_Started r true true x y z sx sy sz = sz

  init_loop-Started :
      (n : ℕ) (r : AfXdpRuntimeAdapter)
      → IsValid frame_count r.allocator
      → Started r
          (init_loop frame_count frame_size fill_size comp_size rx_size tx_size slot_count
            max_frames tick_ns n r).1
  unfolding init_loop
  init_loop-Started zero r v = record { pool = v; wheel = refl }
  init_loop-Started (suc n) r v =
      let (allocation, a) = allocate frame_count frame_size r.allocator fill_ring in
      let (fill, socket) =
        refill fill_size comp_size rx_size tx_size r.socket (allocation.frame.address ∷ []) in
      let taken = allocate-IsValid frame_count frame_size r.allocator fill_ring fill_used v in
      let rest = init_loop-Started n (record r { allocator = a; socket = socket }) taken in
      cases_Started r (is_ok allocation.status) (fill.count == 1) _ _ _
        (record { pool = taken; wheel = refl })
        (record {
          pool =
              transition-IsValid frame_count frame_size a allocation.frame fill_ring free fill_used
                taken;
          wheel = refl;
        })
        (record { pool = rest.pool; wheel = rest.wheel })

  done_Started :
      (r : AfXdpRuntimeAdapter) (good : Bool) (q : AfXdpRuntimeAdapter)
      → Started r q
      → Started r (if good then record q { initialized = true } else q)
  done_Started r true q s = record { pool = s.pool; wheel = s.wheel }
  done_Started r false q s = s

  init_once :
      (r : AfXdpRuntimeAdapter) (initialized : Bool) (x : RuntimeStatus × AfXdpRuntimeAdapter)
      → IsValid frame_count r.allocator
      → Started r x.1
      → Started r (if initialized then (already_initialized, r) else x).1
  init_once r true x v s = record { pool = v; wheel = refl }
  init_once r false x v s = s

  pub init-Started :
      (initial_fill_frames : ℕ) (r : AfXdpRuntimeAdapter)
      → IsValid frame_count r.allocator
      → Started r
          (init frame_count frame_size fill_size comp_size rx_size tx_size slot_count max_frames
            tick_ns initial_fill_frames r).1
  unfolding init
  init-Started initial_fill_frames r v =
      let fill_target =
        if ltb initial_fill_frames frame_count then initial_fill_frames else frame_count in
      let (status, q) =
        init_loop frame_count frame_size fill_size comp_size rx_size tx_size slot_count max_frames
          tick_ns fill_target r in
      init_once r r.initialized _ v
        (done_Started r (is_runtime_ok status) q (init_loop-Started fill_target r v))
