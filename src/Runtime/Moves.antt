-- ===== src/Runtime/Moves.antt =====
-- include/chronosx/af_xdp_runtime.hpp: the adapter's moves of frames between owners other than Free.
use chronos_x.Base.{ℕ, ◌≡◌, ◌≢◌, refl, ◌∙◌, List, [], ◌∷◌, All, arith, ◌==◌, Bool-cases, inl, inr}
use chronos_x.FrameAllocator.{
  FrameAllocator, FrameHandle, FrameOwner, free, fill_ring, data_plane, tx_ring, is_ok, transition,
  handle_from_address, owner_of,
}
use chronos_x.FrameAllocator.Invariant.{IsValid}
use chronos_x.DataPlane.{ProcessedFrame}
use chronos_x.SocketManager.{SimulatedXskSocket, RxDescriptor, refill}
use chronos_x.SocketManager
use chronos_x.Runtime.{
  Poll, refill_one, refill_addresses, submit_one, submit_tx, receive, owner_failed, with_allocator,
}
use chronos_x.Runtime.Custody.{
  Keeps, Keeps_self, Keeps_twice, transition-Keeps, Used, is_free_address-Keeps, taken_owner,
}

pub fill_used : fill_ring ≢ free
fill_used = ground arith

pub tx_used : tx_ring ≢ free
tx_used = ground arith

pub data_plane_used : data_plane ≢ free
data_plane_used = ground arith

module _
    (frame_count frame_size fill_size comp_size rx_size tx_size slot_count max_frames
      tick_ns : ℕ) where
  -- The pool and the wheel, before and after.
  pub record Moves (p q : Poll) : Type 0 where
    pub pool : Keeps frame_count frame_size p.adapter.allocator q.adapter.allocator
    pub wheel : q.adapter.timing_wheel ≡ p.adapter.timing_wheel
    pub rx : q.adapter.socket.rx_ring ≡ p.adapter.socket.rx_ring

  pub Moves-Moves : {p q r : Poll} → Moves p q → Moves q r → Moves p r
  Moves-Moves m n = record {
    pool = Keeps_twice frame_count frame_size m.pool n.pool;
    wheel = n.wheel ∙ m.wheel;
    rx = n.rx ∙ m.rx;
  }

  abbrev Valid : Poll → Type 0
  Valid p = IsValid frame_count p.adapter.allocator

  refill_one-Moves :
      (frame : FrameHandle) (owner : FrameOwner) (p : Poll)
      → owner ≢ free
      → Valid p
      → Moves p (
          refill_one frame_count frame_size fill_size comp_size rx_size tx_size slot_count
            max_frames tick_ns frame owner p)
  unfolding refill_one
  refill_one-Moves frame owner p used v =
      let (status, a) =
        transition frame_count frame_size p.adapter.allocator frame owner fill_ring in
      let (fill, socket) =
        refill fill_size comp_size rx_size tx_size p.adapter.socket (frame.address ∷ []) in
      let moved =
        transition-Keeps frame_count frame_size p.adapter.allocator frame owner fill_ring used
          fill_used v in
      elim (Bool-cases (is_ok status)) [
        | inr refused ↦ rw (refused, refill_one) (record { pool = moved; wheel = refl; rx = refl })
        | inl good ↦ elim (Bool-cases (fill.count == 1)) [
          | inl filled ↦
              rw (good, filled, refill_one) (record { pool = moved; wheel = refl; rx = refl })
          | inr full ↦
              rw (good, full, refill_one)
                (record {
                  pool = Keeps_twice frame_count frame_size moved (
                      transition-Keeps frame_count frame_size a frame fill_ring owner fill_used used
                        moved.valid);
                  wheel = refl;
                  rx = refl;
                })
        ]
      ]

  pub refill_addresses-Moves :
      (owner : FrameOwner) (addresses : List ℕ) (p : Poll)
      → owner ≢ free
      → Valid p
      → Moves p (
          refill_addresses frame_count frame_size fill_size comp_size rx_size tx_size slot_count
            max_frames tick_ns owner addresses p)
  unfolding refill_addresses
  refill_addresses-Moves owner [] p used v = record {
    pool = Keeps_self frame_count frame_size p.adapter.allocator v;
    wheel = refl;
    rx = refl;
  }
  refill_addresses-Moves owner (address ∷ addresses) p used v =
      let frame = handle_from_address frame_count frame_size address in
      elim (Bool-cases (is_ok frame.status)) [
        | inr refused ↦
            rw (refused, refill_addresses)
              (failed (refill_addresses-Moves owner addresses (owner_failed p) used v))
        | inl good ↦
            let first = refill_one-Moves frame.frame owner p used v in
            rw (good, refill_addresses)
              (Moves-Moves first (refill_addresses-Moves owner addresses _ used first.pool.valid))
      ]
    where
      failed : {q : Poll} → Moves (owner_failed p) q → Moves p q
      failed m = record { pool = m.pool; wheel = m.wheel; rx = m.rx }

  -- A round of `submit_tx` on a frame that is in use.
  submit_one-Moves :
      (frame : ProcessedFrame) (p : Poll)
      → Used frame_count frame_size p.adapter.allocator frame.frame_address
      → Valid p
      → Moves p (
          submit_one frame_count frame_size fill_size comp_size rx_size tx_size slot_count
            max_frames tick_ns frame p)
  unfolding submit_one
  submit_one-Moves frame p in_use v =
      let a : FrameAllocator = p.adapter.allocator in
      let handle = handle_from_address frame_count frame_size frame.frame_address in
      elim (Bool-cases (is_ok handle.status)) [
        | inr bad ↦
            rw (bad, submit_one)
              (record { pool = Keeps_self frame_count frame_size a v; wheel = refl; rx = refl })
        | inl good ↦
            let owner : FrameOwner = owner_of frame_count frame_size a handle.frame.index in
            let used = taken_owner frame_count frame_size a frame.frame_address in_use good in
            let (status, a') = transition frame_count frame_size a handle.frame owner tx_ring in
            let moved =
              transition-Keeps frame_count frame_size a handle.frame owner tx_ring used tx_used v in
            let (result, socket) =
              SocketManager.submit_tx fill_size comp_size rx_size tx_size p.adapter.socket (
                record { address = frame.frame_address; length = frame.frame_length; options = 0 }
                ∷ []) in
            elim (Bool-cases (is_ok status)) [
              | inr refused ↦
                  rw (good, refused, submit_one) (record { pool = moved; wheel = refl; rx = refl })
              | inl taken ↦ elim (Bool-cases (result.count == 1)) [
                | inl sent ↦
                    rw (good, taken, sent, submit_one)
                      (record { pool = moved; wheel = refl; rx = refl })
                | inr full ↦
                    rw (good, taken, full, submit_one)
                      (record {
                        pool = Keeps_twice frame_count frame_size moved (
                            transition-Keeps frame_count frame_size a' handle.frame tx_ring owner
                              tx_used used moved.valid);
                        wheel = refl;
                        rx = refl;
                      })
              ]
            ]
      ]

  pub submit_tx-Moves :
      (a : FrameAllocator) (frames : List ProcessedFrame) (p : Poll)
      → All (λ f. Used frame_count frame_size a f.frame_address) frames
      → Keeps frame_count frame_size a p.adapter.allocator
      → Moves p (
          submit_tx frame_count frame_size fill_size comp_size rx_size tx_size slot_count max_frames
            tick_ns frames p)
  unfolding submit_tx
  submit_tx-Moves a [] p used k = record {
    pool = Keeps_self frame_count frame_size p.adapter.allocator k.valid;
    wheel = refl;
    rx = refl;
  }
  submit_tx-Moves a (frame ∷ frames) p (in_use, used) k =
      let first =
        submit_one-Moves frame p
          (is_free_address-Keeps frame_count frame_size a p.adapter.allocator frame.frame_address k
            ∙ in_use)
          k.valid in
      Moves-Moves first
        (submit_tx-Moves a frames _ used (Keeps_twice frame_count frame_size k first.pool))

  pub receive-Moves :
      (a : FrameAllocator) (rxs : List RxDescriptor) (p : Poll)
      → All (λ rx. Used frame_count frame_size a rx.address) rxs
      → Keeps frame_count frame_size a p.adapter.allocator
      → let (descriptors, q) =
          receive frame_count frame_size fill_size comp_size rx_size tx_size slot_count max_frames
            tick_ns rxs p in
        Moves p q × All (λ d. Used frame_count frame_size a d.frame_address) descriptors
  unfolding receive
  receive-Moves a [] p used k = (
    record {
      pool = Keeps_self frame_count frame_size p.adapter.allocator k.valid;
      wheel = refl;
      rx = refl;
    },
    tt,
  )
  receive-Moves a (rx ∷ rxs) p (in_use, used) k =
      let b : FrameAllocator = p.adapter.allocator in
      let handle = handle_from_address frame_count frame_size rx.address in
      elim (Bool-cases (is_ok handle.status)) [
        | inr bad ↦
            let (m, ds) = receive-Moves a rxs (owner_failed p) used k in
            rw (bad, receive) (record { pool = m.pool; wheel = m.wheel; rx = m.rx }, ds)
        | inl good ↦
            let owner : FrameOwner = owner_of frame_count frame_size b handle.frame.index in
            let used_here =
              taken_owner frame_count frame_size b rx.address
                (is_free_address-Keeps frame_count frame_size a b rx.address k ∙ in_use) good in
            let (status, b') = transition frame_count frame_size b handle.frame owner data_plane in
            let moved =
              transition-Keeps frame_count frame_size b handle.frame owner data_plane used_here
                data_plane_used k.valid in
            let now = Keeps_twice frame_count frame_size k moved in
            elim (Bool-cases (is_ok status)) [
              | inr refused ↦
                  let (m, ds) = receive-Moves a rxs (owner_failed (with_allocator b' p)) used now in
                  rw (good, refused, receive)
                    (
                      record {
                        pool = Keeps_twice frame_count frame_size moved m.pool;
                        wheel = m.wheel;
                        rx = m.rx;
                      },
                      ds,
                    )
              | inl taken ↦
                  let (m, ds) = receive-Moves a rxs (with_allocator b' p) used now in
                  rw (good, taken, receive)
                    (
                      record {
                        pool = Keeps_twice frame_count frame_size moved m.pool;
                        wheel = m.wheel;
                        rx = m.rx;
                      },
                      (in_use, ds),
                    )
            ]
      ]
