-- ===== src/FrameAllocator/Tests.antt =====
-- The pool's theorems at concrete inputs.
use chronos_x.Base.{
  ℕ, suc, ◌++◌, map, drop, length, ◌<◌, ◌≤◌, ap, ◌≡◌, ◌≢◌, ◌⊎◌, refl, true, false, List, [], ◌∷◌,
  arith, add64, ◌==◌, if◌then◌else◌,
}
use chronos_x.FrameAllocator.{
  free, data_plane, tx_ring, ok, pool_empty, is_ok, FrameHandle, FrameAllocator, init, allocate,
  allocate_batch, release_batch, make_handle, owner_at, validate_frame, release_failed,
}
use chronos_x.FrameAllocator.Invariant.{IsValid}
use chronos_x.FrameAllocator.Init.{init-IsValid}
use chronos_x.FrameAllocator.Methods.{allocate-IsValid, allocate_lem}
use chronos_x.FrameAllocator.Batch.{Distinct, Pushed, release_batch_lem}
use chronos_x.FrameAllocator.Handed.{Handed}
use chronos_x.FrameAllocator.Misuse.{release_batch_twice}
use chronos_x.FrameAllocator.History.{
  Call, allocates, releases, run, run-init-IsValid, allocate_batch_lem,
}

abbrev pool : FrameAllocator
pool = init 4 64

-- The frame that a new pool hands out first, and the pool without it.
abbrev first : FrameHandle
first = (allocate 4 64 pool tx_ring).0.frame

abbrev taken : FrameAllocator
taken = (allocate 4 64 pool tx_ring).1

abbrev second : FrameHandle
second = (allocate 4 64 taken tx_ring).0.frame

abbrev two_taken : FrameAllocator
two_taken = (allocate 4 64 taken tx_ring).1

pool-IsValid : IsValid 4 pool
pool-IsValid = init-IsValid 4 64 (omega arith)

is_used : tx_ring ≢ free
is_used e = cc

used_data : data_plane ≢ free
used_data e = cc

taken-IsValid : IsValid 4 taken
taken-IsValid = allocate-IsValid 4 64 pool tx_ring is_used pool-IsValid

two_taken-IsValid : IsValid 4 two_taken
two_taken-IsValid = allocate-IsValid 4 64 taken tx_ring is_used taken-IsValid

first_at : first ≡ record { address = 0; index = 0; reserved = 0 }
unfolding init allocate
first_at = refl

second_at : second ≡ record { address = 64; index = 1; reserved = 0 }
unfolding init allocate
second_at = refl

allocate_lem_example :
    let (r, a') = allocate 4 64 taken tx_ring in
    ((taken.free_count ≡ 0)
      × (r.status ≡ pool_empty)
      × (a' ≡ record taken { allocation_failures = add64 taken.allocation_failures 1 }))
    ⊎ ((r.status ≡ ok)
        × (r.frame ≡ make_handle 4 64 r.frame.index)
        × (r.frame.index < 4)
        × (owner_at taken r.frame.index ≡ free)
        × ((i : ℕ) → owner_at a' i ≡ (if r.frame.index == i then tx_ring else owner_at taken i))
        × (suc a'.free_count ≡ taken.free_count))
allocate_lem_example = allocate_lem 4 64 taken tx_ring taken-IsValid

both-Distinct : Distinct (first ∷ second ∷ [])
both-Distinct = (
  ((λ e. omega (arith, ap (λ h. h.index) first_at, ap (λ h. h.index) second_at, e)), tt),
  (tt, tt),
)

release_batch_lem_example :
    let (s, b) = release_batch 4 64 two_taken (first ∷ second ∷ []) tx_ring in
    ((s ≡ ok) × Pushed 4 64 tx_ring two_taken (first ∷ second ∷ []) b)
    ⊎ ((is_ok s ≡ false) × (b ≡ release_failed two_taken) × IsValid 4 b)
release_batch_lem_example =
    release_batch_lem 4 64 tx_ring two_taken (first ∷ second ∷ []) is_used two_taken-IsValid
      both-Distinct

allocate_batch_lem_example :
    let output = first ∷ first ∷ [] in
    let (count, output', b) = allocate_batch 4 64 taken output data_plane in
    IsValid 4 b
    × (frames : List ℕ) × (count ≡ length frames)
    × (count ≡ 2)
    × (output' ≡ map (make_handle 4 64) frames ++ drop count output)
    × Handed data_plane frames taken b
    × (b.allocation_failures ≡ 0)
unfolding init allocate allocate_batch
allocate_batch_lem_example =
    allocate_batch_lem 4 64 taken (first ∷ first ∷ []) data_plane used_data taken-IsValid

first_ok : is_ok (validate_frame 4 64 first) ≡ true
unfolding init allocate validate_frame
first_ok = refl

first_owner : owner_at two_taken first.index ≡ tx_ring
unfolding init allocate
first_owner = refl

room_for_two : suc (suc two_taken.free_count) ≤ 4
unfolding init allocate
room_for_two = omega arith

release_batch_twice_example :
    let (s, b) = release_batch 4 64 two_taken (first ∷ first ∷ []) tx_ring in
    let (one, c) = allocate 4 64 b data_plane in
    let (two, _) = allocate 4 64 c data_plane in
    (s ≡ ok)
    × ((one.status ≡ ok) × (two.status ≡ ok))
    × ((one.frame.index ≡ first.index) × (two.frame.index ≡ first.index))
    × ((one.frame.address ≡ first.address) × (two.frame.address ≡ first.address))
    × (¬ IsValid 4 b)
release_batch_twice_example =
    release_batch_twice 4 64 two_taken first tx_ring data_plane two_taken-IsValid first_ok
      first_owner room_for_two

first_free : owner_at pool first.index ≡ free
unfolding init allocate
first_free = refl

abbrev calls : List (Call 4 64)
calls = allocates tx_ring ∷ allocates data_plane ∷ releases first tx_ring ∷ []

run-init-IsValid_example : IsValid 4 (run 4 64 (init 4 64) calls)
run-init-IsValid_example =
    run-init-IsValid 4 64 calls (omega arith) (is_used, (used_data, (is_used, tt)))
