-- ===== src/FrameAllocator.antt =====
-- include/chronosx/frame_allocator.hpp: the UMEM frame pool, a stack of free frame indices beside
-- an owner for every frame. `frame_count` and `frame_size` are the template's parameters. `++` and
-- `--` on the stack's counter stand behind tests that keep it in range and are written plainly;
-- the failure counters and the address arithmetic wrap.
pub mod Invariant
pub mod Init
pub mod Counting
pub mod Methods
pub mod Release
pub mod Batch
pub mod Addresses
pub mod Misuse
pub mod Handed
pub mod Loop
pub mod History
mod Tests
use chronos_x.Base.{
  ℕ, zero, suc, ◌+◌, ◌-◌, ◌/◌, ◌%◌, Bool, true, false, not, ◌||◌, ◌&&◌, List, [], ◌∷◌, Option, none,
  some, u32, mul64, add64, ltb, leb, ◌==◌, ◌!=◌, if◌then◌else◌, length, get_or, set, replicate,
}

pub data FrameOwner : Type 0 where
  free fill_ring rx_ring data_plane timing_wheel tx_ring completion_ring : FrameOwner

-- `enum class FrameOwner : std::uint8_t`; two owners are compared by these values.
abbrev pub owner_code : FrameOwner → ℕ
owner_code free = 0
owner_code fill_ring = 1
owner_code rx_ring = 2
owner_code data_plane = 3
owner_code timing_wheel = 4
owner_code tx_ring = 5
owner_code completion_ring = 6

abbrev pub owner_eq : FrameOwner → FrameOwner → Bool
owner_eq a b = owner_code a == owner_code b

pub data FrameStatus : Type 0 where
  ok pool_empty pool_full invalid_frame_index invalid_frame_address invalid_owner : FrameStatus

abbrev pub is_ok : FrameStatus → Bool
is_ok ok = true
is_ok _ = false

pub record FrameHandle : Type 0 where
  pub address : ℕ
  pub index : ℕ
  pub reserved : ℕ

abbrev pub no_handle : FrameHandle
no_handle = record { address = 0; index = 0; reserved = 0 }

pub record FrameAllocation : Type 0 where
  pub frame : FrameHandle
  pub status : FrameStatus

pub record FrameAllocator : Type 0 where
  pub free_stack : List ℕ
  pub owners : List FrameOwner
  pub free_count : ℕ
  pub allocation_failures : ℕ
  pub release_failures : ℕ
  pub transition_failures : ℕ

-- The owner that the arrays hold for an index.
abbrev pub owner_at : FrameAllocator → ℕ → FrameOwner
owner_at a index = get_or a.owners index free

abbrev pub release_failed : FrameAllocator → FrameAllocator
release_failed a = record a { release_failures = add64 a.release_failures 1 }

abbrev pub transition_failed : FrameAllocator → FrameAllocator
transition_failed a = record a { transition_failures = add64 a.transition_failures 1 }

-- The three writes that give a frame back.
abbrev pub push_free : FrameAllocator → ℕ → FrameAllocator
push_free a index = record a {
  owners = set a.owners index free;
  free_stack = set a.free_stack a.free_count index;
  free_count = suc a.free_count;
}

-- The second loop of `release_batch`.
unfoldable pub push_batch : FrameAllocator → List FrameHandle → FrameAllocator
push_batch a [] = a
push_batch a (frame ∷ frames) = push_batch (push_free a frame.index) frames

module _ (frame_count frame_size : ℕ) where
  unfoldable pub make_handle : ℕ → FrameHandle
  make_handle index = record { address = mul64 index frame_size; index = index; reserved = 0 }

  unfoldable pub umem_size_bytes : ℕ
  umem_size_bytes = mul64 frame_count frame_size

  unfoldable pub valid_index : ℕ → Bool
  valid_index index = ltb index frame_count

  unfoldable pub valid_address_for_index : FrameHandle → Bool
  valid_address_for_index frame = frame.address == mul64 frame.index frame_size

  unfoldable pub validate_frame : FrameHandle → FrameStatus
  unfolding valid_index valid_address_for_index
  validate_frame frame =
      if not (valid_index frame.index)
      then invalid_frame_index
      else if not (valid_address_for_index frame)
      then invalid_frame_address
      else ok

  -- The loop of the constructor, `n` rounds from `index` on, over the stack and the owners.
  unfoldable pub init_loop : ℕ → ℕ → List ℕ → List FrameOwner → List ℕ × List FrameOwner
  init_loop zero index stack owners = (stack, owners)
  init_loop (suc n) index stack owners =
      init_loop n (suc index) (set stack index (u32 (frame_count - index - 1)))
        (set owners index free)

  unfoldable pub init : FrameAllocator
  unfolding init_loop
  init =
      let (stack, owners) =
        init_loop frame_count 0 (replicate frame_count 0) (replicate frame_count free) in
      record {
        free_stack = stack;
        owners = owners;
        free_count = frame_count;
        allocation_failures = 0;
        release_failures = 0;
        transition_failures = 0;
      }

  unfoldable pub allocate : FrameAllocator → FrameOwner → FrameAllocation × FrameAllocator
  unfolding make_handle
  allocate a owner =
      if a.free_count == 0
      then (
        record { frame = no_handle; status = pool_empty },
        record a { allocation_failures = add64 a.allocation_failures 1 },
      )
      else let index = get_or a.free_stack (a.free_count - 1) 0 in
        (
          record { frame = make_handle index; status = ok },
          record a { free_count = a.free_count - 1; owners = set a.owners index owner },
        )

  -- The loop of `allocate_batch`, with `n` places of the output left.
  unfoldable pub allocate_loop :
      FrameOwner → ℕ → ℕ → List FrameHandle → FrameAllocator → ℕ × List FrameHandle × FrameAllocator
  unfolding allocate
  allocate_loop owner zero count output a = (count, output, a)
  allocate_loop owner (suc n) count output a = elim (ltb 0 a.free_count) [
    | true ↦
        let (allocation, a') = allocate a owner in
        allocate_loop owner n (suc count) (set output count allocation.frame) a'
    | false ↦ (count, output, a)
  ]

  unfoldable pub allocate_batch :
      FrameAllocator → List FrameHandle → FrameOwner → ℕ × List FrameHandle × FrameAllocator
  unfolding allocate_loop
  allocate_batch a output owner =
      let (count, output', a') = allocate_loop owner (length output) 0 output a in
      if ltb count (length output)
      then (count, output', record a' { allocation_failures = add64 a'.allocation_failures 1 })
      else (count, output', a')

  unfoldable pub release : FrameAllocator → FrameHandle → FrameOwner → FrameStatus × FrameAllocator
  unfolding validate_frame
  release a frame expected_owner =
      let status = validate_frame frame in
      if not (is_ok status)
      then (status, release_failed a)
      else if not (owner_eq (owner_at a frame.index) expected_owner)
      then (invalid_owner, release_failed a)
      else if leb frame_count a.free_count
      then (pool_full, release_failed a)
      else (ok, push_free a frame.index)

  unfoldable pub transition :
      FrameAllocator → FrameHandle → FrameOwner → FrameOwner → FrameStatus × FrameAllocator
  unfolding validate_frame release
  transition a frame expected_owner next_owner =
      let status = validate_frame frame in
      if not (is_ok status)
      then (status, transition_failed a)
      else if not (owner_eq (owner_at a frame.index) expected_owner)
      then (invalid_owner, transition_failed a)
      else if owner_eq next_owner free
      then release a frame expected_owner
      else (ok, record a { owners = set a.owners frame.index next_owner })

  -- The first loop of `release_batch`: the status of the first frame that may not be released.
  unfoldable pub check_batch : FrameAllocator → FrameOwner → List FrameHandle → Option FrameStatus
  unfolding validate_frame
  check_batch a expected_owner [] = none
  check_batch a expected_owner (frame ∷ frames) =
      let status = validate_frame frame in
      let rest = check_batch a expected_owner frames in
      if not (is_ok status) || not (owner_eq (owner_at a frame.index) expected_owner)
      then some (if is_ok status then invalid_owner else status)
      else rest

  unfoldable pub release_batch :
      FrameAllocator → List FrameHandle → FrameOwner → FrameStatus × FrameAllocator
  unfolding check_batch push_batch
  release_batch a frames expected_owner = elim (check_batch a expected_owner frames) [
    | some status ↦ (status, release_failed a)
    | none ↦
        if ltb frame_count (a.free_count + length frames)
        then (pool_full, release_failed a)
        else (ok, push_batch a frames)
  ]

  unfoldable pub handle_from_address : ℕ → FrameAllocation
  unfolding make_handle umem_size_bytes
  handle_from_address address =
      if address % frame_size != 0 || leb umem_size_bytes address
      then record { frame = record no_handle { address = address }; status = invalid_frame_address }
      else record { frame = make_handle (u32 (address / frame_size)); status = ok }

  unfoldable pub owner_of : FrameAllocator → ℕ → FrameOwner
  owner_of a index = if ltb index frame_count then owner_at a index else free

  unfoldable pub in_use : FrameAllocator → ℕ
  in_use a = frame_count - a.free_count

  unfoldable pub full : FrameAllocator → Bool
  full a = a.free_count == frame_count

unfoldable pub empty : FrameAllocator → Bool
empty a = a.free_count == 0
