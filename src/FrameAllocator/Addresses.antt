-- ===== src/FrameAllocator/Addresses.antt =====
-- `make_handle` and `handle_from_address` are inverse to each other on a pool whose memory fits
-- the address space.
use native.Mathlib.Nat.{mul-div_cancel, mul-mod_left, div-add-mod', lt_of_mul-lt-mul_right}
use chronos_x.Base.{ℕ, ◌*◌, ◌/◌, ◌%◌, ◌^◌, ◌≤◌, ◌<◌, ◌≡◌, ◌↔◌, true, arith, mul64, u64_mod}
use chronos_x.FrameAllocator.{
  is_ok, ok, make_handle, umem_size_bytes, validate_frame, handle_from_address,
}

module _ (frame_count frame_size : ℕ) (some_bytes : 0 < frame_size)
    (fits : frame_count * frame_size < u64_mod) (few : frame_count ≤ 2 ^ 32) where
  address-lt : (i : ℕ) → i < frame_count → i * frame_size < frame_count * frame_size
  address-lt i h = grind arith

  mul64_lem : (i : ℕ) → i < frame_count → mul64 i frame_size ≡ i * frame_size
  mul64_lem i h = omega (arith, address-lt i h, fits)

  -- In a pool of at most 2 ^ 32 frames of at least one byte, whose memory is smaller than 2 ^ 64 bytes,
  -- the handle of a frame is accepted, and its address leads back to it.
  pub handle_from_address-make_handle :
      (i : ℕ)
      → i < frame_count
      → (validate_frame frame_count frame_size (make_handle frame_count frame_size i) ≡ ok)
        × (handle_from_address frame_count frame_size (make_handle frame_count frame_size i).address
            ≡ record { frame = make_handle frame_count frame_size i; status = ok })
  unfolding make_handle handle_from_address umem_size_bytes validate_frame
  handle_from_address-make_handle i h = (
    ground arith,
    ground (
      arith,
      mul64_lem i h,
      address-lt i h,
      mul-mod_left i frame_size,
      mul-div_cancel i {n = frame_size} some_bytes,
    ),
  )

  accepted_iff :
      (address : ℕ)
      → (is_ok (handle_from_address frame_count frame_size address).status ≡ true)
        ↔ ((address % frame_size ≡ 0) × (address < frame_count * frame_size))
  unfolding handle_from_address umem_size_bytes
  accepted_iff address = ground arith

  -- In a pool of at most 2 ^ 32 frames of at least one byte, whose memory is smaller than 2 ^ 64 bytes,
  -- an address is accepted exactly when it is where a frame of the pool begins.
  pub handle_from_address_iff :
      (address : ℕ)
      → (is_ok (handle_from_address frame_count frame_size address).status ≡ true)
        ↔ ((i : ℕ) × (i < frame_count) × (address ≡ i * frame_size))
  handle_from_address_iff address = (found, λ (i, lt, e). (accepted_iff address).1 (begins i lt e))
    where
      found :
          is_ok (handle_from_address frame_count frame_size address).status ≡ true
          → (i : ℕ) × (i < frame_count) × (address ≡ i * frame_size)
      found h =
          let (aligned, inside) = (accepted_iff address).0 h in
          let whole : address ≡ address / frame_size * frame_size =
            omega (arith, div-add-mod' address frame_size) in
          (address / frame_size, lt_of_mul-lt-mul_right frame_size (omega (arith, whole)), whole)

      begins :
          (i : ℕ)
          → i < frame_count
          → address ≡ i * frame_size
          → (address % frame_size ≡ 0) × (address < frame_count * frame_size)
      begins i lt e = rw e (mul-mod_left i frame_size, address-lt i lt)
