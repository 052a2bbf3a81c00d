-- ===== src/FrameAllocator/Release.antt =====
-- `release` and `transition` on every branch, called with an owner other than `Free`.
use chronos_x.Base.{
  ℕ, ◌<◌, ◌≡◌, ◌≢◌, ◌↔◌, refl, true, not, arith, mul64, if◌then◌else◌, length-set, set, get_or-set,
  Bool-cases, inl, inr, ◌∙◌,
}
use chronos_x.FrameAllocator.{
  FrameOwner, free, owner_eq, FrameStatus, ok, invalid_owner, is_ok, FrameHandle, FrameAllocator,
  owner_at, validate_frame, release, transition, release_failed, transition_failed, push_free,
}
use chronos_x.FrameAllocator.Invariant.{IsValid, owner_eq_iff, push_free-IsValid}
use chronos_x.FrameAllocator.Counting.{used_room}
use chronos_x.FrameAllocator.Methods.{SamePool, SamePool-IsValid}

module _ (frame_count frame_size : ℕ) where
  -- A handle is accepted exactly when its index is in range and its address is the index's.
  pub validate_frame_iff :
      (frame : FrameHandle)
      → (is_ok (validate_frame frame_count frame_size frame) ≡ true)
        ↔ ((frame.index < frame_count) × (frame.address ≡ mul64 frame.index frame_size))
  unfolding validate_frame
  validate_frame_iff frame = ground arith

  -- The answer to a request about a frame by its supposed owner.
  abbrev pub verdict : FrameAllocator → FrameHandle → FrameOwner → FrameStatus
  verdict a frame expected_owner =
      let status = validate_frame frame_count frame_size frame in
      if not (is_ok status)
      then status
      else if owner_eq (owner_at a frame.index) expected_owner
      then ok
      else invalid_owner

  -- What a good verdict means.
  pub verdict-ok :
      (a : FrameAllocator) (frame : FrameHandle) (expected_owner : FrameOwner)
      → is_ok (verdict a frame expected_owner) ≡ true
      → (frame.index < frame_count)
        × (frame.address ≡ mul64 frame.index frame_size)
        × (owner_at a frame.index ≡ expected_owner)
  verdict-ok a frame expected_owner h =
      ground (arith, validate_frame_iff frame, owner_eq_iff (owner_at a frame.index) expected_owner)

  -- On a valid pool `release` answers its verdict. It is never `PoolFull`: a frame with another
  -- owner leaves room on the stack. If the verdict is good the frame goes back on the stack,
  -- otherwise only the failure count changes.
  pub release_lem :
      (a : FrameAllocator) (frame : FrameHandle) (expected_owner : FrameOwner)
      → expected_owner ≢ free
      → IsValid frame_count a
      → release frame_count frame_size a frame expected_owner ≡ (
          if is_ok (verdict a frame expected_owner)
          then (ok, push_free a frame.index)
          else (verdict a frame expected_owner, release_failed a))
  unfolding release
  release_lem a frame expected_owner used v = ground (
    arith,
    validate_frame_iff frame,
    owner_eq_iff (owner_at a frame.index) expected_owner,
    used_room frame_count frame_size a frame.index v,
  )

  push-IsValid :
      (a : FrameAllocator) (frame : FrameHandle) (expected_owner : FrameOwner)
      → expected_owner ≢ free
      → is_ok (verdict a frame expected_owner) ≡ true
      → IsValid frame_count a
      → IsValid frame_count (push_free a frame.index)
  push-IsValid a frame expected_owner used h v =
      let (lt, _, e) = verdict-ok a frame expected_owner h in
      let owned : owner_at a frame.index ≢ free = rw e used in
      push_free-IsValid frame_count a frame.index lt owned
        (used_room frame_count frame_size a frame.index v lt owned) v

  failed-IsValid :
      (a b : FrameAllocator) → SamePool a b → IsValid frame_count a → IsValid frame_count b
  failed-IsValid a b = SamePool-IsValid frame_count a b

  -- `release` keeps the pool valid on every branch.
  pub release-IsValid :
      (a : FrameAllocator) (frame : FrameHandle) (expected_owner : FrameOwner)
      → expected_owner ≢ free
      → IsValid frame_count a
      → IsValid frame_count (release frame_count frame_size a frame expected_owner).1
  release-IsValid a frame expected_owner used v =
      rw (release_lem a frame expected_owner used v)
        (elim (Bool-cases (is_ok (verdict a frame expected_owner))) [
          | inl h ↦ rw h (push-IsValid a frame expected_owner used h v)
          | inr h ↦ rw h (
              failed-IsValid a _
                (record { same_stack = refl; same_owners = refl; same_count = refl }) v)
        ])

  -- The pool with one owner changed between two owners other than `Free`.
  owner_changed-IsValid :
      (a : FrameAllocator) (index : ℕ) (owner : FrameOwner)
      → index < frame_count
      → owner_at a index ≢ free
      → owner ≢ free
      → IsValid frame_count a
      → IsValid frame_count (record a { owners = set a.owners index owner })
  owner_changed-IsValid a index owner lt was used v = record {
    stack_size = v.stack_size;
    owners_size = length-set a.owners index owner ∙ v.owners_size;
    bounded = v.bounded;
    in_range = v.in_range;
    agree = λ i h. ground (
      arith,
      v.agree i h,
      get_or-set a.owners index i owner free,
      v.owners_size,
      owner_eq_iff owner free,
      owner_eq_iff (owner_at a index) free,
    );
  }

  -- On a valid pool `transition` answers its verdict. If that is good, a transition to `Free`
  -- releases the frame and any other one changes its owner; otherwise only the failure count
  -- changes.
  pub transition_lem :
      (a : FrameAllocator) (frame : FrameHandle) (expected_owner next_owner : FrameOwner)
      → expected_owner ≢ free
      → IsValid frame_count a
      → transition frame_count frame_size a frame expected_owner next_owner ≡ (
          if is_ok (verdict a frame expected_owner)
          then (if owner_eq next_owner free
              then (ok, push_free a frame.index)
              else (ok, record a { owners = set a.owners frame.index next_owner }))
          else (verdict a frame expected_owner, transition_failed a))
  unfolding transition
  transition_lem a frame expected_owner next_owner used v =
      ground (arith, release_lem a frame expected_owner used v)

  -- `transition` keeps the pool valid on every branch.
  pub transition-IsValid :
      (a : FrameAllocator) (frame : FrameHandle) (expected_owner next_owner : FrameOwner)
      → expected_owner ≢ free
      → IsValid frame_count a
      → IsValid frame_count (transition frame_count frame_size a frame expected_owner next_owner).1
  transition-IsValid a frame expected_owner next_owner used v =
      rw (transition_lem a frame expected_owner next_owner used v)
        (elim (Bool-cases (is_ok (verdict a frame expected_owner))) [
          | inl h ↦ elim (Bool-cases (owner_eq next_owner free)) [
            | inl f ↦ rw (h, f) (push-IsValid a frame expected_owner used h v)
            | inr f ↦
                let (lt, _, e) = verdict-ok a frame expected_owner h in
                rw (h, f)
                  (owner_changed-IsValid a frame.index next_owner lt (rw e used)
                    (ground (arith, owner_eq_iff next_owner free)) v)
          ]
          | inr h ↦ rw h (
              failed-IsValid a _
                (record { same_stack = refl; same_owners = refl; same_count = refl }) v)
        ])
