-- ===== src/FrameAllocator/Misuse.antt =====
-- What the pool does not guard against: a batch that names a frame twice, and a transition of a
-- frame that is still free.
use chronos_x.Base.{
  ℕ, suc, ◌+◌, ◌≤◌, ◌<◌, ◌≡◌, ◌≢◌, refl, true, [], ◌∷◌, arith, ◌==◌, if◌then◌else◌, length, take,
  set, get_or, get_or-set, length-set, take-set_next, ap, sym, ◌∙◌,
}
use chronos_x.FrameAllocator.{
  FrameOwner, free, ok, is_ok, FrameHandle, FrameAllocator, FrameAllocation, make_handle, owner_at,
  validate_frame, allocate, release_batch, transition, push_free,
}
use chronos_x.FrameAllocator.Invariant.{
  IsValid, owner_eq_iff, occurrences, occurrences-append, free_list, is_free,
}
use chronos_x.FrameAllocator.Counting.{is_free-le}
use chronos_x.FrameAllocator.Release.{validate_frame_iff}

module _ (frame_count frame_size : ℕ) where
  batch_accepted :
      (a : FrameAllocator) (f : FrameHandle) (expected_owner : FrameOwner)
      → is_ok (validate_frame frame_count frame_size f) ≡ true
      → owner_at a f.index ≡ expected_owner
      → suc (suc a.free_count) ≤ frame_count
      → release_batch frame_count frame_size a (f ∷ f ∷ []) expected_owner
        ≡ (ok, push_free (push_free a f.index) f.index)
  unfolding release_batch
  batch_accepted a f expected_owner h e room =
      ground (arith, owner_eq_iff (owner_at a f.index) expected_owner)

  module _ (a : FrameAllocator) (i : ℕ) (size : length a.free_stack ≡ frame_count)
      (room : suc (suc a.free_count) ≤ frame_count) where
    abbrev twice : FrameAllocator
    twice = push_free (push_free a i) i

    top_cells :
        (get_or twice.free_stack (suc a.free_count) 0 ≡ i)
        × (get_or twice.free_stack a.free_count 0 ≡ i)
    top_cells = ground (
      arith,
      get_or-set (set a.free_stack a.free_count i) (suc a.free_count) (suc a.free_count) i 0,
      get_or-set (set a.free_stack a.free_count i) (suc a.free_count) a.free_count i 0,
      get_or-set a.free_stack a.free_count a.free_count i 0,
      length-set a.free_stack a.free_count i,
    )

    allocated_twice :
        (owner : FrameOwner)
        → let handed : FrameAllocation = record {
          frame = make_handle frame_count frame_size i;
          status = ok;
        } in
          let (first, c) = allocate frame_count frame_size twice owner in
          (first ≡ handed) × ((allocate frame_count frame_size c owner).0 ≡ handed)
    unfolding allocate
    allocated_twice owner = ground (arith, top_cells)

    occurrences-twice : occurrences i (free_list twice) ≡ occurrences i (free_list a) + 2
    occurrences-twice = omega (
      arith,
      ap (occurrences i) (
          take-set_next (suc a.free_count) (set a.free_stack a.free_count i) i
            (omega (arith, length-set a.free_stack a.free_count i, size))),
      occurrences-append i i (take (suc a.free_count) (set a.free_stack a.free_count i)),
      ap (occurrences i) (take-set_next a.free_count a.free_stack i (omega (arith, size))),
      occurrences-append i i (free_list a),
      same,
    )
      where
        same : ◌≡◌ {A = ℕ} (if i == i then 1 else 0) 1
        same = ground arith

    not-IsValid-twice : i < frame_count → ¬ IsValid frame_count twice
    not-IsValid-twice lt v = absurd (impossible (is_free-le (owner_at twice i)))
      where
        impossible : is_free (owner_at twice i) ≤ 1 → ⊥
        impossible h = omega (arith, occurrences-twice, v.agree i lt, h)

  -- On a valid pool, a batch that names a frame twice, by its handle and owner, is accepted where the stack
  -- has room for two: the pool is then no longer valid, and the next two allocations both succeed
  -- and both hand out that frame, by its index and its address.
  pub release_batch_twice :
      (a : FrameAllocator) (f : FrameHandle) (expected_owner owner : FrameOwner)
      → IsValid frame_count a
      → is_ok (validate_frame frame_count frame_size f) ≡ true
      → owner_at a f.index ≡ expected_owner
      → suc (suc a.free_count) ≤ frame_count
      → let (s, b) = release_batch frame_count frame_size a (f ∷ f ∷ []) expected_owner in
        let (first, c) = allocate frame_count frame_size b owner in
        let (second, _) = allocate frame_count frame_size c owner in
        (s ≡ ok)
        × ((first.status ≡ ok) × (second.status ≡ ok))
        × ((first.frame.index ≡ f.index) × (second.frame.index ≡ f.index))
        × ((first.frame.address ≡ f.address) × (second.frame.address ≡ f.address))
        × (¬ IsValid frame_count b)
  unfolding make_handle
  release_batch_twice a f expected_owner owner v h e room =
      let (lt, address) = (validate_frame_iff frame_count frame_size f).0 h in
      let (first, second) = allocated_twice a f.index v.stack_size room owner in
      rw (batch_accepted a f expected_owner h e room) (
        refl,
        (ap (λ r. r.status) first, ap (λ r. r.status) second),
        (ap (λ r. r.frame.index) first, ap (λ r. r.frame.index) second),
        (
          ap (λ r. r.frame.address) first ∙ sym address,
          ap (λ r. r.frame.address) second ∙ sym address,
        ),
        not-IsValid-twice a f.index v.stack_size room lt,
      )

  -- On a valid pool, a frame that is free passes a transition from `Free` to another owner, but stays on the stack,
  -- so that the pool is no longer valid.
  pub transition_from_free :
      (a : FrameAllocator) (f : FrameHandle) (next_owner : FrameOwner)
      → IsValid frame_count a
      → is_ok (validate_frame frame_count frame_size f) ≡ true
      → owner_at a f.index ≡ free
      → next_owner ≢ free
      → let (s, b) = transition frame_count frame_size a f free next_owner in
        (s ≡ ok) × (free_list b ≡ free_list a) × (¬ IsValid frame_count b)
  unfolding transition
  transition_from_free a f next_owner v h e used = rw accepted (refl, refl, λ w. broken w)
    where
      lt : f.index < frame_count
      lt = ((validate_frame_iff frame_count frame_size f).0 h).0

      accepted :
          transition frame_count frame_size a f free next_owner
          ≡ (ok, record a { owners = set a.owners f.index next_owner })
      accepted =
          ground (arith, owner_eq_iff (owner_at a f.index) free, owner_eq_iff next_owner free)

      broken : ¬ IsValid frame_count (record a { owners = set a.owners f.index next_owner })
      broken w = ground (
        arith,
        w.agree f.index lt,
        v.agree f.index lt,
        get_or-set a.owners f.index f.index next_owner free,
        v.owners_size,
        owner_eq_iff (owner_at a f.index) free,
        owner_eq_iff next_owner free,
      )
