-- ===== src/FrameAllocator/Batch.antt =====
-- `release_batch`, called with distinct frames and an owner other than `Free`: all or nothing.
use chronos_x.Base.{
  ℕ, ◌+◌, ◌<◌, ◌≡◌, ◌≢◌, ◌⊎◌, refl, false, List, [], ◌∷◌, arith, ◌==◌, ltb, if◌then◌else◌, length,
  set, get_or, get_or-set, All, All-mono, Option-cases, inl, inr, sym, ◌∙◌, none, some,
}
use chronos_x.FrameAllocator.{
  FrameOwner, free, FrameStatus, ok, is_ok, FrameHandle, FrameAllocator, owner_at, check_batch,
  push_batch, release_batch, release_failed, push_free,
}
use chronos_x.FrameAllocator.Invariant.{IsValid, owner_eq_iff, push_free-IsValid}
use chronos_x.FrameAllocator.Counting.{used_room}
use chronos_x.FrameAllocator.Methods.{SamePool-IsValid}
use chronos_x.FrameAllocator.Release.{validate_frame_iff}

-- No two frames of the batch are the same.
abbrev pub Distinct : List FrameHandle → Type 0
Distinct [] = Unit {0}
Distinct (f ∷ fs) = All (λ g. f.index ≢ g.index) fs × Distinct fs

module _ (frame_count frame_size : ℕ) (expected_owner : FrameOwner) where
  record Releasable (a : FrameAllocator) (f : FrameHandle) : Type 0 where
    in_pool : f.index < frame_count
    owned : owner_at a f.index ≡ expected_owner

  check_batch-Releasable :
      (a : FrameAllocator) (fs : List FrameHandle)
      → check_batch frame_count frame_size a expected_owner fs ≡ none
      → All (Releasable a) fs
  unfolding check_batch
  check_batch-Releasable a [] h = tt
  check_batch-Releasable a (f ∷ fs) h = (
    ground (
      arith,
      validate_frame_iff frame_count frame_size f,
      owner_eq_iff (owner_at a f.index) expected_owner,
    ),
    check_batch-Releasable a fs (ground arith),
  )

  -- A failed check is never `Ok`.
  check_batch-not_ok :
      (a : FrameAllocator) (fs : List FrameHandle) (s : FrameStatus)
      → check_batch frame_count frame_size a expected_owner fs ≡ some s
      → is_ok s ≡ false
  unfolding check_batch
  check_batch-not_ok a [] s h = cc
  check_batch-not_ok a (f ∷ fs) s h = ground (arith, check_batch-not_ok a fs s)

  -- Giving one frame back leaves the others' owners.
  Releasable-push_free :
      (a : FrameAllocator) (k : ℕ) (fs : List FrameHandle)
      → length a.owners ≡ frame_count
      → k < frame_count
      → All (λ g. k ≢ g.index) fs
      → All (Releasable a) fs
      → All (Releasable (push_free a k)) fs
  Releasable-push_free a k [] e lt d r = tt
  Releasable-push_free a k (f ∷ fs) e lt (ne, d) (r, rs) = (
    record {
      in_pool = r.in_pool;
      owned = ground (arith, get_or-set a.owners k f.index free free, r.owned);
    },
    Releasable-push_free a k fs e lt d rs,
  )

  -- What the second loop achieves.
  pub record Pushed (a : FrameAllocator) (fs : List FrameHandle) (b : FrameAllocator) : Type 0 where
    pub valid : IsValid frame_count b
    pub counted : b.free_count ≡ a.free_count + length fs
    pub freed : All (λ f. owner_at b f.index ≡ free) fs
    pub others : (i : ℕ) → All (λ f. f.index ≢ i) fs → owner_at b i ≡ owner_at a i

  Releasable-IsValid :
      (a : FrameAllocator) (f : FrameHandle)
      → expected_owner ≢ free
      → IsValid frame_count a
      → Releasable a f
      → IsValid frame_count (push_free a f.index)
  Releasable-IsValid a f used v r =
      let owned : owner_at a f.index ≢ free = rw r.owned used in
      push_free-IsValid frame_count a f.index r.in_pool owned
        (used_room frame_count frame_size a f.index v r.in_pool owned) v

  Pushed-cons :
      (a b : FrameAllocator) (f : FrameHandle) (fs : List FrameHandle)
      → length a.owners ≡ frame_count
      → Releasable a f
      → All (λ g. f.index ≢ g.index) fs
      → Pushed (push_free a f.index) fs b
      → Pushed a (f ∷ fs) b
  Pushed-cons a b f fs size r apart rest = record {
    valid = rest.valid;
    counted = omega (arith, rest.counted);
    freed = (
      rest.others f.index (
            All-mono (λ g. f.index ≢ g.index) (λ g. g.index ≢ f.index) fs (λ g ne e. ne (sym e))
              apart)
          ∙ ground (arith, written f.index),
      rest.freed,
    );
    others = λ i h. rest.others i h.1 ∙ ground (arith, written i, h.0);
  }
    where
      written :
          (i : ℕ)
          → get_or (set a.owners f.index free) i free
            ≡ (if f.index == i then free else owner_at a i)
      written i = get_or-set a.owners f.index i free free (omega (arith, size, r.in_pool))

  push_batch-Pushed :
      (a : FrameAllocator) (fs : List FrameHandle)
      → expected_owner ≢ free
      → IsValid frame_count a
      → Distinct fs
      → All (Releasable a) fs
      → Pushed a fs (push_batch a fs)
  unfolding push_batch
  push_batch-Pushed a [] used v d r = record {
    valid = v;
    counted = omega arith;
    freed = tt;
    others = λ i h. refl;
  }
  push_batch-Pushed a (f ∷ fs) used v (apart, d) (r, rs) =
      Pushed-cons a _ f fs v.owners_size r apart (
        push_batch-Pushed (push_free a f.index) fs used (Releasable-IsValid a f used v r) d
          (Releasable-push_free a f.index fs v.owners_size r.in_pool apart rs))

  -- On a valid pool a batch of distinct frames is released whole, answering `Ok`, or not at all,
  -- with only the failure count changed; frames outside the batch keep their owners, and the pool
  -- stays valid.
  pub release_batch_lem :
      (a : FrameAllocator) (fs : List FrameHandle)
      → expected_owner ≢ free
      → IsValid frame_count a
      → Distinct fs
      → let (s, b) = release_batch frame_count frame_size a fs expected_owner in
        ((s ≡ ok) × Pushed a fs b)
        ⊎ ((is_ok s ≡ false) × (b ≡ release_failed a) × IsValid frame_count b)
  unfolding release_batch
  release_batch_lem a fs used v d =
      elim (Option-cases (check_batch frame_count frame_size a expected_owner fs)) [
        | inl checked ↦
            let p = push_batch-Pushed a fs used v d (check_batch-Releasable a fs checked) in
            rw (checked, release_batch, fits p) (inl (refl, p))
        | inr (s, e) ↦
            rw (e, release_batch)
              (inr (
                check_batch-not_ok a fs s e,
                refl,
                SamePool-IsValid frame_count a _
                    (record { same_stack = refl; same_owners = refl; same_count = refl }) v,
              ))
      ]
    where
      fits : Pushed a fs (push_batch a fs) → ltb frame_count (a.free_count + length fs) ≡ false
      fits p = ground (arith, p.counted, p.valid.bounded)
