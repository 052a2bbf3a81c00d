-- ===== src/FrameAllocator/History.antt =====
-- Any history of calls. A proper call names owners other than `Free` where it hands a frame out or
-- takes one back, and a batch names distinct frames.
use chronos_x.Base.{
  ℕ, ◌^◌, ◌≤◌, ◌≡◌, ◌≢◌, refl, List, [], ◌∷◌, ◌++◌, map, drop, sym, ap, arith, ltb, add64, min,
  if◌then◌else◌, length, All, Bool-cases, inl, inr, ◌∙◌,
}
use chronos_x.FrameAllocator.{
  FrameOwner, free, FrameHandle, FrameAllocator, make_handle, allocate, allocate_loop,
  allocate_batch, init, release, transition, release_batch,
}
use chronos_x.FrameAllocator.Invariant.{IsValid}
use chronos_x.FrameAllocator.Handed.{Handed}
use chronos_x.FrameAllocator.Loop.{allocate_loop_lem}
use chronos_x.FrameAllocator.Init.{init-IsValid}
use chronos_x.FrameAllocator.Methods.{SamePool-IsValid, allocate-IsValid}
use chronos_x.FrameAllocator.Release.{release-IsValid, transition-IsValid}
use chronos_x.FrameAllocator.Batch.{Distinct, release_batch_lem}

module _ (frame_count frame_size : ℕ) where
  -- On a valid pool, with an owner other than `Free`: `allocate_batch` hands out as many frames as the output has
  -- places, or all that are free if these are fewer. Their handles are the front of the output, in
  -- the order they were handed out, and the other places keep what they had. The frames leave the free list, each
  -- once, and have the owner; no other frame changes hands. A failure is counted exactly if
  -- not all places are filled, and the pool stays valid.
  pub allocate_batch_lem :
      (a : FrameAllocator) (output : List FrameHandle) (owner : FrameOwner)
      → owner ≢ free
      → IsValid frame_count a
      → let (count, output', b) = allocate_batch frame_count frame_size a output owner in
        IsValid frame_count b
        × (frames : List ℕ) × (count ≡ length frames)
        × (count ≡ min (length output) a.free_count)
        × (output' ≡ map (make_handle frame_count frame_size) frames ++ drop count output)
        × Handed owner frames a b
        × (b.allocation_failures ≡ (
            if ltb count (length output)
            then add64 a.allocation_failures 1
            else a.allocation_failures))
  unfolding allocate_batch
  allocate_batch_lem a output owner used v =
      let (frames, l) =
        allocate_loop_lem frame_count frame_size owner (length output) 0 output a used (omega arith)
          v in
      let (count, output', b) =
        allocate_loop frame_count frame_size owner (length output) 0 output a in
      let counted : count ≡ length frames = omega (arith, l.counted) in
      let whole : output' ≡ map (make_handle frame_count frame_size) frames ++ drop count output =
        l.written
        ∙ ap (λ (m : ℕ). map (make_handle frame_count frame_size) frames ++ drop m output)
            (sym l.counted) in
      elim (Bool-cases (ltb count (length output))) [
        | inl short ↦
            rw (short, allocate_batch)
              (
                SamePool-IsValid frame_count _ _
                    (record { same_stack = refl; same_owners = refl; same_count = refl }) l.valid,
                frames,
                counted,
                omega (arith, l.many, counted),
                whole,
                record { left = l.handed.left; out = l.handed.out; owners = l.handed.owners },
                rw short (ap (λ (m : ℕ). add64 m 1) l.failures),
              )
        | inr full ↦
            rw (full, allocate_batch)
              (
                l.valid,
                frames,
                counted,
                omega (arith, l.many, counted),
                whole,
                l.handed,
                rw full l.failures,
              )
      ]

  pub data Call : Type 0 where
    allocates : FrameOwner → Call
    allocates_batch : List FrameHandle → FrameOwner → Call
    transitions : FrameHandle → FrameOwner → FrameOwner → Call
    releases : FrameHandle → FrameOwner → Call
    releases_batch : List FrameHandle → FrameOwner → Call

  abbrev pub IsProper : Call → Type 0
  IsProper (allocates owner) = owner ≢ free
  IsProper (allocates_batch output owner) = owner ≢ free
  IsProper (transitions f expected_owner next_owner) = expected_owner ≢ free
  IsProper (releases f expected_owner) = expected_owner ≢ free
  IsProper (releases_batch fs expected_owner) = (expected_owner ≢ free) × Distinct fs

  pub step : FrameAllocator → Call → FrameAllocator
  step a (allocates owner) = (allocate frame_count frame_size a owner).1
  step a (allocates_batch output owner) = (allocate_batch frame_count frame_size a output owner).2
  step a (transitions f expected_owner next_owner) =
      (transition frame_count frame_size a f expected_owner next_owner).1
  step a (releases f expected_owner) = (release frame_count frame_size a f expected_owner).1
  step a (releases_batch fs expected_owner) =
      (release_batch frame_count frame_size a fs expected_owner).1

  pub run : FrameAllocator → List Call → FrameAllocator
  run a [] = a
  run a (c ∷ cs) = run (step a c) cs

  step-IsValid :
      (a : FrameAllocator) (c : Call)
      → IsProper c
      → IsValid frame_count a
      → IsValid frame_count (step a c)
  unfolding step
  step-IsValid a (allocates owner) p v = allocate-IsValid frame_count frame_size a owner p v
  step-IsValid a (allocates_batch output owner) p v = (allocate_batch_lem a output owner p v).0
  step-IsValid a (transitions f e n) p v = transition-IsValid frame_count frame_size a f e n p v
  step-IsValid a (releases f e) p v = release-IsValid frame_count frame_size a f e p v
  step-IsValid a (releases_batch fs e) (p, d) v =
      elim (release_batch_lem frame_count frame_size e a fs p v d) [
        | inl (_, pushed) ↦ pushed.valid
        | inr (_, _, w) ↦ w
      ]

  run-IsValid :
      (a : FrameAllocator) (cs : List Call)
      → All IsProper cs
      → IsValid frame_count a
      → IsValid frame_count (run a cs)
  unfolding run
  run-IsValid a [] p v = v
  run-IsValid a (c ∷ cs) (p, ps) v = run-IsValid (step a c) cs ps (step-IsValid a c p v)

  -- After any history of proper calls on a new pool of at most 2 ^ 32 frames, the pool is valid: the
  -- stack lists exactly the frames whose owner is `Free`, each once.
  pub run-init-IsValid :
      (cs : List Call)
      → frame_count ≤ 2 ^ 32
      → All IsProper cs
      → IsValid frame_count (run (init frame_count frame_size) cs)
  run-init-IsValid cs few p = run-IsValid _ cs p (init-IsValid frame_count frame_size few)
