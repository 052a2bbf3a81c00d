-- ===== src/FrameAllocator/Init.antt =====
-- The constructor leaves a valid pool in which every frame is free.
use chronos_x.Base.{
  ℕ, zero, suc, ◌+◌, ◌-◌, ◌^◌, ◌≤◌, ◌<◌, ◌≡◌, refl, ap, ◌∙◌, List, arith, u32, if◌then◌else◌,
  length, take, set, get_or, get_or-set, length-set, replicate, length-replicate, get_or-replicate,
  take_next, All, All-append, leb,
}
use chronos_x.FrameAllocator.{FrameOwner, free, FrameAllocator, init_loop, init}
use chronos_x.FrameAllocator.Invariant.{IsValid, occurrences, occurrences-append}

module _ (frame_count frame_size : ℕ) (fits : frame_count ≤ 2 ^ 32) where
  -- The loop has written the cells below `index`.
  record Written (index : ℕ) (stack : List ℕ) (owners : List FrameOwner) : Type 0 where
    stack_size : length stack ≡ frame_count
    owners_size : length owners ≡ frame_count
    cells : (i : ℕ) → i < index → get_or stack i 0 ≡ frame_count - i - 1
    all_free : (i : ℕ) → get_or owners i free ≡ free

  write-Written :
      (index : ℕ) (stack : List ℕ) (owners : List FrameOwner)
      → index < frame_count
      → Written index stack owners
      → Written
          (suc index)
          (set stack index (u32 (frame_count - index - 1)))
          (set owners index free)
  write-Written index stack owners lt w = record {
    stack_size = length-set stack index _ ∙ w.stack_size;
    owners_size = length-set owners index free ∙ w.owners_size;
    cells = λ i h. ground (
      arith,
      w.stack_size,
      w.cells i,
      get_or-set stack index i (u32 (frame_count - index - 1)) 0,
    );
    all_free =
        λ i. ground (arith, w.owners_size, w.all_free i, get_or-set owners index i free free);
  }

  init_loop-Written :
      (n index : ℕ) (stack : List ℕ) (owners : List FrameOwner)
      → index + n ≡ frame_count
      → Written index stack owners
      → let (stack', owners') = init_loop frame_count frame_size n index stack owners in
        Written frame_count stack' owners'
  unfolding init_loop
  init_loop-Written zero index stack owners e w = rw (← done) w
    where
      done : index ≡ frame_count
      done = omega arith
  init_loop-Written (suc n) index stack owners e w =
      init_loop-Written n (suc index) _ _ (omega arith)
        (write-Written index stack owners (omega arith) w)

  -- The first `n` cells hold each of the last `n` indices once.
  occurrences-cells :
      (stack : List ℕ) (owners : List FrameOwner) (n i : ℕ)
      → Written frame_count stack owners
      → n ≤ frame_count
      → i < frame_count
      → occurrences i (take n stack) ≡ (if leb (frame_count - n) i then 1 else 0)
  unfolding occurrences
  occurrences-cells stack owners zero i w le lt = ground arith
  occurrences-cells stack owners (suc n) i w le lt = ground (
    arith,
    ap (occurrences i) (take_next n stack 0 (omega (arith, w.stack_size))),
    occurrences-append i (get_or stack n 0) (take n stack),
    occurrences-cells stack owners n i w (omega arith) lt,
    w.cells n (omega arith),
  )

  cells_in_range :
      (stack : List ℕ) (owners : List FrameOwner) (n : ℕ)
      → Written frame_count stack owners
      → n ≤ frame_count
      → All (λ i. i < frame_count) (take n stack)
  cells_in_range stack owners zero w le = tt
  cells_in_range stack owners (suc n) w le =
      rw (take_next n stack 0 (omega (arith, w.stack_size))) (
        All-append (λ i. i < frame_count) (take n stack) _
          (cells_in_range stack owners n w (omega arith))
          (omega (arith, w.cells n (omega arith)), tt))

  init-Written : let a = init frame_count frame_size in Written frame_count a.free_stack a.owners
  unfolding init
  init-Written =
      init_loop-Written frame_count 0 (replicate frame_count 0) (replicate frame_count free)
        (omega arith)
        (record {
          stack_size = length-replicate frame_count 0;
          owners_size = length-replicate frame_count free;
          cells = λ i h. absurd (omega arith);
          all_free = λ i. get_or-replicate frame_count i free;
        })

  free_count_init : (init frame_count frame_size).free_count ≡ frame_count
  unfolding init
  free_count_init = refl

  -- A new pool of at most 2^32 frames is valid.
  pub init-IsValid : IsValid frame_count (init frame_count frame_size)
  init-IsValid = record {
    stack_size = init-Written.stack_size;
    owners_size = init-Written.owners_size;
    bounded = omega (arith, free_count_init);
    in_range =
        rw free_count_init
          (cells_in_range a.free_stack a.owners frame_count init-Written (omega arith));
    agree = λ i lt.
        rw (free_count_init, init-Written.all_free i)
          (ground (
            arith,
            occurrences-cells a.free_stack a.owners frame_count i init-Written (omega arith) lt,
          ));
  }
    where
      a : FrameAllocator
      a = init frame_count frame_size
