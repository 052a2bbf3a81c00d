-- ===== src/FrameAllocator/Loop.antt =====
-- include/chronosx/frame_allocator.hpp: the loop of `allocate_batch`.
use mathlib.Core.List.{append_assoc}
use chronos_x.Base.{
  ℕ, zero, suc, ◌+◌, ◌≤◌, ◌<◌, ◌≡◌, ◌≢◌, refl, ap, sym, ◌∙◌, List, [], ◌∷◌, ◌++◌, map, arith, ltb,
  min, length, length-set, take, drop, set, take-set_next, drop-set_before, Bool-cases, inl, inr,
}
use chronos_x.FrameAllocator.{
  FrameOwner, free, FrameHandle, FrameAllocator, make_handle, allocate, allocate_loop,
}
use chronos_x.FrameAllocator.Invariant.{IsValid}
use chronos_x.FrameAllocator.Methods.{allocate-IsValid}
use chronos_x.FrameAllocator.Handed.{Handed, Handed-none, Handed-append, allocate-Handed}

take-drop : {A : Type 0} (n : ℕ) (xs : List A) → take n xs ++ drop n xs ≡ xs
take-drop zero xs = refl
take-drop (suc n) [] = refl
take-drop (suc n) (x ∷ xs) = ap (◌∷◌ x) (take-drop n xs)

module _ (frame_count frame_size : ℕ) where
  -- What the loop writes behind the first `count` places, on what the rest of the loop makes of it.
  output_step :
      (count : ℕ) (output : List FrameHandle) (f : FrameHandle) (fs : List FrameHandle) (k : ℕ)
      → count < length output
      → take (suc count) (set output count f) ++ (fs ++ drop (suc count + k) (set output count f))
        ≡ take count output ++ ((f ∷ fs) ++ drop (count + suc k) output)
  output_step count output f fs k h =
      ap (λ l. l ++ (fs ++ drop (suc count + k) (set output count f)))
        (take-set_next count output f h)
      ∙ append_assoc (take count output) (f ∷ []) (fs ++ drop (suc count + k) (set output count f))
      ∙ ap (λ l. take count output ++ (f ∷ (fs ++ l)))
          (ap (λ (m : ℕ). drop m (set output count f))
              (let e : suc count + k ≡ suc (count + k) = omega arith in e)
            ∙ drop-set_before (count + k) count output f (omega arith)
            ∙ ap (λ (m : ℕ). drop m output)
                (let e : suc (count + k) ≡ count + suc k = omega arith in e))

  -- What the loop leaves: the frames that it handed out are written from `count` on.
  pub record Looped (owner : FrameOwner) (n count : ℕ) (output : List FrameHandle)
      (a : FrameAllocator) (frames : List ℕ) (r : ℕ × List FrameHandle × FrameAllocator)
      : Type 0 where
    pub valid : IsValid frame_count r.2
    pub many : length frames ≡ min n a.free_count
    pub counted : r.0 ≡ count + length frames
    pub written :
        r.1
        ≡ take count output
          ++ (map (make_handle frame_count frame_size) frames
              ++ drop (count + length frames) output)
    pub handed : Handed owner frames a r.2
    pub failures : r.2.allocation_failures ≡ a.allocation_failures

  nothing_handed :
      (owner : FrameOwner) (n count : ℕ) (output : List FrameHandle) (a : FrameAllocator)
      → IsValid frame_count a
      → min n a.free_count ≡ 0
      → Looped owner n count output a [] (count, output, a)
  nothing_handed owner n count output a v nothing = record {
    valid = v;
    many = sym nothing;
    counted = omega arith;
    written = sym (
        ap (λ (m : ℕ). take count output ++ drop m output)
          (let e : count + 0 ≡ count = omega arith in e)
        ∙ take-drop count output);
    handed = Handed-none owner a;
    failures = refl;
  }

  pub allocate_loop_lem :
      (owner : FrameOwner) (n count : ℕ) (output : List FrameHandle) (a : FrameAllocator)
      → owner ≢ free
      → count + n ≤ length output
      → IsValid frame_count a
      → (frames : List ℕ) × Looped owner n count output a frames
          (allocate_loop frame_count frame_size owner n count output a)
  unfolding allocate_loop
  allocate_loop_lem owner zero count output a used fits v =
      ([], nothing_handed owner zero count output a v (omega arith))
  allocate_loop_lem owner (suc n) count output a used fits v =
      elim (Bool-cases (ltb 0 a.free_count)) [
        | inl more ↦
            let some_left : a.free_count ≢ 0 = ground (arith, more) in
            let (r, b) = allocate frame_count frame_size a owner in
            let (answer, one, same) = allocate-Handed frame_count frame_size a owner v some_left in
            let (frames, rest) =
              allocate_loop_lem owner n (suc count) (set output count r.frame) b used
                (omega (arith, fits, length-set output count r.frame))
                (allocate-IsValid frame_count frame_size a owner used v) in
            (
              r.frame.index ∷ frames,
              rw (more, allocate_loop)
                  (record {
                    valid = rest.valid;
                    many = omega (arith, rest.many, one.left);
                    counted = omega (arith, rest.counted);
                    written =
                        rest.written
                        ∙ output_step count output r.frame
                            (map (make_handle frame_count frame_size) frames) (length frames)
                            (omega (arith, fits))
                        ∙ ap
                            (λ f.
                              take count output
                              ++ ((f ∷ map (make_handle frame_count frame_size) frames)
                                  ++ drop (count + suc (length frames)) output))
                            (ap (λ r. r.frame) answer);
                    handed = Handed-append owner (r.frame.index ∷ []) frames a b _ one rest.handed;
                    failures = rest.failures ∙ same;
                  }),
            )
        | inr done ↦ (
          [],
          rw (done, allocate_loop)
              (nothing_handed owner (suc n) count output a v (ground (arith, done))),
        )
      ]
