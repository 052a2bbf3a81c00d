-- ===== src/FrameAllocator/Handed.antt =====
-- include/chronosx/frame_allocator.hpp: frames handed out one after the other.
use chronos_x.Base.{
  ℕ, ◌+◌, ◌-◌, ◌≡◌, ◌≢◌, refl, ap, List, [], ◌∷◌, ◌++◌, arith, ◌==◌, false, if◌then◌else◌, length,
  length-append, get_or, get_or-set, take,
}
use chronos_x.FrameAllocator.{FrameOwner, free, ok, FrameAllocator, owner_at, make_handle, allocate}
use chronos_x.FrameAllocator.Invariant.{
  IsValid, occurrences, occurrences-append, free_list, free_list_top, top_free,
}

-- Frames, by index, that left the free list, each as often as it is named, and have a new owner; no other
-- frame changed hands.
pub record Handed (owner : FrameOwner) (frames : List ℕ) (a b : FrameAllocator) : Type 0 where
  pub left : b.free_count + length frames ≡ a.free_count
  pub out :
      (i : ℕ) → occurrences i frames + occurrences i (free_list b) ≡ occurrences i (free_list a)
  pub owners : (i : ℕ) → owner_at b i ≡ (if occurrences i frames == 0 then owner_at a i else owner)

occurrences-join :
    (i : ℕ) (xs ys : List ℕ) → occurrences i (xs ++ ys) ≡ occurrences i xs + occurrences i ys
unfolding occurrences
occurrences-join i [] ys = omega arith
occurrences-join i (x ∷ xs) ys = omega (arith, occurrences-join i xs ys)

pub Handed-none : (owner : FrameOwner) (a : FrameAllocator) → Handed owner [] a a
unfolding occurrences
Handed-none owner a = record { left = omega arith; out = λ i. omega arith; owners = λ i. refl }

pub Handed-append :
    (owner : FrameOwner) (xs ys : List ℕ) (a b c : FrameAllocator)
    → Handed owner xs a b
    → Handed owner ys b c
    → Handed owner (xs ++ ys) a c
Handed-append owner xs ys a b c h k = record {
  left = omega (arith, h.left, k.left, length-append xs ys);
  out = λ i. omega (arith, h.out i, k.out i, occurrences-join i xs ys);
  owners = λ i. ground (arith, h.owners i, k.owners i, occurrences-join i xs ys);
}

module _ (frame_count frame_size : ℕ) where
  -- `allocate` hands out the frame that it answers.
  pub allocate-Handed :
      (a : FrameAllocator) (owner : FrameOwner)
      → IsValid frame_count a
      → a.free_count ≢ 0
      → let (r, b) = allocate frame_count frame_size a owner in
        (r ≡ record { frame = make_handle frame_count frame_size r.frame.index; status = ok })
        × Handed owner (r.frame.index ∷ []) a b
        × (b.allocation_failures ≡ a.allocation_failures)
  unfolding allocate occurrences make_handle
  allocate-Handed a owner v some_left =
      rw (let e : (a.free_count == 0) ≡ false = ground (arith, some_left) in e) (
        refl,
        record {
          left = omega (arith, some_left);
          out = λ i. omega (
            arith,
            ap (occurrences i) (free_list_top frame_count a v some_left),
            occurrences-append i (get_or a.free_stack (a.free_count - 1) 0)
                (take (a.free_count - 1) a.free_stack),
          );
          owners = λ i. ground (
            arith,
            get_or-set a.owners (get_or a.free_stack (a.free_count - 1) 0) i owner free,
            top_free frame_count a v some_left,
            v.owners_size,
          );
        },
        refl,
      )
