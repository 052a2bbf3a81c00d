-- ===== src/FrameAllocator/Methods.antt =====
-- Every method on every branch: which calls succeed, what they change, and that the pool stays
-- valid. A caller names an owner other than `Free`: see `Misuse` for what happens otherwise.
use chronos_x.Base.{
  ℕ, suc, ◌<◌, ◌≡◌, ◌≢◌, ◌⊎◌, refl, ap, ap₂, sym, ◌∙◌, arith, add64, ◌==◌, ==_iff, if◌then◌else◌,
  length, take, get_or, get_or-set, Bool-cases, inl, inr,
}
use chronos_x.FrameAllocator.{
  FrameOwner, free, ok, pool_empty, FrameAllocator, owner_at, make_handle, allocate,
}
use chronos_x.FrameAllocator.Invariant.{
  IsValid, occurrences, free_list, top_free, is_free, taken-IsValid,
}

-- Only the failure counters differ.
pub record SamePool (a b : FrameAllocator) : Type 0 where
  pub same_stack : b.free_stack ≡ a.free_stack
  pub same_owners : b.owners ≡ a.owners
  pub same_count : b.free_count ≡ a.free_count

pub SamePool-IsValid : (n : ℕ) (a b : FrameAllocator) → SamePool a b → IsValid n a → IsValid n b
SamePool-IsValid n a b e v = record {
  stack_size = ap length e.same_stack ∙ v.stack_size;
  owners_size = ap length e.same_owners ∙ v.owners_size;
  bounded = omega (arith, e.same_count, v.bounded);
  in_range = rw listed v.in_range;
  agree = λ i lt.
      ap (occurrences i) listed
      ∙ v.agree i lt
      ∙ ap (λ o. is_free (get_or o i free)) (sym e.same_owners);
}
  where
    listed : free_list b ≡ free_list a
    listed = ap₂ take e.same_count e.same_stack

module _ (frame_count frame_size : ℕ) where
  -- `allocate` keeps the pool valid, whether or not a frame is left.
  pub allocate-IsValid :
      (a : FrameAllocator) (owner : FrameOwner)
      → owner ≢ free
      → IsValid frame_count a
      → IsValid frame_count (allocate frame_count frame_size a owner).1
  unfolding allocate
  allocate-IsValid a owner used v = elim (Bool-cases (a.free_count == 0)) [
    | inl e ↦ rw e (
        SamePool-IsValid frame_count a _
          (record { same_stack = refl; same_owners = refl; same_count = refl }) v)
    | inr e ↦ rw e (taken-IsValid frame_count a owner used (ground arith) v)
  ]

  -- On a valid pool: with a frame left, `allocate` hands out a frame that was free and gives it the owner that was
  -- asked for; no other frame changes hands, and one frame less is available. With none left it
  -- answers `PoolEmpty`, and only the failure count changes.
  pub allocate_lem :
      (a : FrameAllocator) (owner : FrameOwner)
      → IsValid frame_count a
      → let (r, a') = allocate frame_count frame_size a owner in
        ((a.free_count ≡ 0)
          × (r.status ≡ pool_empty)
          × (a' ≡ record a { allocation_failures = add64 a.allocation_failures 1 }))
        ⊎ ((r.status ≡ ok)
            × (r.frame ≡ make_handle frame_count frame_size r.frame.index)
            × (r.frame.index < frame_count)
            × (owner_at a r.frame.index ≡ free)
            × ((i : ℕ) → owner_at a' i ≡ (if r.frame.index == i then owner else owner_at a i))
            × (suc a'.free_count ≡ a.free_count))
  unfolding allocate
  allocate_lem a owner v = elim (Bool-cases (a.free_count == 0)) [
    | inl e ↦ rw e (inl ((==_iff a.free_count 0).0 e, refl, refl))
    | inr e ↦
        let top = top_free frame_count a v (ground arith) in
        rw e (
          inr (
            refl,
            refl,
            top.0,
            top.1,
            λ i. get_or-set a.owners _ i owner free (omega (arith, top.0, v.owners_size)),
            ground arith,
          ))
  ]
