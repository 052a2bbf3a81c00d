-- ===== src/Runtime/Custody.antt =====
-- include/chronosx/af_xdp_runtime.hpp: which frames are free does not change while the adapter runs.
use chronos_x.Base.{
  ℕ, ◌<◌, ◌≡◌, ◌≢◌, refl, ◌∙◌, Bool, true, false, ◌&&◌, arith, length, set, get_or-set, Bool-cases,
  inl, inr,
}
use chronos_x.FrameAllocator.{
  FrameAllocator, FrameHandle, FrameOwner, free, owner_eq, owner_at, is_ok, transition,
  handle_from_address, owner_of,
}
use chronos_x.FrameAllocator.Invariant.{IsValid, owner_eq_iff}
use chronos_x.FrameAllocator.Release.{verdict, verdict-ok, transition_lem, transition-IsValid}

-- Whether the arrays have a frame as free.
unfoldable pub is_free_at : FrameAllocator → ℕ → Bool
is_free_at a i = owner_eq (owner_at a i) free

is_free_at-set :
    (a : FrameAllocator) (k : ℕ) (owner : FrameOwner) (i : ℕ)
    → k < length a.owners
    → owner ≢ free
    → owner_at a k ≢ free
    → is_free_at (record a { owners = set a.owners k owner }) i ≡ is_free_at a i
unfolding is_free_at
is_free_at-set a k owner i h used was = ground (
  arith,
  get_or-set a.owners k i owner free h,
  owner_eq_iff owner free,
  owner_eq_iff (owner_at a k) free,
)

module _ (frame_count frame_size : ℕ) where
  -- A well-formed pool with the same free frames.
  pub record Keeps (a a' : FrameAllocator) : Type 0 where
    pub valid : IsValid frame_count a'
    pub same : (i : ℕ) → is_free_at a' i ≡ is_free_at a i

  pub Keeps_self : (a : FrameAllocator) → IsValid frame_count a → Keeps a a
  Keeps_self a v = record { valid = v; same = λ i. refl }

  pub Keeps_twice : {a b c : FrameAllocator} → Keeps a b → Keeps b c → Keeps a c
  Keeps_twice p q = record { valid = q.valid; same = λ i. q.same i ∙ p.same i }

  transition_same :
      (a : FrameAllocator) (frame : FrameHandle) (expected_owner next_owner : FrameOwner) (i : ℕ)
      → expected_owner ≢ free
      → next_owner ≢ free
      → IsValid frame_count a
      → is_free_at (transition frame_count frame_size a frame expected_owner next_owner).1 i
        ≡ is_free_at a i
  unfolding is_free_at
  transition_same a frame expected_owner next_owner i used next v =
      rw (transition_lem frame_count frame_size a frame expected_owner next_owner used v)
        (elim (Bool-cases (is_ok (verdict frame_count frame_size a frame expected_owner))) [
          | inl h ↦
              let (lt, _, e) = verdict-ok frame_count frame_size a frame expected_owner h in
              rw (h, not_free next_owner next)
                (is_free_at-set a frame.index next_owner i (omega (arith, v.owners_size)) next
                  (rw e used))
          | inr h ↦ rw h refl
        ])
    where
      not_free : (o : FrameOwner) → o ≢ free → owner_eq o free ≡ false
      not_free o h = ground (arith, owner_eq_iff o free)

  pub transition-Keeps :
      (a : FrameAllocator) (frame : FrameHandle) (expected_owner next_owner : FrameOwner)
      → expected_owner ≢ free
      → next_owner ≢ free
      → IsValid frame_count a
      → Keeps a (transition frame_count frame_size a frame expected_owner next_owner).1
  transition-Keeps a frame expected_owner next_owner used next v = record {
    valid = transition-IsValid frame_count frame_size a frame expected_owner next_owner used v;
    same = λ i. transition_same a frame expected_owner next_owner i used next v;
  }

  -- Whether an address is that of a free frame.
  unfoldable pub is_free_address : FrameAllocator → ℕ → Bool
  is_free_address a address =
      let handle = handle_from_address frame_count frame_size address in
      is_ok handle.status && owner_eq (owner_of frame_count frame_size a handle.frame.index) free

  abbrev pub Used : FrameAllocator → ℕ → Type 0
  Used a address = is_free_address a address ≡ false

  pub is_free_address-Keeps :
      (a a' : FrameAllocator) (address : ℕ)
      → Keeps a a'
      → is_free_address a' address ≡ is_free_address a address
  unfolding is_free_address owner_of is_free_at
  is_free_address-Keeps a a' address k =
      ground (arith, k.same (handle_from_address frame_count frame_size address).frame.index)

  pub taken_owner :
      (a : FrameAllocator) (address : ℕ)
      → Used a address
      → is_ok (handle_from_address frame_count frame_size address).status ≡ true
      → owner_of frame_count frame_size a
          (handle_from_address frame_count frame_size address).frame.index
        ≢ free
  unfolding is_free_address
  taken_owner a address h good = ground (
    arith,
    h,
    owner_eq_iff
        (owner_of frame_count frame_size a
          (handle_from_address frame_count frame_size address).frame.index)
        free,
  )
