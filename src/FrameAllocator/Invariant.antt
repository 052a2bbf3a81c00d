-- ===== src/FrameAllocator/Invariant.antt =====
-- What holds of the pool between calls: the stack's used part lists exactly the frames whose owner
-- is `Free`, each once.
use chronos_x.Base.{
  ℕ, suc, ◌+◌, ◌-◌, ◌≤◌, ◌<◌, ◌≡◌, ◌≢◌, ◌↔◌, ap, ◌∙◌, true, List, [], ◌∷◌, ◌++◌, arith, ◌==◌,
  if◌then◌else◌, length, take, set, get_or, All, All-append, get_or-set, length-set, take-set_next,
  take_next,
}
use chronos_x.FrameAllocator.{FrameOwner, free, owner_eq, FrameAllocator, owner_at, push_free}

pub owner_eq_iff : (a b : FrameOwner) → (owner_eq a b ≡ true) ↔ (a ≡ b)
owner_eq_iff a b = ground arith

-- How often a number occurs in a list.
unfoldable pub occurrences : ℕ → List ℕ → ℕ
occurrences i [] = 0
occurrences i (x ∷ xs) = (if x == i then 1 else 0) + occurrences i xs

pub occurrences-append :
    (i x : ℕ) (xs : List ℕ)
    → occurrences i (xs ++ x ∷ []) ≡ occurrences i xs + (if x == i then 1 else 0)
unfolding occurrences
occurrences-append i x [] = omega arith
occurrences-append i x (y ∷ ys) = omega (arith, occurrences-append i x ys)

-- The frames on the stack.
abbrev pub free_list : FrameAllocator → List ℕ
free_list a = take a.free_count a.free_stack

abbrev pub is_free : FrameOwner → ℕ
is_free owner = if owner_eq owner free then 1 else 0

pub record IsValid (frame_count : ℕ) (a : FrameAllocator) : Type 0 where
  pub stack_size : length a.free_stack ≡ frame_count
  pub owners_size : length a.owners ≡ frame_count
  pub bounded : a.free_count ≤ frame_count
  pub in_range : All (λ i. i < frame_count) (free_list a)
  pub agree : (i : ℕ) → i < frame_count → occurrences i (free_list a) ≡ is_free (owner_at a i)

module _ (frame_count : ℕ) where
  -- The top of the stack, and the rest.
  pub free_list_top :
      (a : FrameAllocator)
      → IsValid frame_count a
      → a.free_count ≢ 0
      → free_list a
        ≡ take (a.free_count - 1) a.free_stack ++ get_or a.free_stack (a.free_count - 1) 0 ∷ []
  free_list_top a v ne =
      ap (λ n. take n a.free_stack) {y = suc (a.free_count - 1)} (omega arith)
      ∙ take_next (a.free_count - 1) a.free_stack 0 (omega (arith, v.stack_size, v.bounded))

  All-front : (P : ℕ → Type 0) (xs : List ℕ) (x : ℕ) → All P (xs ++ x ∷ []) → All P xs × P x
  All-front P [] x (p, _) = (tt, p)
  All-front P (y ∷ ys) x (p, ps) = let (q, r) = All-front P ys x ps in ((p, q), r)

  -- The frame on top of the stack is a free frame.
  pub top_free :
      (a : FrameAllocator)
      → IsValid frame_count a
      → a.free_count ≢ 0
      → let top = get_or a.free_stack (a.free_count - 1) 0 in
        (top < frame_count) × (owner_at a top ≡ free)
  top_free a v ne = (lt, owner (v.agree top lt))
    where
      top : ℕ
      top = get_or a.free_stack (a.free_count - 1) 0

      rest : List ℕ
      rest = take (a.free_count - 1) a.free_stack

      lt : top < frame_count
      lt = (All-front (λ i. i < frame_count) rest top (rw (free_list_top a v ne) at v.in_range)).1

      owner : occurrences top (free_list a) ≡ is_free (owner_at a top) → owner_at a top ≡ free
      owner e = ground (
        arith,
        e,
        ap (occurrences top) (free_list_top a v ne),
        occurrences-append top top rest,
        owner_eq_iff (owner_at a top) free,
      )

  -- Taking the top frame for an owner other than `Free` keeps the pool valid.
  pub taken-IsValid :
      (a : FrameAllocator) (owner : FrameOwner)
      → owner ≢ free
      → a.free_count ≢ 0
      → IsValid frame_count a
      → IsValid frame_count (record a {
        free_count = a.free_count - 1;
        owners = set a.owners (get_or a.free_stack (a.free_count - 1) 0) owner;
      })
  taken-IsValid a owner used ne v = record {
    stack_size = v.stack_size;
    owners_size = length-set a.owners _ owner ∙ v.owners_size;
    bounded = omega (arith, v.bounded);
    in_range = split.0;
    agree = λ i lt. ground (
      arith,
      v.agree i lt,
      ap (occurrences i) (free_list_top a v ne),
      occurrences-append i top rest,
      get_or-set a.owners top i owner free,
      v.owners_size,
      split.1,
      owner_eq_iff owner free,
    );
  }
    where
      top : ℕ
      top = get_or a.free_stack (a.free_count - 1) 0

      rest : List ℕ
      rest = take (a.free_count - 1) a.free_stack

      split : All (λ i. i < frame_count) rest × (top < frame_count)
      split = All-front (λ i. i < frame_count) rest top (rw (free_list_top a v ne) at v.in_range)

  -- So does giving back a frame whose owner is not `Free`.
  pub push_free-IsValid :
      (a : FrameAllocator) (index : ℕ)
      → index < frame_count
      → owner_at a index ≢ free
      → a.free_count < frame_count
      → IsValid frame_count a
      → IsValid frame_count (push_free a index)
  push_free-IsValid a index lt used room v = record {
    stack_size = length-set a.free_stack _ index ∙ v.stack_size;
    owners_size = length-set a.owners _ free ∙ v.owners_size;
    bounded = room;
    in_range =
        rw pushed
          (All-append (λ i. i < frame_count) (free_list a) (index ∷ []) v.in_range (lt, tt));
    agree = λ i h. ground (
      arith,
      v.agree i h,
      v.agree index lt,
      ap (occurrences i) pushed,
      occurrences-append i index (free_list a),
      get_or-set a.owners index i free free,
      v.owners_size,
      owner_eq_iff (owner_at a index) free,
    );
  }
    where
      pushed :
          take (suc a.free_count) (set a.free_stack a.free_count index) ≡ free_list a ++ index ∷ []
      pushed = take-set_next a.free_count a.free_stack index (omega (arith, v.stack_size))
