-- ===== src/FrameAllocator/Counting.antt =====
-- How many frames are free, and how many are in use.
use chronos_x.Base.{
  ℕ, zero, suc, ◌+◌, ◌-◌, ◌≤◌, ◌<◌, ◌≡◌, ◌≢◌, refl, ap, sym, ◌∙◌, List, [], ◌∷◌, arith, ◌==◌, ltb,
  dec_lt, if◌then◌else◌, length, length-take, All,
}
use chronos_x.FrameAllocator.{FrameOwner, free, FrameAllocator, owner_at, in_use}
use chronos_x.FrameAllocator.Invariant.{IsValid, occurrences, free_list, is_free, owner_eq_iff}

-- The sum of `f i` over all `i` below `n`.
pub sum_below : ℕ → (ℕ → ℕ) → ℕ
sum_below zero f = 0
sum_below (suc n) f = sum_below n f + f n

sum_below_ext :
    (n : ℕ) (f g : ℕ → ℕ) → ((i : ℕ) → i < n → f i ≡ g i) → sum_below n f ≡ sum_below n g
unfolding sum_below
sum_below_ext zero f g e = refl
sum_below_ext (suc n) f g e =
    omega (arith, sum_below_ext n f g (λ i h. e i (omega arith)), e n (omega arith))

sum_below_zero : (n : ℕ) → sum_below n (λ i. 0) ≡ 0
unfolding sum_below
sum_below_zero zero = refl
sum_below_zero (suc n) = omega (arith, sum_below_zero n)

-- One number below `n` adds one to the sum of its occurrences.
sum_below_hit :
    (n x : ℕ) (f : ℕ → ℕ)
    → sum_below n (λ i. (if x == i then 1 else 0) + f i)
      ≡ sum_below n f + (if ltb x n then 1 else 0)
unfolding sum_below
sum_below_hit zero x f = ground arith
sum_below_hit (suc n) x f = ground (arith, sum_below_hit n x f)

pub length-occurrences :
    (n : ℕ) (xs : List ℕ) → All (λ i. i < n) xs → length xs ≡ sum_below n (λ i. occurrences i xs)
unfolding occurrences
length-occurrences n [] h = sym (sum_below_zero n)
length-occurrences n (x ∷ xs) (lt, h) =
    ground (arith, sum_below_hit n x (λ i. occurrences i xs), length-occurrences n xs h)

-- The frames below `n` whose owner is not `Free`.
pub owned : FrameAllocator → ℕ → ℕ
owned a n = sum_below n (λ i. 1 - is_free (owner_at a i))

sum_below_split :
    (n : ℕ) (f : ℕ → ℕ) → ((i : ℕ) → f i ≤ 1) → sum_below n f + sum_below n (λ i. 1 - f i) ≡ n
unfolding sum_below
sum_below_split zero f h = refl
sum_below_split (suc n) f h = omega (arith, sum_below_split n f h, h n)

pub is_free-le : (owner : FrameOwner) → is_free owner ≤ 1
is_free-le owner = ground arith

module _ (frame_count frame_size : ℕ) where
  free_count_sum :
      (a : FrameAllocator)
      → IsValid frame_count a
      → a.free_count ≡ sum_below frame_count (λ i. is_free (owner_at a i))
  free_count_sum a v =
      omega (arith, length-take a.free_count a.free_stack, v.stack_size, v.bounded)
      ∙ length-occurrences frame_count (free_list a) v.in_range
      ∙ sum_below_ext frame_count _ _ v.agree

  -- On a valid pool `in_use` is the number of frames whose owner is not `Free`.
  pub in_use_lem :
      (a : FrameAllocator)
      → IsValid frame_count a
      → in_use frame_count frame_size a ≡ owned a frame_count
  unfolding in_use owned
  in_use_lem a v = omega (
    arith,
    free_count_sum a v,
    sum_below_split frame_count (λ i. is_free (owner_at a i)) (λ i. is_free-le (owner_at a i)),
    v.bounded,
  )

  sum_below_pos : (n k : ℕ) (f : ℕ → ℕ) → k < n → 0 < f k → 0 < sum_below n f
  unfolding sum_below
  sum_below_pos zero k f lt h = absurd (omega arith)
  sum_below_pos (suc n) k f lt h = elim (dec_lt k n) [
    | yes below ↦ omega (arith, sum_below_pos n k f below h)
    | no last ↦ let e : k ≡ n = omega arith in omega (arith, ap f e)
  ]

  -- While a frame has another owner, the stack is not full.
  pub used_room :
      (a : FrameAllocator) (k : ℕ)
      → IsValid frame_count a
      → k < frame_count
      → owner_at a k ≢ free
      → a.free_count < frame_count
  used_room a k v lt used = omega (
    arith,
    free_count_sum a v,
    sum_below_split frame_count (λ i. is_free (owner_at a i)) (λ i. is_free-le (owner_at a i)),
    sum_below_pos frame_count k (λ i. 1 - is_free (owner_at a i)) lt counted,
  )
    where
      counted : 0 < 1 - is_free (owner_at a k)
      counted = ground (arith, owner_eq_iff (owner_at a k) free)
