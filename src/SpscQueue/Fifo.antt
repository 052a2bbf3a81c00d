-- ===== src/SpscQueue/Fifo.antt =====
-- What a client may rely on: a first-in first-out queue of at most `capacity` elements.
use chronos_x.Base.{
  ℕ, Bool, true, false, Option, none, some, List, [], ◌∷◌, ◌++◌, leb, if◌then◌else◌, length,
}

pub data Op {ℓ} (A : Type ℓ) : Type ℓ where
  push : A → Op A
  pop : Op A

pub data Reply {ℓ} (A : Type ℓ) : Type ℓ where
  pushed : Bool → Reply A
  popped : Option A → Reply A

module _ {ℓ} {A : Type ℓ} where
  unfoldable pub enqueue : ℕ → List A → A → Bool × List A
  enqueue capacity q x = if leb capacity (length q) then (false, q) else (true, q ++ x ∷ [])

  unfoldable pub dequeue : List A → Option A × List A
  dequeue [] = (none, [])
  dequeue (x ∷ q) = (some x, q)

  unfoldable pub run : ℕ → List A → List (Op A) → List (Reply A)
  run capacity q [] = []
  run capacity q (push x ∷ ops) =
      let (done, q') = enqueue capacity q x in pushed done ∷ run capacity q' ops
  run capacity q (pop ∷ ops) = let (out, q') = dequeue q in popped out ∷ run capacity q' ops
