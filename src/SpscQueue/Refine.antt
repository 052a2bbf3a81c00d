-- ===== src/SpscQueue/Refine.antt =====
-- A valid queue behaves as the first-in first-out queue of the elements that it holds.
use chronos_x.Base.{
  ℕ, suc, ◌+◌, ◌-◌, ◌%◌, ◌<◌, ◌≡◌, ◌≢◌, refl, ap, ◌∙◌, List, [], ◌∷◌, arith, bit_and, sub64, add64,
  length, get_or, Bool-cases, ==_iff, ◌==◌, ap₂, some, inl, inr, true, false,
}
use chronos_x.Types.PowerOfTwo.{bit_and_capacity, u64-mod_capacity}
use chronos_x.Window.{window, length-window, window_cong, window_of_ne_zero, window-set_last}
use chronos_x.SpscQueue.{SpscQueue, index_mask, try_push, try_pop, size_approx}
use chronos_x.SpscQueue.Fifo.{Op, push, pop, Reply, pushed, popped, enqueue, dequeue}
use chronos_x.SpscQueue.Fifo
use chronos_x.SpscQueue.Invariant.{IsValid, tail_index, try_push-IsValid, try_pop-IsValid}

-- A client's calls in order, with what each returns.
module _ {ℓ} {A : Type ℓ} (capacity : ℕ) (d : A) where
  unfoldable pub run : SpscQueue A → List (Op A) → List (Reply A)
  run q [] = []
  run q (push x ∷ ops) = let (done, q') = try_push capacity d q x in pushed done ∷ run q' ops
  run q (pop ∷ ops) = let (out, q') = try_pop capacity d q in popped out ∷ run q' ops

  -- Oldest first.
  abbrev pub contents : SpscQueue A → List A
  contents q = window d q.buffer capacity q.head (sub64 q.tail q.head)

  pub length-contents : (q : SpscQueue A) → length (contents q) ≡ size_approx q
  unfolding size_approx
  length-contents q = length-window d q.buffer capacity q.head (sub64 q.tail q.head)

  -- `try_push` answers as the queue does, and leaves the ring holding its elements.
  pub try_push_refines :
      (q : SpscQueue A) (x : A)
      → IsValid capacity q
      → let (done, q') = try_push capacity d q x in
        (done, contents q') ≡ enqueue capacity (contents q) x
  unfolding try_push enqueue size_approx
  try_push_refines q x v = ground (
    arith,
    length-contents q,
    tail_index v,
    window-set_last d q.buffer capacity q.head n (bit_and q.tail (index_mask capacity)) x,
    grown,
  )
    where
      n : ℕ
      n = sub64 q.tail q.head

      open v use {head_word, tail_word, word}

      grown : n < capacity → sub64 (add64 q.tail 1) q.head ≡ suc n
      grown h = omega arith

  -- `try_pop` returns the oldest element, and leaves the others.
  pub try_pop_refines :
      (q : SpscQueue A)
      → IsValid capacity q
      → let (out, q') = try_pop capacity d q in (out, contents q') ≡ dequeue (contents q)
  unfolding try_pop dequeue
  try_pop_refines q v = elim (Bool-cases (q.head == q.tail)) [
    | inl empty ↦ rw (empty, none_left empty)
    | inr more ↦
        rw (more, window_of_ne_zero d q.buffer capacity q.head n (some_left more))
          (ap₂ (λ i w. (some (get_or q.buffer i d), w)) (bit_and_capacity capacity q.head v.power)
            (rest more))
  ]
    where
      n : ℕ
      n = sub64 q.tail q.head

      open v use {head_word, tail_word, word, power}

      none_left : (q.head == q.tail) ≡ true → sub64 q.tail q.head ≡ 0
      none_left e = omega (arith, (==_iff q.head q.tail).0 e)

      some_left : (q.head == q.tail) ≡ false → sub64 q.tail q.head ≢ 0
      some_left e = ground arith

      rest :
          (q.head == q.tail) ≡ false
          → window d q.buffer capacity (add64 q.head 1) (sub64 q.tail (add64 q.head 1))
            ≡ window d q.buffer capacity (suc q.head) (n - 1)
      rest e =
          ap (window d q.buffer capacity (add64 q.head 1)) (ground (arith, some_left e))
          ∙ window_cong d q.buffer capacity (add64 q.head 1) (suc q.head) (n - 1) (
              u64-mod_capacity capacity (q.head + 1) power word
              ∙ ap (λ t. t % capacity) (omega arith))

  -- No sequence of calls tells a valid ring from the queue of its contents.
  pub run_refines :
      (ops : List (Op A)) (q : SpscQueue A)
      → IsValid capacity q
      → run q ops ≡ Fifo.run capacity (contents q) ops
  unfolding run Fifo.run
  run_refines [] q v = refl
  run_refines (push x ∷ ops) q v =
      rw (run_refines ops _ (try_push-IsValid capacity d q x v), ← try_push_refines q x v)
  run_refines (pop ∷ ops) q v =
      rw (run_refines ops _ (try_pop-IsValid capacity d q v), ← try_pop_refines q v)
