-- ===== src/SocketManager/Refine.antt =====
-- include/chronosx/socket_manager.hpp: a simulated ring is a bounded first-in first-out queue, filled
-- and emptied by several elements at a time. Each round is one of the SPSC queue's operations.
use mathlib.Core.List.{append_assoc, append-nil}
use mathlib.Core.Path.{subst}
use mathlib.Core.Option.{none-ne-some, some-injective}
use chronos_x.Base.{
  ℕ, zero, suc, ◌-◌, ◌<◌, ◌≡◌, refl, sym, ap, ap₂, ◌∙◌, List, [], ◌∷◌, ◌++◌, true, false, some,
  arith, ltb, leb, ◌==◌, length, length-append, take, drop, min, add64, sub64, bit_and, set, get_or,
  u64_mod, Bool-cases, inl, inr,
}
use chronos_x.Types.{is_power_of_two}
use chronos_x.SpscQueue.{SpscQueue, init, try_push, try_pop, size_approx}
use chronos_x.SpscQueue.Fifo.{enqueue, dequeue}
use chronos_x.SpscQueue.Invariant.{IsValid, init-IsValid, try_push-IsValid, try_pop-IsValid}
use chronos_x.SpscQueue.Refine.{contents, length-contents, try_push_refines, try_pop_refines}
use chronos_x.SocketManager.{
  SimulatedRing, new_ring, available_produce, available_consume, produce, consume,
}

lt→leb : (a b : ℕ) → b < a → leb a b ≡ false
lt→leb a b h = ground arith

append-nil_take {ℓ} : {A : Type ℓ} (xs : List A) (n : ℕ) → xs ++ take n [] ≡ xs
append-nil_take xs zero = append-nil xs
append-nil_take xs (suc n) = append-nil xs

-- One item more in front of the rest of the items.
append_taken {ℓ} :
    {A : Type ℓ} (xs zs items : List A) (item : A) (k m : ℕ)
    → zs ≡ xs ++ item ∷ []
    → m ≡ suc k
    → zs ++ take k items ≡ xs ++ take m (item ∷ items)
append_taken xs zs items item k m e f =
    ap (λ l. l ++ take k items) e
    ∙ append_assoc xs (item ∷ []) (take k items)
    ∙ ap (λ n. xs ++ take n (item ∷ items)) (sym f)

pub data Call {ℓ} (A : Type ℓ) : Type ℓ where
  produces : List A → Call A
  consumes : ℕ → Call A

pub data Answer {ℓ} (A : Type ℓ) : Type ℓ where
  produced : ℕ → Answer A
  consumed : List A → Answer A

-- The calls on a list of at most `capacity` items, oldest first.
unfoldable pub list_calls {ℓ} : {A : Type ℓ} → ℕ → List (Call A) → List A → List (Answer A)
list_calls capacity [] items = []
list_calls capacity (produces xs ∷ calls) items =
    let room = capacity - length items in
    produced (min (length xs) room) ∷ list_calls capacity calls (items ++ take room xs)
list_calls capacity (consumes size ∷ calls) items =
    consumed (take size items) ∷ list_calls capacity calls (drop size items)

nothing {ℓ} : {A : Type ℓ} (xs : List A) → length xs ≡ 0 → xs ≡ []
nothing [] h = refl
nothing (x ∷ xs) h = absurd (omega arith)

module _ {ℓ} {A : Type ℓ} (capacity : ℕ) (d : A) where
  pushes :
      (q : SpscQueue A) (x : A)
      → leb capacity (sub64 q.tail q.head) ≡ false
      → try_push capacity d q x ≡ (
        true,
        record q { buffer = set q.buffer (bit_and q.tail (capacity - 1)) x; tail = add64 q.tail 1 },
      )
  unfolding try_push
  pushes q x h = rw h refl

  pops :
      (q : SpscQueue A)
      → (q.head == q.tail) ≡ false
      → try_pop capacity d q ≡ (
        some (get_or q.buffer (bit_and q.head (capacity - 1)) d),
        record q { head = add64 q.head 1 },
      )
  unfolding try_pop
  pops q h = rw h refl

  enqueues :
      (xs : List A) (x : A) → length xs < capacity → enqueue capacity xs x ≡ (true, xs ++ x ∷ [])
  unfolding enqueue
  enqueues xs x h = rw (lt→leb capacity (length xs) h) refl

  dequeues : (xs : List A) (x : A) (ys : List A) → (some x, ys) ≡ dequeue xs → x ∷ ys ≡ xs
  unfolding dequeue
  dequeues [] x ys h = absurd (none-ne-some x (sym (ap (λ p. p.0) h)))
  dequeues (z ∷ xs) x ys h = ap₂ ◌∷◌ (some-injective x z (ap (λ p. p.0) h)) (ap (λ p. p.1) h)

  -- The queue with the ring's memory and counters.
  abbrev pub queue : SimulatedRing A → SpscQueue A
  queue r = record { buffer = r.buffer; head = r.consumer; tail = r.producer }

  abbrev pub items_of : SimulatedRing A → List A
  items_of r = contents capacity d (queue r)

  abbrev written : SimulatedRing A → A → SimulatedRing A
  written r item = record r {
    buffer = set r.buffer (bit_and r.producer (capacity - 1)) item;
    producer = add64 r.producer 1;
  }

  abbrev read : SimulatedRing A → SimulatedRing A
  read r = record r { consumer = add64 r.consumer 1 }

  size_lem : (r : SimulatedRing A) → length (items_of r) ≡ sub64 r.producer r.consumer
  unfolding size_approx
  size_lem r = length-contents capacity d (queue r)

  -- The room of the ring, and what it holds.
  room_lem :
      (r : SimulatedRing A)
      → IsValid capacity (queue r)
      → available_produce capacity d r ≡ capacity - length (items_of r)
  unfolding available_produce
  room_lem r v = omega (arith, size_lem r, v.bounded, v.word)

  more_lem : (r : SimulatedRing A) → ltb 0 (available_consume r) ≡ true → 0 < length (items_of r)
  unfolding available_consume
  more_lem r h = ground (arith, size_lem r)

  less_lem : (r : SimulatedRing A) → ltb 0 (available_consume r) ≡ false → length (items_of r) ≡ 0
  unfolding available_consume
  less_lem r h = ground (arith, size_lem r)

  -- A round with room is a push.
  write_round :
      (r : SimulatedRing A) (item : A)
      → IsValid capacity (queue r)
      → length (items_of r) < capacity
      → IsValid capacity (queue (written r item))
        × (items_of (written r item) ≡ items_of r ++ item ∷ [])
  write_round r item v room = (
    subst (λ p. IsValid capacity p.1) pushed (try_push-IsValid capacity d (queue r) item v),
    ap (λ p. contents capacity d p.1) (sym pushed)
        ∙ ap (λ p. p.1) (try_push_refines capacity d (queue r) item v ∙ queued),
  )
    where
      pushed : try_push capacity d (queue r) item ≡ (true, queue (written r item))
      pushed = pushes (queue r) item (ground (arith, size_lem r))

      queued : enqueue capacity (items_of r) item ≡ (true, items_of r ++ item ∷ [])
      queued = enqueues (items_of r) item room

  -- A round with elements is a pop.
  read_round :
      (r : SimulatedRing A)
      → IsValid capacity (queue r)
      → 0 < length (items_of r)
      → IsValid capacity (queue (read r))
        × (get_or r.buffer (bit_and r.consumer (capacity - 1)) d ∷ items_of (read r) ≡ items_of r)
  read_round r v some_left = (
    subst (λ p. IsValid capacity p.1) popped (try_pop-IsValid capacity d (queue r) v),
    dequeues (items_of r) _ (items_of (read r)) (
        ap (λ p. (p.0, contents capacity d p.1)) (sym popped)
        ∙ try_pop_refines capacity d (queue r) v),
  )
    where
      popped :
          try_pop capacity d (queue r)
          ≡ (some (get_or r.buffer (bit_and r.consumer (capacity - 1)) d), queue (read r))
      popped = pops (queue r) (ground (arith, size_lem r, v.head_word, v.tail_word))

  -- `produce` on a valid ring takes as many of the items as there is room for, from the first on, and
  -- appends them; the count it returns is that number, and the ring stays valid.
  pub produce_refines :
      (items : List A) (r : SimulatedRing A)
      → IsValid capacity (queue r)
      → let room = capacity - length (items_of r) in
        let (count, r') = produce capacity d r items in
        (count ≡ min (length items) room)
        × (items_of r' ≡ items_of r ++ take room items)
        × IsValid capacity (queue r')
  unfolding produce
  produce_refines [] r v =
      (omega arith, sym (append-nil_take (items_of r) (capacity - length (items_of r))), v)
  produce_refines (item ∷ items) r v = elim (Bool-cases (ltb 0 (available_produce capacity d r))) [
    | inl more ↦
        let room : length (items_of r) < capacity = ground (arith, room_lem r v) in
        let (w, grown) = write_round r item v room in
        let (count, left, valid) = produce_refines items (written r item) w in
        let one_more : length (items_of (written r item)) ≡ suc (length (items_of r)) =
          omega (arith, ap length grown, length-append (items_of r) (item ∷ [])) in
        rw (more, produce)
          (
            omega (arith, count, one_more),
            left
                ∙ append_taken (items_of r) (items_of (written r item)) items item _ _ grown
                    (omega (arith, one_more)),
            valid,
          )
    | inr full ↦
        let no_room : capacity - length (items_of r) ≡ 0 = ground (arith, room_lem r v) in
        rw (full, produce)
          (
            omega (arith, no_room),
            sym (ap (λ k. items_of r ++ take k (item ∷ items)) no_room ∙ append-nil (items_of r)),
            v,
          )
  ]

  -- `consume` on a valid ring into a span of a size writes as many of the oldest elements as fit, and
  -- leaves the others; the ring stays valid.
  pub consume_refines :
      (size : ℕ) (r : SimulatedRing A)
      → IsValid capacity (queue r)
      → let (items, r') = consume capacity d r size in
        (items ≡ take size (items_of r))
        × (items_of r' ≡ drop size (items_of r))
        × IsValid capacity (queue r')
  unfolding consume
  consume_refines zero r v = (refl, refl, v)
  consume_refines (suc size) r v = elim (Bool-cases (ltb 0 (available_consume r))) [
    | inl more ↦
        let (w, shrunk) = read_round r v (more_lem r more) in
        let (items, left, valid) = consume_refines size (read r) w in
        rw (more, consume, ← shrunk)
          (ap (◌∷◌ (get_or r.buffer (bit_and r.consumer (capacity - 1)) d)) items, left, valid)
    | inr empty ↦
        let none_left : items_of r ≡ [] = nothing (items_of r) (less_lem r empty) in
        rw (empty, consume, none_left) (refl, refl, v)
  ]

  unfoldable pub ring_calls : List (Call A) → SimulatedRing A → List (Answer A)
  unfolding produce consume
  ring_calls [] r = []
  ring_calls (produces items ∷ calls) r =
      let (count, r') = produce capacity d r items in produced count ∷ ring_calls calls r'
  ring_calls (consumes size ∷ calls) r =
      let (items, r') = consume capacity d r size in consumed items ∷ ring_calls calls r'

  calls_refine :
      (calls : List (Call A)) (r : SimulatedRing A)
      → IsValid capacity (queue r)
      → ring_calls calls r ≡ list_calls capacity calls (items_of r)
  unfolding ring_calls list_calls
  calls_refine [] r v = refl
  calls_refine (produces items ∷ calls) r v =
      let (count, left, w) = produce_refines items r v in
      ap₂ ◌∷◌ (ap produced count)
        (calls_refine calls (produce capacity d r items).1 w ∙ ap (list_calls capacity calls) left)
  calls_refine (consumes size ∷ calls) r v =
      let (items, left, w) = consume_refines size r v in
      ap₂ ◌∷◌ (ap consumed items)
        (calls_refine calls (consume capacity d r size).1 w ∙ ap (list_calls capacity calls) left)

  -- Any calls of `produce` and `consume` on a new ring, whose capacity is a power of two that fits its type,
  -- return what a list does to which `produce` appends the first of its items, as many as there is room for, and
  -- from which `consume` takes the oldest, as many as there are and fit its span; the counters may wrap.
  pub ring_calls_refine :
      (calls : List (Call A))
      → is_power_of_two capacity ≡ true
      → capacity < u64_mod
      → ring_calls calls (new_ring capacity d) ≡ list_calls capacity calls []
  unfolding new_ring init
  ring_calls_refine calls p w =
      calls_refine calls (new_ring capacity d) (init-IsValid capacity d p w)
