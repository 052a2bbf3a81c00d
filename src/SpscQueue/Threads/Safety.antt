-- ===== src/SpscQueue/Threads/Safety.antt =====
-- What holds in every state that the two threads can reach, in any interleaving.
use native.Mathlib.Nat.{mod-lt}
use mathlib.Core.List.{append_assoc}
use chronos_x.Base.{
  ℕ, suc, ◌+◌, ◌-◌, ◌%◌, ◌≤◌, ◌<◌, ◌≡◌, ◌≢◌, refl, ap, ap₂, sym, ◌∙◌, true, false, [], ◌∷◌, ◌++◌,
  arith, bit_and, u64, sub64, u64_mod, leb, ◌==◌, length, length-set, length-replicate, get_or, set,
  get_or-set_self, get_or-set_ne,
}
use chronos_x.Types.{is_power_of_two}
use chronos_x.Types.PowerOfTwo.{bit_and_capacity, capacity_pos, u64-mod_capacity}
use chronos_x.Window.{window, length-window, window_of_ne_zero, window-set, window_last, add-mod-ne}
use chronos_x.SpscQueue.{index_mask}
use chronos_x.SpscQueue.Threads.{Producer, Consumer, System, start, Step, Reach, here, next}
use chronos_x.SpscQueue.Threads.{push_load, push_full, push_write, push_store}
use chronos_x.SpscQueue.Threads.{pop_load, pop_empty, pop_read, pop_store}
use chronos_x.SpscQueue.Threads.Invariant.{Inv}

module _ {ℓ} {A : Type ℓ} (capacity : ℕ) (d : A) where
  start-Inv : Inv capacity d (start capacity d)
  start-Inv = record {
    storage = length-replicate capacity d;
    head_seen = omega arith;
    seen_tail_le = omega arith;
    seen_head_le = omega arith;
    room = omega arith;
    fifo = refl;
    loaded_head = λ x h e. cc;
    written_room = λ x e. cc;
    written_slot = λ x e. cc;
    loaded_tail = λ t e. cc;
    taken_more = λ x e. cc;
    taken_slot = λ x e. cc;
  }

  -- The words of two counters less than a word apart differ by the counters' difference.
  word_gap : (a b : ℕ) → b ≤ a → a < b + u64_mod → sub64 (u64 a) (u64 b) ≡ a - b
  word_gap a b p q = omega arith

  -- A push in progress has seen room, and the slot that it writes is not held by the reader.
  passed :
      (s : System A) (x : A) (h : ℕ)
      → capacity < u64_mod
      → Inv capacity d s
      → s.producer ≡ Producer.loaded x h
      → leb capacity (sub64 (u64 s.tail) (u64 h)) ≡ false
      → s.tail < s.seen_head + capacity
  passed s x h w v e f = ground (arith, v.loaded_head x h e, word_gap s.tail h)

  -- A pop in progress has seen an element.
  has_element :
      (s : System A) (t : ℕ)
      → capacity < u64_mod
      → Inv capacity d s
      → s.consumer ≡ Consumer.loaded t
      → (u64 s.head == u64 t) ≡ false
      → s.head < s.seen_tail
  has_element s t w v e f = ground (arith, v.loaded_tail t e)

  module _ (power : is_power_of_two capacity ≡ true) (word : capacity < u64_mod) where
    slot : (x : ℕ) → bit_and (u64 x) (index_mask capacity) ≡ x % capacity
    slot x = bit_and_capacity capacity (u64 x) power ∙ u64-mod_capacity capacity x power word

    slot-lt : (s : System A) (x : ℕ) → Inv capacity d s → x % capacity < length s.buffer
    slot-lt s x v = rw v.storage (mod-lt x (capacity_pos capacity power))

    push_write-Inv :
        (s : System A) (x : A) (h : ℕ)
        → s.producer ≡ Producer.loaded x h
        → leb capacity (sub64 (u64 s.tail) (u64 h)) ≡ false
        → Inv capacity d s
        → Inv capacity d (record s {
          buffer = set s.buffer (bit_and (u64 s.tail) (index_mask capacity)) x;
          producer = Producer.written x;
        })
    push_write-Inv s x h e f v = record {
      storage = length-set s.buffer _ x ∙ v.storage;
      head_seen = v.head_seen;
      seen_tail_le = v.seen_tail_le;
      seen_head_le = v.seen_head_le;
      room = v.room;
      fifo = v.fifo ∙ ap (◌++◌ s.received) (sym kept);
      loaded_head = λ y g c. cc;
      written_room = λ y c. free;
      written_slot = λ y c. cc wrote;
      loaded_tail = v.loaded_tail;
      taken_more = v.taken_more;
      taken_slot = λ y c. untouched (omega (arith, v.taken_more y c)) ∙ v.taken_slot y c;
    }
      where
        free : s.tail < s.seen_head + capacity
        free = passed s x h word v e f

        open v use {head_seen, seen_tail_le, seen_head_le}

        wrote :
            get_or
              (set s.buffer (bit_and (u64 s.tail) (index_mask capacity)) x)
              (s.tail % capacity)
              d
            ≡ x
        wrote =
            rw (slot s.tail) (get_or-set_self s.buffer (s.tail % capacity) x d (slot-lt s s.tail v))

        untouched :
            s.head < s.tail
            → get_or
                (set s.buffer (bit_and (u64 s.tail) (index_mask capacity)) x)
                (s.head % capacity)
                d
              ≡ get_or s.buffer (s.head % capacity) d
        untouched lt = get_or-set_ne s.buffer _ (s.head % capacity) x d λ same.
            add-mod-ne capacity s.head (s.tail - s.head) (omega arith) (omega (arith, free))
              (ap (λ t. t % capacity) (omega arith) ∙ sym (slot s.tail) ∙ same)

        kept :
            window d
              (set s.buffer (bit_and (u64 s.tail) (index_mask capacity)) x)
              capacity
              s.head
              (s.tail - s.head)
            ≡ window d s.buffer capacity s.head (s.tail - s.head)
        kept =
            window-set d s.buffer capacity s.head (s.tail - s.head) (s.tail - s.head)
              (bit_and (u64 s.tail) (index_mask capacity)) x (omega arith) (omega (arith, free))
              (slot s.tail ∙ ap (λ t. t % capacity) (omega arith))

    push_store-Inv :
        (s : System A) (x : A)
        → s.producer ≡ Producer.written x
        → Inv capacity d s
        → Inv capacity d
            (record s { tail = suc s.tail; producer = Producer.ready; sent = s.sent ++ x ∷ [] })
    push_store-Inv s x e v = record {
      storage = v.storage;
      head_seen = v.head_seen;
      seen_tail_le = omega (arith, v.seen_tail_le);
      seen_head_le = v.seen_head_le;
      room = omega (arith, v.written_room x e);
      fifo = extended;
      loaded_head = λ y g c. cc;
      written_room = λ y c. cc;
      written_slot = λ y c. cc;
      loaded_tail = v.loaded_tail;
      taken_more = v.taken_more;
      taken_slot = v.taken_slot;
    }
      where
        open v use {head_seen, seen_tail_le}

        grown :
            window d s.buffer capacity s.head (suc s.tail - s.head)
            ≡ window d s.buffer capacity s.head (s.tail - s.head) ++ x ∷ []
        grown =
            ap (window d s.buffer capacity s.head) {y = suc (s.tail - s.head)} (omega arith)
            ∙ window_last d s.buffer capacity s.head (s.tail - s.head)
            ∙ ap (λ y. window d s.buffer capacity s.head (s.tail - s.head) ++ y ∷ [])
                (ap (λ t. get_or s.buffer (t % capacity) d) (omega arith) ∙ v.written_slot x e)

        extended :
            s.sent ++ x ∷ [] ≡ s.received ++ window d s.buffer capacity s.head (suc s.tail - s.head)
        extended =
            ap (λ l. l ++ x ∷ []) v.fifo
            ∙ append_assoc s.received (window d s.buffer capacity s.head (s.tail - s.head)) (x ∷ [])
            ∙ ap (◌++◌ s.received) (sym grown)

    pop_store-Inv :
        (s : System A) (x : A)
        → s.consumer ≡ Consumer.taken x
        → Inv capacity d s
        → Inv capacity d (record s {
          head = suc s.head;
          consumer = Consumer.ready;
          received = s.received ++ x ∷ [];
        })
    pop_store-Inv s x e v = record {
      storage = v.storage;
      head_seen = v.taken_more x e;
      seen_tail_le = v.seen_tail_le;
      seen_head_le = omega (arith, v.seen_head_le);
      room = v.room;
      fifo = v.fifo ∙ ap (◌++◌ s.received) split ∙ sym (append_assoc s.received (x ∷ []) _);
      loaded_head = v.loaded_head;
      written_room = v.written_room;
      written_slot = v.written_slot;
      loaded_tail = λ t c. cc;
      taken_more = λ y c. cc;
      taken_slot = λ y c. cc;
    }
      where
        open v use {seen_tail_le}

        split :
            window d s.buffer capacity s.head (s.tail - s.head)
            ≡ x ∷ window d s.buffer capacity (suc s.head) (s.tail - suc s.head)
        split =
            window_of_ne_zero d s.buffer capacity s.head (s.tail - s.head)
              (omega (arith, v.taken_more x e))
            ∙ ap₂ ◌∷◌ (v.taken_slot x e)
                (ap (window d s.buffer capacity (suc s.head)) (omega arith))

    Step-Inv : {s t : System A} → Step capacity d s t → Inv capacity d s → Inv capacity d t
    Step-Inv (push_load x h e p q) v = ground arith
    Step-Inv (push_full x h e f) v = ground arith
    Step-Inv {s} (push_write x h e f) v = push_write-Inv s x h e f v
    Step-Inv {s} (push_store x e) v = push_store-Inv s x e v
    Step-Inv (pop_load t e p q) v = ground arith
    Step-Inv (pop_empty t e f) v = ground arith
    Step-Inv {s} (pop_read t e f) v = ground (arith, slot s.head, has_element s t word v e f)
    Step-Inv {s} (pop_store x e) v = pop_store-Inv s x e v

    Reach-Inv : {s : System A} → Reach capacity d (start capacity d) s → Inv capacity d s
    Reach-Inv here = start-Inv
    Reach-Inv (next r st) = Step-Inv st (Reach-Inv r)

    -- For a capacity that is a power of two below 2 ^ 64: in every reachable state, what the consumer has received, followed by what the ring holds, is
    -- what the producer has sent, and the ring holds at most `capacity` elements.
    pub Reach-fifo :
        {s : System A}
        → Reach capacity d (start capacity d) s
        → (s.sent ≡ s.received ++ window d s.buffer capacity s.head (s.tail - s.head))
          × (length (window d s.buffer capacity s.head (s.tail - s.head)) ≤ capacity)
    Reach-fifo {s} r = (
      v.fifo,
      rw (length-window d s.buffer capacity s.head (s.tail - s.head))
          (omega (arith, v.room, v.seen_head_le)),
    )
      where
        v : Inv capacity d s
        v = Reach-Inv r

    -- For a capacity that is a power of two below 2 ^ 64: in a reachable state where the producer has passed its test and is about to write, and the
    -- consumer has passed its test and is about to read, they are at different slots.
    pub no_race :
        {s : System A} (x : A) (h t : ℕ)
        → Reach capacity d (start capacity d) s
        → s.producer ≡ Producer.loaded x h
        → leb capacity (sub64 (u64 s.tail) (u64 h)) ≡ false
        → s.consumer ≡ Consumer.loaded t
        → (u64 s.head == u64 t) ≡ false
        → bit_and (u64 s.tail) (index_mask capacity) ≢ bit_and (u64 s.head) (index_mask capacity)
    no_race {s} x h t r e f g k = λ same.
        add-mod-ne capacity s.head (s.tail - s.head) (omega (arith, more, v.seen_tail_le))
          (omega (arith, free, v.seen_head_le, v.seen_tail_le, more))
          (ap (λ n. n % capacity) (omega (arith, more, v.seen_tail_le))
            ∙ sym (slot s.tail)
            ∙ same
            ∙ slot s.head)
      where
        v : Inv capacity d s
        v = Reach-Inv r

        free : s.tail < s.seen_head + capacity
        free = passed s x h word v e f

        more : s.head < s.seen_tail
        more = has_element s t word v g k
