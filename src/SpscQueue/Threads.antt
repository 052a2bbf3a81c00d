-- ===== src/SpscQueue/Threads.antt =====
-- spsc_queue.hpp with its two threads: each access to shared memory is a step of its own. The
-- atomics hold `u64 head` and `u64 tail`, where `head` and `tail` count all pops and pushes. A load
-- of the other thread's counter may be out of date: it returns any value stored so far that is not
-- older than the last one seen (acquire and release order the buffer accesses with the stores).
pub mod Invariant
pub mod Safety
pub mod Solo
use chronos_x.Base.{
  ℕ, suc, ◌-◌, ◌≤◌, ◌≡◌, true, false, List, [], ◌∷◌, ◌++◌, bit_and, u64, sub64, leb, ◌==◌, get_or,
  set, replicate,
}
use chronos_x.SpscQueue.{SpscQueue, index_mask}

-- `try_push`: before it, between the loads and the write, and between the write and the store.
pub data Producer {ℓ} (A : Type ℓ) : Type ℓ where
  ready : Producer A
  loaded : A → ℕ → Producer A
  written : A → Producer A

-- `try_pop`, likewise.
pub data Consumer {ℓ} (A : Type ℓ) : Type ℓ where
  ready : Consumer A
  loaded : ℕ → Consumer A
  taken : A → Consumer A

pub record System {ℓ} (A : Type ℓ) : Type ℓ where
  pub buffer : List A
  pub head : ℕ
  pub tail : ℕ
  pub producer : Producer A
  pub consumer : Consumer A
  pub seen_head : ℕ
  pub seen_tail : ℕ
  pub sent : List A
  pub received : List A

-- What the memory holds: the buffer and the two words.
abbrev pub memory {ℓ} : {A : Type ℓ} → System A → SpscQueue A
memory s = record { buffer = s.buffer; head = u64 s.head; tail = u64 s.tail }

module _ {ℓ} {A : Type ℓ} (capacity : ℕ) (d : A) where
  abbrev pub start : System A
  start = record {
    buffer = replicate capacity d;
    head = 0;
    tail = 0;
    producer = Producer.ready;
    consumer = Consumer.ready;
    seen_head = 0;
    seen_tail = 0;
    sent = [];
    received = [];
  }

  pub data Step (s : System A) : System A → Type ℓ where
    push_load :
        (x : A) (h : ℕ)
        → s.producer ≡ Producer.ready
        → s.seen_head ≤ h
        → h ≤ s.head
        → Step s (record s { producer = Producer.loaded x h; seen_head = h })
    push_full :
        (x : A) (h : ℕ)
        → s.producer ≡ Producer.loaded x h
        → leb capacity (sub64 (u64 s.tail) (u64 h)) ≡ true
        → Step s (record s { producer = Producer.ready })
    push_write :
        (x : A) (h : ℕ)
        → s.producer ≡ Producer.loaded x h
        → leb capacity (sub64 (u64 s.tail) (u64 h)) ≡ false
        → Step s (record s {
          buffer = set s.buffer (bit_and (u64 s.tail) (index_mask capacity)) x;
          producer = Producer.written x;
        })
    push_store :
        (x : A)
        → s.producer ≡ Producer.written x
        → Step s
            (record s { tail = suc s.tail; producer = Producer.ready; sent = s.sent ++ x ∷ [] })
    pop_load :
        (t : ℕ)
        → s.consumer ≡ Consumer.ready
        → s.seen_tail ≤ t
        → t ≤ s.tail
        → Step s (record s { consumer = Consumer.loaded t; seen_tail = t })
    pop_empty :
        (t : ℕ)
        → s.consumer ≡ Consumer.loaded t
        → (u64 s.head == u64 t) ≡ true
        → Step s (record s { consumer = Consumer.ready })
    pop_read :
        (t : ℕ)
        → s.consumer ≡ Consumer.loaded t
        → (u64 s.head == u64 t) ≡ false
        → Step s (record s {
          consumer =
              Consumer.taken (get_or s.buffer (bit_and (u64 s.head) (index_mask capacity)) d);
        })
    pop_store :
        (x : A)
        → s.consumer ≡ Consumer.taken x
        → Step s (record s {
          head = suc s.head;
          consumer = Consumer.ready;
          received = s.received ++ x ∷ [];
        })

  pub data Reach (s : System A) : System A → Type ℓ where
    here : Reach s s
    next : {t u : System A} → Reach s t → Step t u → Reach s u
