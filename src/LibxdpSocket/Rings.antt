-- ===== src/LibxdpSocket/Rings.antt =====
-- include/chronosx/libxdp_socket.hpp: the four calls that move descriptors, over rings that keep to libxdp's
-- documentation, with the content of a ring as a list, oldest first.
use mathlib.Core.List.{append-nil}
use chronos_x.Base.{
  ℕ, zero, suc, ◌+◌, ◌<◌, ◌≤◌, ◌≡◌, refl, sym, ap, ap₂, ◌∙◌, min, List, [], ◌∷◌, ◌++◌, arith, ltb,
  leb, ◌==◌, if◌then◌else◌, length, length-take, take, drop, get_or, u32, u32_mod, Bool-cases, inl,
  inr,
}
use chronos_x.SocketManager.{
  SocketStatus, BatchResult, result_of, ring_full_status, ring_empty_status,
}
use chronos_x.LibxdpSocket.{XskRings, write_loop, read_loop, send_to, take_from}
use chronos_x.LibxdpSocket.Contract.{Producer, Consumer, shifted, read_loop_lem}

module _ {P E : Type 0} {reserve : P → ℕ → ℕ × ℕ × P} {submit : P → ℕ → P} {write : P → ℕ → E → P}
    (laws : Producer reserve submit write) where
  -- Behind the writes to the positions from `offset` on.
  record Written (xs : List E) (index offset : ℕ) (r r' : P) : Type 0 where
    same_queue : laws.queue r' ≡ laws.queue r
    same_start : laws.start r' ≡ laws.start r
    same_held : laws.held r' ≡ laws.held r
    kept : (j : ℕ) → j < offset → laws.entry r' (u32 (index + j)) ≡ laws.entry r (u32 (index + j))
    set :
        (k : ℕ) (d : E) → k < length xs → laws.entry r' (u32 (index + (offset + k))) ≡ get_or xs k d

  write_loop-Written :
      (xs : List E) (offset : ℕ) (r : P) (index : ℕ)
      → laws.start r ≡ index
      → laws.held r < u32_mod
      → offset + length xs ≤ laws.held r
      → Written xs index offset r (write_loop write index xs offset r)
  unfolding write_loop
  write_loop-Written [] offset r index i small h = record {
    same_queue = refl;
    same_start = refl;
    same_held = refl;
    kept = λ j lt. refl;
    set = λ k d lt. absurd (omega (arith, lt));
  }
  write_loop-Written (x ∷ xs) offset r index i small h =
      let at : ℕ = u32 (index + offset) in
      let r' = write r at x in
      let start_same = laws.write_start r at x in
      let held_same = laws.write_held r at x in
      let after = write_loop write index xs (suc offset) r' in
      let rest =
        write_loop-Written xs (suc offset) r' index (start_same ∙ i)
          (omega (arith, small, held_same)) (omega (arith, h, held_same)) in
      let entry_after : (j : ℕ)
          → j < laws.held r
          → laws.entry r' (u32 (index + j))
            ≡ (if offset == j then x else laws.entry r (u32 (index + j))) =
        λ j lt. rw (← i) (laws.write_entry r offset j x small (omega (arith, h)) lt) in
      record {
        same_queue = rest.same_queue ∙ laws.write_queue r at x;
        same_start = rest.same_start ∙ start_same;
        same_held = rest.same_held ∙ held_same;
        kept = λ j lt.
            rest.kept j (omega (arith, lt))
            ∙ entry_after j (omega (arith, lt, h))
            ∙ ground (arith, lt);
        set =
            shifted (λ m. laws.entry after (u32 (index + m))) x xs offset
              (rest.kept offset (omega arith)
                ∙ entry_after offset (omega (arith, h))
                ∙ ground arith)
              rest.set;
      }

take_all {ℓ} : {E : Type ℓ} (xs : List E) → take (length xs) xs ≡ xs
take_all [] = refl
take_all (x ∷ xs) = ap (λ l. x ∷ l) (take_all xs)

take-min {ℓ} : {E : Type ℓ} (n : ℕ) (xs : List E) → take (min n (length xs)) xs ≡ take n xs
take-min zero xs = ap (λ m. take m xs) (let e : min 0 (length xs) ≡ 0 = omega arith in e)
take-min (suc n) [] = ap (λ m. take m []) (let e : min (suc n) 0 ≡ 0 = omega arith in e)
take-min (suc n) (x ∷ xs) =
    ap (λ m. take m (x ∷ xs))
      (let e : min (suc n) (suc (length xs)) ≡ suc (min n (length xs)) = omega arith in e)
    ∙ ap (λ l. x ∷ l) (take-min n xs)

drop-min {ℓ} : {E : Type ℓ} (n : ℕ) (xs : List E) → drop (min n (length xs)) xs ≡ drop n xs
drop-min zero xs = ap (λ m. drop m xs) (let e : min 0 (length xs) ≡ 0 = omega arith in e)
drop-min (suc n) [] = ap (λ m. drop m []) (let e : min (suc n) 0 ≡ 0 = omega arith in e)
drop-min (suc n) (x ∷ xs) =
    ap (λ m. drop m (x ∷ xs))
      (let e : min (suc n) (suc (length xs)) ≡ suc (min n (length xs)) = omega arith in e)
    ∙ drop-min n xs

none_of {ℓ} : {E : Type ℓ} (xs : List E) → length xs ≡ 0 → xs ≡ []
none_of [] h = refl
none_of (x ∷ xs) h = absurd (omega (arith, h))

module _ {P C E : Type 0} (rings : XskRings P C) {write : P → ℕ → E → P}
    (laws : Producer rings.reserve rings.submit write) where
  -- All of the items are put behind the queue, or none.
  pub record Sent (items : List E) (before : P) (result : BatchResult) (after : P) : Type 0 where
    pub queue :
        laws.queue after
        ≡ laws.queue before ++ (if leb (length items) (laws.room before) then items else [])
    pub count : result.count ≡ (if leb (length items) (laws.room before) then length items else 0)
    pub status :
        result.status
        ≡ (if leb (length items) (laws.room before) then SocketStatus.ok else ring_full_status)

  -- A reservation of the size of the items, filled and submitted.
  submit_written :
      (items : List E) (r : P) (index : ℕ)
      → laws.start r ≡ index
      → laws.held r ≡ length items
      → length items < u32_mod
      → laws.queue (rings.submit (write_loop write index items 0 r) (length items))
        ≡ laws.queue r ++ items
  submit_written items r index i h small =
      let w =
        write_loop-Written laws items 0 r index i (omega (arith, h, small)) (omega (arith, h)) in
      let after = write_loop write index items 0 r in
      let read = read_loop_lem laws.entry index after (length items) 0 items (omega arith) w.set in
      laws.submit_queue after (length items) (omega (arith, w.same_held, h))
      ∙ ap₂ ◌++◌ w.same_queue (rw (w.same_start, i) (read ∙ take_all items))

  -- Over a producer ring that keeps to the documentation, with fewer than 2 ^ 32 items: `refill` and
  -- `submit_tx` put all of them behind those that the ring shows, in order, if it has room for all,
  -- and none otherwise, even where some would fit; the count is theirs, and the status is ok exactly if they were put.
  pub send_to-Sent :
      (items : List E) (r : P)
      → length items < u32_mod
      → let (result, r') = send_to rings write items r in Sent items r result r'
  unfolding send_to result_of write_loop
  send_to-Sent items r small =
      let n : ℕ = length items in
      let word : u32 n ≡ n = omega (arith, small) in
      let (reserved, index, r') = rings.reserve r n in
      elim (Bool-cases (leb n (laws.room r))) [
        | inl fits ↦
            let all : reserved ≡ n = ground (arith, laws.reserve_count r n, fits) in
            let starts = laws.reserve_start r n in
            let filled =
              submit_written items r' index starts (laws.reserve_held r n ∙ all) small
              ∙ ap (λ q. q ++ items) (laws.reserve_queue r n) in
            elim (Bool-cases (ltb 0 n)) [
              | inl some_items ↦
                  rw (word, all, take_all items, some_items)
                    (record {
                      queue = rw fits filled;
                      count = rw fits refl;
                      status = ground (arith, fits);
                    })
              | inr no_items ↦
                  let e : items ≡ [] = none_of items (ground (arith, no_items)) in
                  rw (word, all, take_all items, no_items)
                    (record {
                      queue =
                          rw fits (rw e (laws.reserve_queue r 0 ∙ sym (append-nil (laws.queue r))));
                      count = rw fits refl;
                      status = ground (arith, fits);
                    })
            ]
        | inr full ↦
            let nothing : reserved ≡ 0 = ground (arith, laws.reserve_count r n, full) in
            rw (word, nothing)
              (record {
                queue = rw full (laws.reserve_queue r n ∙ sym (append-nil (laws.queue r)));
                count = rw full refl;
                status = ground (arith, full);
              })
      ]

module _ {P C E : Type 0} (rings : XskRings P C) {read : C → ℕ → E}
    (laws : Consumer rings.peek rings.release read) where
  -- The oldest elements, as many as the span holds, are taken out.
  pub record Taken (size : ℕ) (before : C) (result : BatchResult) (output : List E) (after : C)
      : Type 0 where
    pub elements : output ≡ take size (laws.queue before)
    pub queue : laws.queue after ≡ drop size (laws.queue before)
    pub count : result.count ≡ length output
    pub status :
        result.status
        ≡ (if leb size (length (laws.queue before)) then SocketStatus.ok else ring_empty_status)

  released :
      (size : ℕ) (r : C)
      → let (available, _, r') = rings.peek r size in
        laws.queue (if ltb 0 available then rings.release r' available else r')
        ≡ drop size (laws.queue r)
  released size r =
      let (available, _, r') = rings.peek r size in
      let count = laws.peek_count r size in
      let same = laws.peek_queue r size in
      let all : drop available (laws.queue r) ≡ drop size (laws.queue r) =
        ap (λ (m : ℕ). drop m (laws.queue r)) count ∙ drop-min size (laws.queue r) in
      elim (Bool-cases (ltb 0 available)) [
        | inl more ↦ rw more (
            laws.release_queue r' available (omega (arith, count, ap length same))
            ∙ ap (drop available) same
            ∙ all)
        | inr none_left ↦ rw none_left (
            same
            ∙ ap (λ (m : ℕ). drop m (laws.queue r))
                (let e : 0 ≡ available = ground (arith, none_left) in e)
            ∙ all)
      ]

  -- Over a consumer ring that keeps to the documentation and a span of fewer than 2 ^ 32 places:
  -- `drain_completions` and `consume_rx` take the oldest elements, as many as the span has places or as
  -- there are, in order, each out of the ring once, and the status is ok exactly if the span is full.
  pub take_from-Taken :
      (size : ℕ) (r : C)
      → size < u32_mod
      → let (result, output, r') = take_from rings read size r in Taken size r result output r'
  unfolding take_from result_of
  take_from-Taken size r small =
      let word : u32 size ≡ size = omega (arith, small) in
      let (available, index, r') = rings.peek r size in
      let n : ℕ = min size (length (laws.queue r)) in
      let count = laws.peek_count r size in
      let got : read_loop read index r' available 0 ≡ take available (laws.queue r) =
        read_loop_lem read index r' available 0 (laws.queue r) (omega (arith, count)) (λ k d lt.
          ap (λ (i : ℕ). read r' (u32 (index + i))) (let e : 0 + k ≡ k = omega arith in e)
          ∙ laws.peek_entry r size k d small lt) in
      let elements =
        got ∙ ap (λ (m : ℕ). take m (laws.queue r)) count ∙ take-min size (laws.queue r) in
      record {
        elements = rw word elements;
        queue = rw word (released size r);
        count =
            rw word
              (sym (ap length got ∙ length-take available (laws.queue r) ∙ omega (arith, count)));
        status = rw word (ground (arith, count));
      }
