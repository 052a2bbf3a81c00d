-- ===== src/LibxdpSocket/Contract.antt =====
-- include/chronosx/libxdp_socket.hpp: what the documentation of libxdp says of a ring, with the content of a ring
-- as a list, oldest first.
use chronos_x.Base.{
  ℕ, zero, suc, ◌+◌, ◌<◌, ◌≤◌, ◌≡◌, refl, ap, ap₂, ◌∙◌, min, List, [], ◌∷◌, ◌++◌, arith, leb, ◌==◌,
  if◌then◌else◌, length, take, drop, get_or, u32, u32_mod,
}
use chronos_x.LibxdpSocket.{read_loop}

-- A producer ring: `queue` is what the kernel sees, `room` the free entries, and `start` and `held` the
-- entries reserved and not yet submitted. The index of an entry is a 32-bit word.
pub record Producer {P E : Type 0} (reserve : P → ℕ → ℕ × ℕ × P) (submit : P → ℕ → P)
    (write : P → ℕ → E → P) : Type 0 where
  pub queue : P → List E
  pub room : P → ℕ
  pub start : P → ℕ
  pub held : P → ℕ
  pub entry : P → ℕ → E
  -- All the entries that are asked for, or none.
  pub reserve_count : (r : P) (n : ℕ) → (reserve r n).0 ≡ (if leb n (room r) then n else 0)
  pub reserve_start : (r : P) (n : ℕ) → start (reserve r n).2 ≡ (reserve r n).1
  pub reserve_held : (r : P) (n : ℕ) → held (reserve r n).2 ≡ (reserve r n).0
  pub reserve_queue : (r : P) (n : ℕ) → queue (reserve r n).2 ≡ queue r
  pub write_queue : (r : P) (i : ℕ) (e : E) → queue (write r i e) ≡ queue r
  pub write_start : (r : P) (i : ℕ) (e : E) → start (write r i e) ≡ start r
  pub write_held : (r : P) (i : ℕ) (e : E) → held (write r i e) ≡ held r
  -- Reserved entries do not share memory.
  pub write_entry :
      (r : P) (k j : ℕ) (e : E)
      → held r < u32_mod
      → k < held r
      → j < held r
      → entry (write r (u32 (start r + k)) e) (u32 (start r + j))
        ≡ (if k == j then e else entry r (u32 (start r + j)))
  -- The first entries reserved become visible, in order.
  pub submit_queue :
      (r : P) (n : ℕ) → n ≤ held r → queue (submit r n) ≡ queue r ++ read_loop entry (start r) r n 0

-- A consumer ring: `queue` is what the kernel has put in and was not released yet.
pub record Consumer {C E : Type 0} (peek : C → ℕ → ℕ × ℕ × C) (release : C → ℕ → C)
    (read : C → ℕ → E) : Type 0 where
  pub queue : C → List E
  pub peek_count : (r : C) (n : ℕ) → (peek r n).0 ≡ min n (length (queue r))
  pub peek_queue : (r : C) (n : ℕ) → queue (peek r n).2 ≡ queue r
  pub peek_entry :
      (r : C) (n k : ℕ) (d : E)
      → n < u32_mod
      → k < (peek r n).0
      → read (peek r n).2 (u32 ((peek r n).1 + k)) ≡ get_or (queue r) k d
  pub release_queue :
      (r : C) (n : ℕ) → n ≤ length (queue r) → queue (release r n) ≡ drop n (queue r)

pub shifted :
    {E : Type 0} (f : ℕ → E) (x : E) (xs : List E) (offset : ℕ)
    → f offset ≡ x
    → ((k : ℕ) (d : E) → k < length xs → f (suc offset + k) ≡ get_or xs k d)
    → (k : ℕ) (d : E) → k < length (x ∷ xs)
    → f (offset + k) ≡ get_or (x ∷ xs) k d
shifted f x xs offset first rest zero d h = ap f (omega arith) ∙ first
shifted f x xs offset first rest (suc k) d h = ap f (omega arith) ∙ rest k d (omega (arith, h))

module _ {C E : Type 0} (read : C → ℕ → E) (index : ℕ) (ring : C) where
  -- A loop that meets the elements of a list reads its prefix.
  pub read_loop_lem :
      (n offset : ℕ) (items : List E)
      → n ≤ length items
      → ((k : ℕ) (d : E) → k < n → read ring (u32 (index + (offset + k))) ≡ get_or items k d)
      → read_loop read index ring n offset ≡ take n items
  unfolding read_loop
  read_loop_lem zero offset items h e = refl
  read_loop_lem (suc n) offset [] h e = absurd (omega (arith, h))
  read_loop_lem (suc n) offset (x ∷ items) h e =
      ap₂ ◌∷◌
        (ap (λ (i : ℕ). read ring (u32 (index + i)))
            (let f : offset ≡ offset + 0 = omega arith in f)
          ∙ e 0 x (omega arith))
        (read_loop_lem n (suc offset) items (omega (arith, h)) (λ k d lt.
          ap (λ (i : ℕ). read ring (u32 (index + i)))
            (let f : suc offset + k ≡ offset + suc k = omega arith in f)
          ∙ e (suc k) d (omega (arith, lt))))
