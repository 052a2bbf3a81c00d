-- ===== src/Umem/Macs.antt =====
-- include/chronosx/data_plane.hpp: the exchange of the two Ethernet addresses.
use chronos_x.Base.{
  ℕ, zero, suc, ◌+◌, ◌-◌, ◌<◌, ◌≤◌, ◌≡◌, refl, ap, ◌∙◌, true, ◌&&◌, List, arith, length, set,
  get_or, if◌then◌else◌, ltb, leb, ◌==◌, length-set, get_or-set, get_or_ext, ◌⊎◌,
}
use chronos_x.Umem.{swap_bytes, swap_loop, swap_ethernet_macs}

get_or-swap_bytes :
    (start k : ℕ) (rs : List ℕ) (i : ℕ)
    → start + (k + 6) < length rs
    → get_or (swap_bytes start k rs) i 0 ≡ (
        if i == start + k
        then get_or rs (start + (k + 6)) 0
        else if i == start + (k + 6)
        then get_or rs (start + k) 0
        else get_or rs i 0)
get_or-swap_bytes start k rs i h = ground (
  arith,
  get_or-set (set rs (start + k) (get_or rs (start + (k + 6)) 0)) (start + (k + 6)) i
      (get_or rs (start + k) 0) 0,
  get_or-set rs (start + k) i (get_or rs (start + (k + 6)) 0) 0,
  length-set rs (start + k) (get_or rs (start + (k + 6)) 0),
)

length-swap_bytes : (start k : ℕ) (rs : List ℕ) → length (swap_bytes start k rs) ≡ length rs
length-swap_bytes start k rs =
    length-set _ (start + (k + 6)) (get_or rs (start + k) 0)
    ∙ length-set rs (start + k) (get_or rs (start + (k + 6)) 0)

length-swap_loop : (n k start : ℕ) (rs : List ℕ) → length (swap_loop n k start rs) ≡ length rs
unfolding swap_loop
length-swap_loop zero k start rs = refl
length-swap_loop (suc n) k start rs =
    length-swap_loop n (suc k) start (swap_bytes start k rs) ∙ length-swap_bytes start k rs

-- Byte `i` after the exchange of bytes `k` to `k + n` of the first address with those of the second.
abbrev exchanged : ℕ → ℕ → ℕ → List ℕ → ℕ → ℕ
exchanged n k start rs i =
    if leb (start + k) i && ltb i (start + k + n)
    then get_or rs (i + 6) 0
    else if leb (start + k + 6) i && ltb i (start + k + n + 6)
    then get_or rs (i - 6) 0
    else get_or rs i 0

get_or-swap_loop :
    (n k start : ℕ) (rs : List ℕ) (i : ℕ)
    → k + n ≤ 6
    → start + 12 ≤ length rs
    → get_or (swap_loop n k start rs) i 0 ≡ exchanged n k start rs i
unfolding swap_loop
get_or-swap_loop zero k start rs i h l = ground arith
get_or-swap_loop (suc n) k start rs i h l = ground (
  arith,
  get_or-swap_loop n (suc k) start (swap_bytes start k rs) i,
  length-swap_bytes start k rs,
  get_or-swap_bytes start k rs i,
  get_or-swap_bytes start k rs (i + 6),
  get_or-swap_bytes start k rs (i - 6),
)

swapped :
    (start size : ℕ) (umem : List ℕ)
    → 14 ≤ size
    → swap_ethernet_macs start size umem ≡ (true, swap_loop 6 0 start umem)
unfolding swap_ethernet_macs
swapped start size umem h = ground arith

swap_loop_twice :
    (start : ℕ) (umem : List ℕ)
    → start + 12 ≤ length umem
    → swap_loop 6 0 start (swap_loop 6 0 start umem) ≡ umem
swap_loop_twice start umem h =
    get_or_ext 0 _ _
      (length-swap_loop 6 0 start (swap_loop 6 0 start umem) ∙ length-swap_loop 6 0 start umem)
      (λ i lt. ground (
        arith,
        get_or-swap_loop 6 0 start (swap_loop 6 0 start umem) i (omega arith)
            (omega (arith, length-swap_loop 6 0 start umem)),
        get_or-swap_loop 6 0 start umem i (omega arith) h,
        get_or-swap_loop 6 0 start umem (i + 6) (omega arith) h,
        get_or-swap_loop 6 0 start umem (i - 6) (omega arith) h,
      ))

-- For a frame of 14 bytes or more at `start` that lies in UMEM, `swap_ethernet_macs` answers true, exchanges the six bytes of the destination
-- address with those of the source address, in order, leaves every other byte of UMEM as it was, and undoes itself.
pub swap_ethernet_macs_exchanges :
    (start size : ℕ) (umem : List ℕ)
    → 14 ≤ size
    → start + size ≤ length umem
    → let (answer, out) = swap_ethernet_macs start size umem in
      (answer ≡ true)
      × ((i : ℕ) → i < 6 → get_or out (start + i) 0 ≡ get_or umem (start + (i + 6)) 0)
      × ((i : ℕ) → i < 6 → get_or out (start + (i + 6)) 0 ≡ get_or umem (start + i) 0)
      × ((i : ℕ) → (i < start) ⊎ (start + 12 ≤ i) → get_or out i 0 ≡ get_or umem i 0)
      × ((swap_ethernet_macs start size out).1 ≡ umem)
swap_ethernet_macs_exchanges start size umem h inside =
    rw (swapped start size umem h, swapped start size (swap_loop 6 0 start umem) h)
      (
        refl,
        (λ i lt.
            get_or-swap_loop 6 0 start umem (start + i) (omega arith) (omega arith)
            ∙ ground (arith, ap (λ t. get_or umem t 0) (shift i))),
        (λ i lt.
            get_or-swap_loop 6 0 start umem (start + (i + 6)) (omega arith) (omega arith)
            ∙ ground (arith, ap (λ t. get_or umem t 0) (back i))),
        (λ i out. get_or-swap_loop 6 0 start umem i (omega arith) (omega arith) ∙ ground arith),
        swap_loop_twice start umem (omega arith),
      )
  where
    shift : (i : ℕ) → start + i + 6 ≡ start + (i + 6)
    shift i = omega arith

    back : (i : ℕ) → start + (i + 6) - 6 ≡ start + i
    back i = omega arith
