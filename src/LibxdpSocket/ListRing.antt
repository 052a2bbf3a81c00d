-- ===== src/LibxdpSocket/ListRing.antt =====
-- Rings of libxdp as lists: an instance of what is assumed of them.
use chronos_x.Base.{
  ℕ, zero, suc, ◌+◌, ◌-◌, ◌≡◌, ◌<◌, refl, ap, ◌∙◌, List, [], ◌∷◌, ◌++◌, arith, leb, ◌==◌,
  if◌then◌else◌, length, drop, get_or, min, u32, u32_mod,
}
use chronos_x.LibxdpSocket.{XskRings, read_loop}
use chronos_x.LibxdpSocket.Contract.{Producer, Consumer}

-- A ring of four entries: those that the kernel sees, and the memory of those reserved.
pub record ListRing : Type 0 where
  pub queue : List ℕ
  pub start : ℕ
  pub held : ℕ
  pub entry : ℕ → ℕ

abbrev pub room : ListRing → ℕ
room r = 4 - length r.queue

abbrev pub reserve : ListRing → ℕ → ℕ × ℕ × ListRing
reserve r n =
    let count = if leb n (room r) then n else 0 in (count, r.start, record r { held = count })

abbrev pub write : ListRing → ℕ → ℕ → ListRing
write r i e = record r { entry = λ j. if i == j then e else r.entry j }

abbrev pub submit : ListRing → ℕ → ListRing
submit r n = record r { queue = r.queue ++ read_loop (λ (s : ListRing). s.entry) r.start r n 0 }

-- A consumer ring is the list of what the kernel has put in.
abbrev pub peek : List ℕ → ℕ → ℕ × ℕ × List ℕ
peek r n = (min n (length r), 0, r)

abbrev pub rings : XskRings ListRing (List ℕ)
rings = record {
  reserve = reserve;
  submit = submit;
  write_fill_addr = write;
  write_tx_desc = λ r i d. write r i d.address;
  peek = peek;
  release = λ r n. drop n r;
  comp_addr = λ r i. get_or r i 0;
  rx_desc = λ r i. record { address = get_or r i 0; length = 60; options = 0 };
}

pub entry_written :
    (r : ListRing) (k j e : ℕ)
    → r.held < u32_mod
    → k < r.held
    → j < r.held
    → (if u32 (r.start + k) == u32 (r.start + j) then e else r.entry (u32 (r.start + j)))
      ≡ (if k == j then e else r.entry (u32 (r.start + j)))
entry_written r k j e small hk hj = ground (arith, small, hk, hj)

abbrev pub producer : Producer reserve submit write
producer = record {
  queue = λ r. r.queue;
  room = room;
  start = λ r. r.start;
  held = λ r. r.held;
  entry = λ r. r.entry;
  reserve_count = λ r n. refl;
  reserve_start = λ r n. refl;
  reserve_held = λ r n. refl;
  reserve_queue = λ r n. refl;
  write_queue = λ r i e. refl;
  write_start = λ r i e. refl;
  write_held = λ r i e. refl;
  write_entry = entry_written;
  submit_queue = λ r n h. refl;
}

same_element : (r : List ℕ) (k d : ℕ) → k < length r → get_or r k 0 ≡ get_or r k d
same_element [] k d h = absurd (omega arith)
same_element (x ∷ r) zero d h = refl
same_element (x ∷ r) (suc k) d h = same_element r k d (omega (arith, h))

pub element_read :
    (r : List ℕ) (n k d : ℕ)
    → n < u32_mod
    → k < min n (length r)
    → get_or r (u32 (0 + k)) 0 ≡ get_or r k d
element_read r n k d small h =
    ap (λ (i : ℕ). get_or r i 0) (let e : u32 (0 + k) ≡ k = omega (arith, small, h) in e)
    ∙ same_element r k d (omega (arith, h))

abbrev pub consumer : Consumer peek (λ r n. drop n r) (λ r i. get_or r i 0)
consumer = record {
  queue = λ r. r;
  peek_count = λ r n. refl;
  peek_queue = λ r n. refl;
  peek_entry = element_read;
  release_queue = λ r n h. refl;
}

abbrev pub ring : ListRing
ring = record { queue = 1 ∷ []; start = 4294967295; held = 0; entry = λ i. 0 }
