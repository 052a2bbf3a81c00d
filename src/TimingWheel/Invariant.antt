-- ===== src/TimingWheel/Invariant.antt =====
-- What holds of a timing wheel between calls: the arrays have their sizes, each slot holds frames
-- due at ticks of its own within one turn of the wheel, and `pending_count_` counts all of them.
use native.Mathlib.Nat.{mod-lt}
use chronos_x.Base.{
  ℕ, zero, suc, ◌+◌, ◌%◌, ◌≤◌, ◌<◌, ◌≡◌, ◌≢◌, refl, sym, true, List, [], ◌∷◌, arith, u64, length,
  take, set, get_or, replicate, All, get_or-set_self, get_or-set_ne, ℕ_discrete, length-set,
  length-replicate, get_or-replicate,
}
use chronos_x.Types.{is_power_of_two}
use chronos_x.Types.PowerOfTwo.{bit_and_capacity, capacity_pos}
use chronos_x.TimingWheel.{DelayedFrame, Slot, TimingWheel, empty_slot, init, slot_index, slot_at}

-- The frames that all slots hold.
pub total : List Slot → ℕ
total [] = 0
total (s ∷ slots) = s.count + total slots

pub total-set :
    (slots : List Slot) (i : ℕ) (s d : Slot)
    → i < length slots
    → total (set slots i s) + (get_or slots i d).count ≡ total slots + s.count
unfolding total
total-set [] i s d h = absurd (omega arith)
total-set (x ∷ slots) zero s d h = omega arith
total-set (x ∷ slots) (suc i) s d h = omega (arith, total-set slots i s d (omega arith))

total-replicate : (n : ℕ) (s : Slot) → s.count ≡ 0 → total (replicate n s) ≡ 0
unfolding total
total-replicate zero s e = refl
total-replicate (suc n) s e = omega (arith, e, total-replicate n s e)

-- The frames that a slot holds.
abbrev pub entries : Slot → List DelayedFrame
entries s = take s.count s.frames

module _ (slot_count max_frames : ℕ) where
  pub record Timely (now i : ℕ) (f : DelayedFrame) : Type 0 where
    pub own_slot : f.release_tick % slot_count ≡ i
    pub later : now < f.release_tick
    pub within : f.release_tick ≤ now + slot_count

  pub record SlotOk (now i : ℕ) (s : Slot) : Type 0 where
    pub size : length s.frames ≡ max_frames
    pub bounded : s.count ≤ max_frames
    pub timely : All (Timely now i) (entries s)

  pub record IsValid (w : TimingWheel) : Type 0 where
    pub power : is_power_of_two slot_count ≡ true
    pub slots_size : length w.slots ≡ slot_count
    pub expired_size : length w.expired ≡ max_frames
    pub slots_ok :
        (i : ℕ)
        → i < length w.slots
        → SlotOk w.current_tick i (get_or w.slots i (empty_slot max_frames))
    pub pending : w.pending_count ≡ u64 (total w.slots)

  pub index_lem :
      (t : ℕ) → is_power_of_two slot_count ≡ true → slot_index slot_count t ≡ t % slot_count
  index_lem t p = bit_and_capacity slot_count t p

  pub index-lt : (w : TimingWheel) (t : ℕ) → IsValid w → slot_index slot_count t < length w.slots
  index-lt w t v =
      rw (index_lem t v.power, v.slots_size) (mod-lt t (capacity_pos slot_count v.power))

  pub slot_at-SlotOk :
      (w : TimingWheel) (t : ℕ)
      → IsValid w
      → SlotOk w.current_tick (slot_index slot_count t) (slot_at slot_count max_frames w t)
  slot_at-SlotOk w t v = v.slots_ok (slot_index slot_count t) (index-lt w t v)

  -- A slot is replaced by one that suits the clock `now`.
  pub set-slots_ok :
      (now k : ℕ) (slots : List Slot) (s : Slot)
      → k < length slots
      → ((i : ℕ) → i < length slots → i ≢ k → SlotOk now i (get_or slots i (empty_slot max_frames)))
      → SlotOk now k s
      → (i : ℕ) → i < length (set slots k s)
      → SlotOk now i (get_or (set slots k s) i (empty_slot max_frames))
  set-slots_ok now k slots s lt others new i h = elim (ℕ_discrete i k) [
    | yes e ↦ rw (e, get_or-set_self slots k s (empty_slot max_frames) lt) new
    | no ne ↦
        rw (get_or-set_ne slots k i s (empty_slot max_frames) (λ e. ne (sym e)))
          (others i (omega (arith, length-set slots k s)) ne)
  ]

  pub init-IsValid : is_power_of_two slot_count ≡ true → IsValid (init slot_count max_frames)
  unfolding init
  init-IsValid p = record {
    power = p;
    slots_size = length-replicate slot_count _;
    expired_size = length-replicate max_frames _;
    slots_ok = λ i h.
        rw (get_or-replicate slot_count i (empty_slot max_frames))
          (record { size = length-replicate max_frames _; bounded = omega arith; timely = tt });
    pending = rw (total-replicate slot_count (empty_slot max_frames) refl);
  }
