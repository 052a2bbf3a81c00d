-- ===== src/DataPlane/Wheel.antt =====
-- include/chronosx/timing_wheel.hpp as the data plane sees it: a weight over the frames that a wheel
-- holds, and what `schedule` adds to it.
use chronos_x.Base.{
  ℕ, zero, suc, ◌+◌, ◌<◌, ◌≡◌, false, List, [], ◌∷◌, arith, length, set, get_or, take,
  if◌then◌else◌, ltb, leb, Bool-cases, inl, inr, add64,
}
use chronos_x.TimingWheel.{
  DelayedFrame, Slot, TimingWheel, schedule, schedule_at, slot_at, slot_index, empty_slot,
  at_least_one, ScheduleStatus,
}
use chronos_x.TimingWheel.Invariant.{IsValid, entries, index-lt, slot_at-SlotOk}
use chronos_x.DataPlane.{is_scheduled}

module _ {A : Type 0} (weight : A → ℕ) where
  unfoldable pub weigh : List A → ℕ
  weigh [] = 0
  weigh (x ∷ xs) = weight x + weigh xs

  -- A list grows by the element written behind its prefix.
  pub weigh-set_next :
      (xs : List A) (n : ℕ) (x : A)
      → n < length xs
      → weigh (take (suc n) (set xs n x)) ≡ weigh (take n xs) + weight x
  unfolding weigh
  weigh-set_next [] n x h = absurd (omega arith)
  weigh-set_next (y ∷ xs) zero x h = ground arith
  weigh-set_next (y ∷ xs) (suc n) x h = omega (arith, weigh-set_next xs n x (omega arith))

module _ (weight : ℕ → ℕ) where
  abbrev pub frame_weight : DelayedFrame → ℕ
  frame_weight f = weight f.frame_address

  unfoldable pub slot_weight : Slot → ℕ
  slot_weight s = weigh frame_weight (entries s)

  unfoldable pub wheel_weight : TimingWheel → ℕ
  wheel_weight w = weigh slot_weight w.slots

  pub weigh-set :
      (slots : List Slot) (i : ℕ) (s d : Slot)
      → i < length slots
      → weigh slot_weight (set slots i s) + slot_weight (get_or slots i d)
        ≡ weigh slot_weight slots + slot_weight s
  unfolding weigh
  weigh-set [] i s d h = absurd (omega arith)
  weigh-set (x ∷ slots) zero s d h = omega arith
  weigh-set (x ∷ slots) (suc i) s d h = omega (arith, weigh-set slots i s d (omega arith))

  module _ (slot_count max_frames : ℕ) where
    -- What a call of the scheduler adds, by its status.
    abbrev pub Kept : (ScheduleStatus × TimingWheel) → TimingWheel → ℕ → Type 0
    Kept r w address =
        wheel_weight r.1 ≡ wheel_weight w + (if is_scheduled r.0 then weight address else 0)

    schedule_at-Kept :
        (w : TimingWheel) (f : DelayedFrame)
        → IsValid slot_count max_frames w
        → Kept (schedule_at slot_count max_frames w f) w f.frame_address
    unfolding schedule_at wheel_weight slot_weight
    schedule_at-Kept w f v =
        elim (Bool-cases (leb max_frames (slot_at slot_count max_frames w f.release_tick).count)) [
          | inl full ↦ rw full (omega arith)
          | inr room ↦ rw room (
              omega (
                arith,
                added room,
                weigh-set w.slots (slot_index slot_count f.release_tick) (new_slot)
                    (empty_slot max_frames) (index-lt slot_count max_frames w f.release_tick v),
              ))
        ]
      where
        slot : Slot
        slot = slot_at slot_count max_frames w f.release_tick

        new_slot : Slot
        new_slot = record { frames = set slot.frames slot.count f; count = suc slot.count }

        added :
            leb max_frames slot.count ≡ false
            → slot_weight new_slot ≡ slot_weight slot + weight f.frame_address
        added room =
            weigh-set_next frame_weight slot.frames slot.count f
              (ground (arith, (slot_at-SlotOk slot_count max_frames w f.release_tick v).size))

    pub schedule-Kept :
        (w : TimingWheel) (f : DelayedFrame) (delay : ℕ)
        → IsValid slot_count max_frames w
        → Kept (schedule slot_count max_frames w f delay) w f.frame_address
    unfolding schedule wheel_weight
    schedule-Kept w f delay v = elim (Bool-cases (ltb slot_count delay)) [
      | inl far ↦ rw far (omega arith)
      | inr near ↦ rw near (
          schedule_at-Kept w (record f { release_tick = add64 w.current_tick (at_least_one delay) })
            v)
    ]

module _ (slot_count max_frames : ℕ) where
  pub schedule-current_tick :
      (w : TimingWheel) (f : DelayedFrame) (delay : ℕ)
      → (schedule slot_count max_frames w f delay).1.current_tick ≡ w.current_tick
  unfolding schedule schedule_at
  schedule-current_tick w f delay = ground arith
