-- ===== src/TimingWheel/Schedule.antt =====
-- `schedule`: it keeps the wheel valid on every branch.
use chronos_x.Base.{
  ℕ, suc, ◌+◌, ◌≤◌, ◌<◌, ◌≡◌, sym, ◌∙◌, true, false, [], ◌∷◌, ◌++◌, arith, u64_mod, add64, leb, ltb,
  length, set, All-append, length-set, take-set_next, Bool-cases, inl, inr,
}
use chronos_x.Types.{is_power_of_two}
use chronos_x.Types.PowerOfTwo.{capacity_pos}
use chronos_x.TimingWheel.{
  DelayedFrame, Slot, TimingWheel, empty_slot, slot_index, slot_at, schedule_at, schedule,
  at_least_one,
}
use chronos_x.TimingWheel.Invariant.{
  total-set, entries, Timely, SlotOk, IsValid, index_lem, index-lt, slot_at-SlotOk, set-slots_ok,
}

module _ (slot_count max_frames : ℕ) where
  -- The frame is appended to its slot.
  pub entries_scheduled :
      (s : Slot) (f : DelayedFrame)
      → length s.frames ≡ max_frames
      → leb max_frames s.count ≡ false
      → entries (record { frames = set s.frames s.count f; count = suc s.count })
        ≡ entries s ++ f ∷ []
  entries_scheduled s f e h = take-set_next s.count s.frames f (ground arith)

  SlotOk-scheduled :
      (now i : ℕ) (s : Slot) (f : DelayedFrame)
      → SlotOk slot_count max_frames now i s
      → leb max_frames s.count ≡ false
      → Timely slot_count max_frames now i f
      → SlotOk slot_count max_frames now i
          (record { frames = set s.frames s.count f; count = suc s.count })
  SlotOk-scheduled now i s f v h t = record {
    size = length-set s.frames s.count f ∙ v.size;
    bounded = ground arith;
    timely =
        rw (entries_scheduled s f v.size h)
          (All-append (Timely slot_count max_frames now i) (entries s) (f ∷ []) v.timely (t, tt));
  }

  pub schedule_at-IsValid :
      (w : TimingWheel) (f : DelayedFrame)
      → w.current_tick < f.release_tick
      → f.release_tick ≤ w.current_tick + slot_count
      → IsValid slot_count max_frames w
      → IsValid slot_count max_frames (schedule_at slot_count max_frames w f).1
  unfolding schedule_at
  schedule_at-IsValid w f p q v =
      elim (Bool-cases (leb max_frames (slot_at slot_count max_frames w f.release_tick).count)) [
        | inl full ↦ rw full (record {
          power = v.power;
          slots_size = v.slots_size;
          expired_size = v.expired_size;
          slots_ok = v.slots_ok;
          pending = v.pending;
        })
        | inr room ↦ rw room (record {
          power = v.power;
          slots_size = length-set w.slots _ _ ∙ v.slots_size;
          expired_size = v.expired_size;
          slots_ok =
              set-slots_ok slot_count max_frames w.current_tick _ w.slots _
                (index-lt slot_count max_frames w f.release_tick v) (λ i h ne. v.slots_ok i h)
                (SlotOk-scheduled w.current_tick _ _ f
                  (slot_at-SlotOk slot_count max_frames w f.release_tick v) room own);
          pending = omega (
            arith,
            v.pending,
            total-set w.slots (slot_index slot_count f.release_tick) appended
                (empty_slot max_frames) (index-lt slot_count max_frames w f.release_tick v),
          );
        })
      ]
    where
      own : Timely slot_count max_frames w.current_tick (slot_index slot_count f.release_tick) f
      own = record {
        own_slot = sym (index_lem slot_count max_frames f.release_tick v.power);
        later = p;
        within = q;
      }

      appended : Slot
      appended =
          let slot = slot_at slot_count max_frames w f.release_tick in
          record { frames = set slot.frames slot.count f; count = suc slot.count }

  -- A delay that passes the test leads to a tick within one turn of the wheel.
  pub release_tick_lem :
      (w : TimingWheel) (delay : ℕ)
      → is_power_of_two slot_count ≡ true
      → w.current_tick + slot_count < u64_mod
      → ltb slot_count delay ≡ false
      → (add64 w.current_tick (at_least_one delay) ≡ w.current_tick + at_least_one delay)
        × (0 < at_least_one delay)
        × (at_least_one delay ≤ slot_count)
  release_tick_lem w delay p c h = ground (arith, capacity_pos slot_count p)

  -- `schedule` keeps a valid wheel valid, whatever it answers, while the tick counter is not within one
  -- turn of its end.
  pub schedule-IsValid :
      (w : TimingWheel) (f : DelayedFrame) (delay : ℕ)
      → w.current_tick + slot_count < u64_mod
      → IsValid slot_count max_frames w
      → IsValid slot_count max_frames (schedule slot_count max_frames w f delay).1
  unfolding schedule
  schedule-IsValid w f delay c v = elim (Bool-cases (ltb slot_count delay)) [
    | inl far ↦ rw far (record {
      power = v.power;
      slots_size = v.slots_size;
      expired_size = v.expired_size;
      slots_ok = v.slots_ok;
      pending = v.pending;
    })
    | inr near ↦
        let e = release_tick_lem w delay v.power c near in
        rw near (schedule_at-IsValid w _ (omega (arith, e)) (omega (arith, e)) v)
  ]
