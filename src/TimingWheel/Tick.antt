-- ===== src/TimingWheel/Tick.antt =====
-- `tick`: on a valid wheel every frame of the new tick's slot is due, so that the slot is emptied
-- and the wheel stays valid.
use chronos_x.Base.{
  ℕ, suc, ◌+◌, ◌-◌, ◌%◌, ◌≤◌, ◌<◌, ◌≡◌, ◌≢◌, refl, ap, sym, ◌∙◌, true, List, [], ◌∷◌, arith, u64,
  u64_mod, add64, length, take, All, All-mono, length-set, length-take, dec_lt, ℕ_discrete,
}
use chronos_x.Types.{is_power_of_two}
use chronos_x.Window.{add-mod-ne}
use chronos_x.TimingWheel.{
  DelayedFrame, Slot, TimingWheel, Sweep, empty_slot, slot_index, slot_at, sweep_start, tick_at,
  tick,
}
use chronos_x.TimingWheel.Partition.{expiring, staying, Swept, sweep-Swept}
use chronos_x.TimingWheel.Invariant.{
  total-set, entries, Timely, SlotOk, IsValid, index_lem, index-lt, slot_at-SlotOk, set-slots_ok,
}

-- Two ticks less than a turn apart that share a slot are one tick.
pub same_tick : (n a b : ℕ) → a ≤ b → b < a + n → b % n ≡ a % n → b ≡ a
same_tick n a b p q e = elim (dec_lt a b) [
  | yes lt ↦
      absurd
        (add-mod-ne n a (b - a) (omega arith) (omega arith) (ap (λ t. t % n) (omega arith) ∙ e))
  | no h ↦ omega arith
]

expire_everything :
    (now : ℕ) (xs : List DelayedFrame)
    → All (λ f. f.release_tick ≤ now) xs
    → (expiring now xs ≡ xs) × (staying now xs ≡ [])
expire_everything now [] h = (refl, refl)
expire_everything now (x ∷ xs) (h, t) = ground (arith, expire_everything now xs t)

module _ (slot_count max_frames : ℕ) where
  -- The loop's result at the tick after `now`, on a valid wheel.
  pub record Drained (w : TimingWheel) (t : ℕ) (s : Sweep) : Type 0 where
    pub out : take s.expired_count s.expired ≡ entries (slot_at slot_count max_frames w t)
    pub none_kept : s.kept_count ≡ 0
    pub frames_size : length s.frames ≡ max_frames
    pub expired_size : length s.expired ≡ max_frames
    pub pending :
        w.pending_count ≡ u64 (s.pending_count + (slot_at slot_count max_frames w t).count)
    pub pending_word : s.pending_count < u64_mod

  slot_due :
      (w : TimingWheel)
      → IsValid slot_count max_frames w
      → All
          (λ f. f.release_tick ≤ suc w.current_tick)
          (entries (slot_at slot_count max_frames w (suc w.current_tick)))
  slot_due w v =
      All-mono
        (Timely slot_count max_frames w.current_tick (slot_index slot_count (suc w.current_tick)))
        (λ f. f.release_tick ≤ suc w.current_tick) _
        (λ f t. omega (
          arith,
          same_tick slot_count (suc w.current_tick) f.release_tick t.later (omega (arith, t.within))
              (t.own_slot ∙ index_lem slot_count max_frames (suc w.current_tick) v.power),
        ))
        (slot_at-SlotOk slot_count max_frames w (suc w.current_tick) v).timely

  pub tick_at-Drained :
      (w : TimingWheel)
      → IsValid slot_count max_frames w
      → Drained w (suc w.current_tick) (tick_at slot_count max_frames w (suc w.current_tick))
  unfolding tick_at
  tick_at-Drained w v = record {
    out = swept.out ∙ all.0;
    none_kept = omega (arith, swept.kept_size, ap length all.1);
    frames_size = swept.frames_size ∙ ok.size;
    expired_size = swept.expired_size ∙ v.expired_size;
    pending = omega (arith, swept.pending, ap length all.0, counted);
    pending_word = swept.pending_word;
  }
    where
      now : ℕ
      now = suc w.current_tick

      slot : Slot
      slot = slot_at slot_count max_frames w now

      ok : SlotOk slot_count max_frames w.current_tick (slot_index slot_count now) slot
      ok = slot_at-SlotOk slot_count max_frames w now v

      counted : length (entries slot) ≡ slot.count
      counted = omega (arith, length-take slot.count slot.frames, ok.size, ok.bounded)

      swept :
          Swept now
            (sweep_start slot_count max_frames w now)
            (entries slot)
            (tick_at slot_count max_frames w now)
      swept =
          sweep-Swept now slot.count 0 (sweep_start slot_count max_frames w now)
            (omega (arith, ok.size, ok.bounded)) (omega arith)
            (omega (arith, ok.bounded, v.expired_size)) (omega (arith, v.pending))

      all : (expiring now (entries slot) ≡ entries slot) × (staying now (entries slot) ≡ [])
      all = expire_everything now (entries slot) (slot_due w v)

  -- A frame of another slot is not due at the new tick.
  Timely-later :
      (now i : ℕ) (f : DelayedFrame)
      → is_power_of_two slot_count ≡ true
      → i ≢ slot_index slot_count (suc now)
      → Timely slot_count max_frames now i f
      → Timely slot_count max_frames (suc now) i f
  Timely-later now i f p ne t = record {
    own_slot = t.own_slot;
    later = elim (ℕ_discrete f.release_tick (suc now)) [
      | yes e ↦ absurd (
          ne (
            sym t.own_slot
            ∙ ap (λ r. r % slot_count) e
            ∙ sym (index_lem slot_count max_frames (suc now) p)))
      | no other ↦ omega (arith, t.later)
    ];
    within = omega (arith, t.within);
  }

  SlotOk-later :
      (now i : ℕ) (s : Slot)
      → is_power_of_two slot_count ≡ true
      → i ≢ slot_index slot_count (suc now)
      → SlotOk slot_count max_frames now i s
      → SlotOk slot_count max_frames (suc now) i s
  SlotOk-later now i s p ne v = record {
    size = v.size;
    bounded = v.bounded;
    timely =
        All-mono (Timely slot_count max_frames now i) (Timely slot_count max_frames (suc now) i)
          (entries s) (λ f. Timely-later now i f p ne) v.timely;
  }

  -- `tick` keeps a valid wheel valid while the tick counter does not wrap.
  pub tick-IsValid :
      (w : TimingWheel)
      → w.current_tick + 1 < u64_mod
      → IsValid slot_count max_frames w
      → IsValid slot_count max_frames (tick slot_count max_frames w).1
  unfolding tick
  tick-IsValid w c v = rw next (record {
    power = v.power;
    slots_size = length-set w.slots _ _ ∙ v.slots_size;
    expired_size = drained.expired_size;
    slots_ok =
        set-slots_ok slot_count max_frames now _ w.slots _ (index-lt slot_count max_frames w now v)
          (λ i h ne. SlotOk-later w.current_tick i _ v.power ne (v.slots_ok i h)) emptied;
    pending = omega (
      arith,
      v.pending,
      drained.pending,
      drained.pending_word,
      drained.none_kept,
      total-set w.slots (slot_index slot_count now) left (empty_slot max_frames)
          (index-lt slot_count max_frames w now v),
    );
  })
    where
      now : ℕ
      now = suc w.current_tick

      next : add64 w.current_tick 1 ≡ now
      next = omega arith

      drained : Drained w now (tick_at slot_count max_frames w now)
      drained = tick_at-Drained w v

      left : Slot
      left =
          let s = tick_at slot_count max_frames w now in
          record { frames = s.frames; count = s.kept_count }

      emptied : SlotOk slot_count max_frames now (slot_index slot_count now) left
      emptied = record {
        size = drained.frames_size;
        bounded = omega (arith, drained.none_kept);
        timely = rw drained.none_kept tt;
      }
