-- ===== src/TimingWheel/Delivery.antt =====
-- `tick` hands over the next tick's frames of the agenda, and a delayed frame comes out on time.
use native.Mathlib.Nat.{add-mod_right}
use chronos_x.Base.{
  ℕ, zero, suc, ◌+◌, ◌%◌, ◌<◌, ◌≡◌, refl, ap, sym, ◌∙◌, true, List, [], ◌∷◌, ◌++◌, arith, u64_mod,
  add64, leb, ◌==◌, if◌then◌else◌, set, get_or, get_or-set_self, get_or-set_ne, dec_lt,
}
use chronos_x.Types.PowerOfTwo.{capacity_pos}
use chronos_x.TimingWheel.{
  DelayedFrame, Slot, TimingWheel, scheduled, empty_slot, slot_index, slot_at, schedule,
  at_least_one, tick_at, tick,
}
use chronos_x.TimingWheel.Invariant.{entries, IsValid, index_lem, index-lt}
use chronos_x.TimingWheel.Schedule.{schedule-IsValid}
use chronos_x.TimingWheel.Tick.{Drained, tick_at-Drained, tick-IsValid}
use chronos_x.TimingWheel.Agenda.{agenda, in_turn, slot_apart, answer, schedule_refines}

module _ (slot_count max_frames : ℕ) where
  -- The agenda of a wheel whose clock has moved on by one and whose slot for `now` is `left`.
  ticked_agenda :
      (w u : TimingWheel) (left : Slot) (t : ℕ)
      → IsValid slot_count max_frames w
      → left.count ≡ 0
      → u.current_tick ≡ suc w.current_tick
      → u.slots ≡ set w.slots (slot_index slot_count (suc w.current_tick)) left
      → agenda slot_count max_frames u t
        ≡ (if leb t (suc w.current_tick) then [] else agenda slot_count max_frames w t)
  unfolding agenda
  ticked_agenda w u left t v none clock slots =
      rw (clock, slots)
        (split (dec_lt now t) (dec_lt (w.current_tick + slot_count) t)
          (dec_lt (now + slot_count) t))
    where
      now : ℕ
      now = suc w.current_tick

      Goal : Type 0
      Goal =
          (if in_turn slot_count max_frames now t
            then entries (
                get_or (set w.slots (slot_index slot_count now) left) (slot_index slot_count t)
                  (empty_slot max_frames))
            else [])
          ≡ (if leb t now
              then []
              else (if in_turn slot_count max_frames w.current_tick t
                  then entries (slot_at slot_count max_frames w t)
                  else []))

      in_next : in_turn slot_count max_frames w.current_tick now ≡ true
      in_next = ground (arith, capacity_pos slot_count v.power)

      split :
          Dec (now < t) → Dec (w.current_tick + slot_count < t) → Dec (now + slot_count < t) → Goal
      split (no h) b c = ground arith
      split (yes h) (no b) c =
          rw
            (get_or-set_ne w.slots (slot_index slot_count now) (slot_index slot_count t) left
              (empty_slot max_frames)
              (slot_apart slot_count max_frames w.current_tick now t v.power in_next (ground arith)
                (omega arith)))
            (ground arith)
      split (yes h) (yes b) (yes c) = ground arith
      split (yes h) (yes b) (no c) =
          rw
            (
              again,
              get_or-set_self w.slots (slot_index slot_count now) left (empty_slot max_frames)
                  (index-lt slot_count max_frames w now v),
              none,
            )
            (ground arith)
        where
          again : slot_index slot_count t ≡ slot_index slot_count now
          again =
              index_lem slot_count max_frames t v.power
              ∙ ap (λ r. r % slot_count) (omega arith)
              ∙ add-mod_right now slot_count
              ∙ sym (index_lem slot_count max_frames now v.power)

  -- On a valid wheel whose clock does not wrap, `tick` hands over the agenda's frames of the next tick,
  -- in order, moves the clock by one, and takes nothing off the agenda of any later tick.
  pub tick_refines :
      (w : TimingWheel)
      → w.current_tick + 1 < u64_mod
      → IsValid slot_count max_frames w
      → let (out, w') = tick slot_count max_frames w in
        (out ≡ agenda slot_count max_frames w (suc w.current_tick))
        × (w'.current_tick ≡ suc w.current_tick)
        × ((t : ℕ)
            → agenda slot_count max_frames w' t
              ≡ (if leb t (suc w.current_tick) then [] else agenda slot_count max_frames w t))
  unfolding tick
  tick_refines w c v =
      rw next
        (drained.out ∙ sym present, refl, λ t. ticked_agenda w _ _ t v drained.none_kept refl refl)
    where
      now : ℕ
      now = suc w.current_tick

      next : add64 w.current_tick 1 ≡ now
      next = omega arith

      drained : Drained slot_count max_frames w now (tick_at slot_count max_frames w now)
      drained = tick_at-Drained slot_count max_frames w v

      in_next : in_turn slot_count max_frames w.current_tick now ≡ true
      in_next = ground (arith, capacity_pos slot_count v.power)

      present : agenda slot_count max_frames w now ≡ entries (slot_at slot_count max_frames w now)
      present = unfold agenda in rw in_next

  pub ticks : ℕ → TimingWheel → TimingWheel
  ticks zero w = w
  ticks (suc n) w = ticks n (tick slot_count max_frames w).1

  ticks_refines :
      (n : ℕ) (w : TimingWheel)
      → w.current_tick + n < u64_mod
      → IsValid slot_count max_frames w
      → IsValid slot_count max_frames (ticks n w)
        × ((ticks n w).current_tick ≡ w.current_tick + n)
        × ((t : ℕ)
            → w.current_tick + n < t
            → agenda slot_count max_frames (ticks n w) t ≡ agenda slot_count max_frames w t)
  unfolding ticks
  ticks_refines zero w c v = (v, omega arith, λ t h. refl)
  ticks_refines (suc n) w c v =
      let (_, clock, later) = tick_refines w (omega arith) v in
      let (valid, clock', later') =
        ticks_refines n (tick slot_count max_frames w).1 (omega (arith, clock))
          (tick-IsValid slot_count max_frames w (omega arith) v) in
      (
        valid,
        omega (arith, clock, clock'),
        λ t h.
            later' t (omega (arith, clock))
            ∙ later t
            ∙ ahead t (agenda slot_count max_frames w t) h,
      )
    where
      ahead :
          (t : ℕ) (xs : List DelayedFrame)
          → w.current_tick + suc n < t
          → (if leb t (suc w.current_tick) then [] else xs) ≡ xs
      ahead t xs h = ground arith

  -- On a valid wheel whose clock is neither within one turn nor within the ticks in question of its
  -- end: when `schedule` has accepted a frame, the frame comes out last of the tick that many ticks
  -- ahead as the delay says (of the next tick for a delay of 0); every other tick releases what it
  -- would have released without the frame.
  pub delivered_on_time :
      (w : TimingWheel) (f : DelayedFrame) (delay n : ℕ)
      → w.current_tick + slot_count < u64_mod
      → w.current_tick + suc n < u64_mod
      → IsValid slot_count max_frames w
      → answer slot_count max_frames w delay ≡ scheduled
      → let due = w.current_tick + at_least_one delay in
        let w' = (schedule slot_count max_frames w f delay).1 in
        (tick slot_count max_frames (ticks n w')).0 ≡ (
          if suc n == at_least_one delay
          then agenda slot_count max_frames w (w.current_tick + suc n)
            ++ record f { release_tick = due } ∷ []
          else agenda slot_count max_frames w (w.current_tick + suc n))
  delivered_on_time w f delay n c c' v a =
      out
      ∙ ap (agenda slot_count max_frames (ticks n w')) (omega (arith, waited.1, clock))
      ∙ waited.2 (w.current_tick + suc n) (omega (arith, clock))
      ∙ (schedule_refines slot_count max_frames w f delay c v).2 (w.current_tick + suc n)
      ∙ rw a (ground arith)
    where
      w' : TimingWheel
      w' = (schedule slot_count max_frames w f delay).1

      clock : w'.current_tick ≡ w.current_tick
      clock = (schedule_refines slot_count max_frames w f delay c v).1

      valid : IsValid slot_count max_frames w'
      valid = schedule-IsValid slot_count max_frames w f delay c v

      waited :
          IsValid slot_count max_frames (ticks n w')
          × ((ticks n w').current_tick ≡ w'.current_tick + n)
          × ((t : ℕ)
              → w'.current_tick + n < t
              → agenda slot_count max_frames (ticks n w') t ≡ agenda slot_count max_frames w' t)
      waited = ticks_refines n w' (omega (arith, clock)) valid

      out :
          (tick slot_count max_frames (ticks n w')).0
          ≡ agenda slot_count max_frames (ticks n w') (suc (ticks n w').current_tick)
      out = (tick_refines (ticks n w') (omega (arith, clock, waited.1)) waited.0).0
