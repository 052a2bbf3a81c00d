-- ===== src/TimingWheel/Agenda.antt =====
-- What a client may rely on: an agenda that says, for each tick to come, which frames it releases.
-- `schedule` appends one frame to one tick; `Delivery` has what `tick` does with it.
use chronos_x.Base.{
  ℕ, suc, ◌+◌, ◌%◌, ◌≤◌, ◌<◌, ◌≡◌, ◌≢◌, refl, sym, ◌∙◌, true, false, Bool, ◌&&◌, List, [], ◌∷◌,
  ◌++◌, arith, u64_mod, leb, ltb, ◌==◌, if◌then◌else◌, length, set, length-take, get_or-set_self,
  get_or-set_ne, Bool-cases, inl, inr, dec_lt, ℕ_discrete, ==_iff,
}
use chronos_x.Types.{is_power_of_two}
use chronos_x.TimingWheel.{
  DelayedFrame, Slot, TimingWheel, ScheduleStatus, scheduled, delay_too_large, slot_full,
  empty_slot, slot_index, slot_at, schedule_at, schedule, at_least_one,
}
use chronos_x.TimingWheel.Invariant.{entries, IsValid, index_lem, index-lt, slot_at-SlotOk}
use chronos_x.TimingWheel.Schedule.{release_tick_lem, entries_scheduled}
use chronos_x.TimingWheel.Tick.{same_tick}

module _ (slot_count max_frames : ℕ) where
  abbrev pub in_turn : ℕ → ℕ → Bool
  in_turn now t = ltb now t && leb t (now + slot_count)

  -- The frames to be released at tick `t`, in order.
  unfoldable pub agenda : TimingWheel → ℕ → List DelayedFrame
  agenda w t = if in_turn w.current_tick t then entries (slot_at slot_count max_frames w t) else []

  -- Two ticks of one turn that share a slot are one.
  pub slot_apart :
      (now a b : ℕ)
      → is_power_of_two slot_count ≡ true
      → in_turn now a ≡ true
      → in_turn now b ≡ true
      → a ≢ b
      → slot_index slot_count a ≢ slot_index slot_count b
  slot_apart now a b p ha hb ne = λ e. elim (dec_lt a b) [
    | yes lt ↦ ne (sym (same_tick slot_count a b (ground arith) (ground arith) (sym (index e))))
    | no ge ↦ ne (same_tick slot_count b a (ground arith) (ground arith) (index e))
  ]
    where
      index : slot_index slot_count a ≡ slot_index slot_count b → a % slot_count ≡ b % slot_count
      index e = sym (index_lem slot_count max_frames a p) ∙ e ∙ index_lem slot_count max_frames b p

  -- How many frames are due at a tick is what its slot counts.
  length-agenda :
      (w : TimingWheel) (t : ℕ)
      → IsValid slot_count max_frames w
      → in_turn w.current_tick t ≡ true
      → length (agenda w t) ≡ (slot_at slot_count max_frames w t).count
  unfolding agenda
  length-agenda w t v h =
      let ok = slot_at-SlotOk slot_count max_frames w t v in
      let slot = slot_at slot_count max_frames w t in
      rw h (omega (arith, length-take slot.count slot.frames, ok.size, ok.bounded))

  -- The status that `schedule` must answer.
  abbrev pub answer : TimingWheel → ℕ → ScheduleStatus
  answer w delay =
      if ltb slot_count delay
      then delay_too_large
      else if leb max_frames (length (agenda w (w.current_tick + at_least_one delay)))
      then slot_full
      else scheduled

  agenda-schedule_at :
      (w : TimingWheel) (f : DelayedFrame) (t : ℕ)
      → IsValid slot_count max_frames w
      → in_turn w.current_tick f.release_tick ≡ true
      → leb max_frames (slot_at slot_count max_frames w f.release_tick).count ≡ false
      → agenda (schedule_at slot_count max_frames w f).1 t
        ≡ (if t == f.release_tick then agenda w t ++ f ∷ [] else agenda w t)
  unfolding agenda schedule_at
  agenda-schedule_at w f t v h room = rw room (elim (ℕ_discrete t f.release_tick) [
    | yes e ↦
        rw
          (
            (==_iff t f.release_tick).1 e,
            e,
            h,
            get_or-set_self w.slots k slot' none
                (index-lt slot_count max_frames w f.release_tick v),
          )
          (entries_scheduled slot_count max_frames slot f
            (slot_at-SlotOk slot_count max_frames w f.release_tick v).size room)
    | no ne ↦ rw (other ne) (elim (Bool-cases (in_turn w.current_tick t)) [
      | inl y ↦ rw (
        y,
        get_or-set_ne w.slots k (slot_index slot_count t) slot' none
            (slot_apart w.current_tick f.release_tick t v.power h y (λ e. ne (sym e))),
      )
      | inr n ↦ rw n
    ])
  ])
    where
      k : ℕ
      k = slot_index slot_count f.release_tick

      none : Slot
      none = empty_slot max_frames

      slot : Slot
      slot = slot_at slot_count max_frames w f.release_tick

      slot' : Slot
      slot' = record { frames = set slot.frames slot.count f; count = suc slot.count }

      other : t ≢ f.release_tick → (t == f.release_tick) ≡ false
      other ne = ground arith

  due_in_turn :
      (now delay : ℕ)
      → 0 < at_least_one delay
      → at_least_one delay ≤ slot_count
      → in_turn now (now + at_least_one delay) ≡ true
  due_in_turn now delay p q = ground arith

  -- On a valid wheel that is not within a turn of the tick counter's end, `schedule` answers that
  -- the delay is too large if it is longer than the wheel, that the slot is full if the tick already
  -- has `max_frames` frames, and otherwise that it is scheduled; only then does the agenda change:
  -- the frame comes last at the tick that lies the delay, or one tick for a delay of 0, ahead.
  pub schedule_refines :
      (w : TimingWheel) (f : DelayedFrame) (delay : ℕ)
      → w.current_tick + slot_count < u64_mod
      → IsValid slot_count max_frames w
      → let (status, w') = schedule slot_count max_frames w f delay in
        let due = w.current_tick + at_least_one delay in
        (status ≡ answer w delay)
        × (w'.current_tick ≡ w.current_tick)
        × ((t : ℕ)
            → agenda w' t ≡ elim (answer w delay) [
              | scheduled ↦
                  if t == due
                  then agenda w t ++ record f { release_tick = due } ∷ []
                  else agenda w t
              | _ ↦ agenda w t
            ])
  unfolding schedule agenda
  schedule_refines w f delay c v = elim (Bool-cases (ltb slot_count delay)) [
    | inl far ↦ rw far (refl, refl, λ t. refl)
    | inr near ↦
        let e = release_tick_lem slot_count max_frames w delay v.power c near in
        let h = due_in_turn w.current_tick delay e.1 e.2 in
        rw (near, e.0, length-agenda w (w.current_tick + at_least_one delay) v h)
          (elim (Bool-cases (
            leb max_frames
              (slot_at slot_count max_frames w (w.current_tick + at_least_one delay)).count)) [
                | inl full ↦ rw full (refl, refl, λ t. refl)
                | inr room ↦
                    let g = record f { release_tick = w.current_tick + at_least_one delay } in
                    rw room (refl, refl, λ t. rw room at (agenda-schedule_at w g t v h room))
              ])
  ]
