-- ===== src/TimingWheel.antt =====
-- include/chronosx/timing_wheel.hpp: the delay scheduler, a ring of slots of delayed frames.
-- `slot_count` and `max_frames` are the template's parameters. Arrays are lists of their full
-- length, with the stale entries behind a count kept. `++` on a count that has just been tested
-- against the array's size cannot wrap and is written as `suc`; the other counters wrap.
pub mod Partition
pub mod Invariant
pub mod Schedule
pub mod Tick
pub mod Agenda
pub mod Delivery
mod Tests
use chronos_x.Base.{
  ℕ, zero, suc, ◌-◌, Bool, List, bit_and, add64, sub64, ltb, leb, ◌==◌, if◌then◌else◌, get_or, set,
  replicate, take,
}

pub record DelayedFrame : Type 0 where
  pub frame_address : ℕ
  pub frame_length : ℕ
  pub rule_id : ℕ
  pub release_tick : ℕ

pub data ScheduleStatus : Type 0 where
  scheduled delay_too_large slot_full : ScheduleStatus

pub record Slot : Type 0 where
  pub frames : List DelayedFrame
  pub count : ℕ

pub record TimingWheel : Type 0 where
  pub slots : List Slot
  pub expired : List DelayedFrame
  pub current_tick : ℕ
  pub expired_count : ℕ
  pub pending_count : ℕ
  pub schedule_failures : ℕ

abbrev pub no_frame : DelayedFrame
no_frame = record { frame_address = 0; frame_length = 0; rule_id = 0; release_tick = 0 }

abbrev pub empty_slot : ℕ → Slot
empty_slot max_frames = record { frames = replicate max_frames no_frame; count = 0 }

-- `if (delay_ticks == 0) delay_ticks = 1;`
abbrev pub at_least_one : ℕ → ℕ
at_least_one delay_ticks = if delay_ticks == 0 then 1 else delay_ticks

abbrev pub slot_mask : ℕ → ℕ
slot_mask slot_count = slot_count - 1

-- The index in `slots_[tick & kSlotMask]`.
abbrev pub slot_index : ℕ → ℕ → ℕ
slot_index slot_count tick = bit_and tick (slot_mask slot_count)

module _ (slot_count max_frames : ℕ) where
  unfoldable pub init : TimingWheel
  init = record {
    slots = replicate slot_count (empty_slot max_frames);
    expired = replicate max_frames no_frame;
    current_tick = 0;
    expired_count = 0;
    pending_count = 0;
    schedule_failures = 0;
  }

  abbrev pub slot_at : TimingWheel → ℕ → Slot
  slot_at w tick = get_or w.slots (slot_index slot_count tick) (empty_slot max_frames)

  -- `schedule` once the delay has been accepted and the frame has its release tick.
  unfoldable pub schedule_at : TimingWheel → DelayedFrame → ScheduleStatus × TimingWheel
  schedule_at w frame =
      let slot = slot_at w frame.release_tick in
      if leb max_frames slot.count
      then (slot_full, record w { schedule_failures = add64 w.schedule_failures 1 })
      else (
        scheduled,
        record w {
          slots =
              set w.slots (slot_index slot_count frame.release_tick)
                (record { frames = set slot.frames slot.count frame; count = suc slot.count });
          pending_count = add64 w.pending_count 1;
        },
      )

  unfoldable pub schedule : TimingWheel → DelayedFrame → ℕ → ScheduleStatus × TimingWheel
  unfolding schedule_at
  schedule w frame delay_ticks =
      if ltb slot_count delay_ticks
      then (delay_too_large, record w { schedule_failures = add64 w.schedule_failures 1 })
      else schedule_at w
          (record frame { release_tick = add64 w.current_tick (at_least_one delay_ticks) })

-- The variables of the loop in `tick`.
pub record Sweep : Type 0 where
  pub frames : List DelayedFrame
  pub expired : List DelayedFrame
  pub expired_count : ℕ
  pub pending_count : ℕ
  pub kept_count : ℕ

-- The body of the loop, for the frame read at `index`.
unfoldable pub sweep_frame : ℕ → DelayedFrame → Sweep → Sweep
sweep_frame now frame s =
    if leb frame.release_tick now
    then record s {
      expired = set s.expired s.expired_count frame;
      expired_count = suc s.expired_count;
      pending_count = sub64 s.pending_count 1;
    }
    else record s { frames = set s.frames s.kept_count frame; kept_count = suc s.kept_count }

-- `n` rounds from `index` on.
unfoldable pub sweep : ℕ → ℕ → ℕ → Sweep → Sweep
unfolding sweep_frame
sweep now zero index s = s
sweep now (suc n) index s =
    sweep now n (suc index) (sweep_frame now (get_or s.frames index no_frame) s)

module _ (slot_count max_frames : ℕ) where
  abbrev pub sweep_start : TimingWheel → ℕ → Sweep
  sweep_start w now = record {
    frames = (slot_at slot_count max_frames w now).frames;
    expired = w.expired;
    expired_count = 0;
    pending_count = w.pending_count;
    kept_count = 0;
  }

  -- The loop at the new tick, and the slot's new count.
  unfoldable pub tick_at : TimingWheel → ℕ → Sweep
  unfolding sweep
  tick_at w now = sweep now (slot_at slot_count max_frames w now).count 0 (sweep_start w now)

  -- The wheel after `tick`, and the span of expired frames that it returns.
  unfoldable pub tick : TimingWheel → List DelayedFrame × TimingWheel
  unfolding tick_at
  tick w =
      let now = add64 w.current_tick 1 in
      let s = tick_at w now in
      (
        take s.expired_count s.expired,
        record w {
          slots =
              set w.slots (slot_index slot_count now)
                (record { frames = s.frames; count = s.kept_count });
          expired = s.expired;
          current_tick = now;
          expired_count = s.expired_count;
          pending_count = s.pending_count;
        },
      )

  unfoldable pub slot_pending_count : TimingWheel → ℕ → ℕ
  slot_pending_count w slot_index =
      if ltb slot_index slot_count
      then (get_or w.slots slot_index (empty_slot max_frames)).count
      else 0

unfoldable pub empty : TimingWheel → Bool
empty w = w.pending_count == 0
