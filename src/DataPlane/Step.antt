-- ===== src/DataPlane/Step.antt =====
-- include/chronosx/data_plane.hpp: where the body of the loop puts a frame.
use chronos_x.Base.{ℕ, ◌+◌, ◌≡◌, refl, true, false, arith}
use chronos_x.TimingWheel.{DelayedFrame, schedule}
use chronos_x.TimingWheel.Schedule.{schedule-IsValid}
use chronos_x.DataPlane.{Batch, ProcessedFrame, DataPlaneBatchStats, drop_frame, is_scheduled}
use chronos_x.DataPlane.Placed.{
  recount, BatchOk, Placed, held, processed_weight, prepared-Placed, recount-BatchOk,
  drop_frame-Placed,
}
use chronos_x.DataPlane.Wheel.{wheel_weight, schedule-Kept, schedule-current_tick}

module _ (slot_count max_frames : ℕ) where
  module _ (weight : ℕ → ℕ) where
    rescheduled-BatchOk :
        (b : Batch) (f : DelayedFrame) (delay : ℕ)
        → BatchOk slot_count max_frames b
        → BatchOk slot_count max_frames
            (record b { timing_wheel = (schedule slot_count max_frames b.timing_wheel f delay).1 })
    rescheduled-BatchOk b f delay v = record {
      wheel = schedule-IsValid slot_count max_frames b.timing_wheel f delay v.clock v.wheel;
      clock = rw (schedule-current_tick slot_count max_frames b.timing_wheel f delay) v.clock;
      tx_fits = v.tx_fits;
      recycle_fits = v.recycle_fits;
    }

    -- A frame scheduled, or not: the wheel's part of the step.
    pub scheduled-Placed :
        (b : Batch) (f : DelayedFrame) (delay : ℕ) (s : DataPlaneBatchStats)
        → BatchOk slot_count max_frames b
        → is_scheduled (schedule slot_count max_frames b.timing_wheel f delay).0 ≡ true
        → Placed slot_count max_frames weight (weight f.frame_address) b (
            recount s (record b {
              timing_wheel = (schedule slot_count max_frames b.timing_wheel f delay).1;
            }))
    unfolding held
    scheduled-Placed b f delay s v e = record {
      valid = recount-BatchOk slot_count max_frames s _ (rescheduled-BatchOk b f delay v);
      at_most = omega (arith, more);
      exactly = λ h. omega (arith, more);
      recycled = omega arith;
      same_tx = refl;
      same_recycle = refl;
    }
      where
        more :
            wheel_weight weight (schedule slot_count max_frames b.timing_wheel f delay).1
            ≡ wheel_weight weight b.timing_wheel + weight f.frame_address
        more = rw e at (schedule-Kept weight slot_count max_frames b.timing_wheel f delay v.wheel)

    pub refused-Placed :
        (b : Batch) (f : DelayedFrame) (delay : ℕ) (s : DataPlaneBatchStats) (p : ProcessedFrame)
        → BatchOk slot_count max_frames b
        → is_scheduled (schedule slot_count max_frames b.timing_wheel f delay).0 ≡ false
        → Placed slot_count max_frames weight (processed_weight weight p) b (
            drop_frame p (
              recount s (record b {
                timing_wheel = (schedule slot_count max_frames b.timing_wheel f delay).1;
              })))
    unfolding held
    refused-Placed b f delay s p v e =
        prepared-Placed slot_count max_frames weight (processed_weight weight p) b waiting
          (drop_frame p (recount s waiting)) same refl refl refl
          (drop_frame-Placed slot_count max_frames weight p s waiting
            (rescheduled-BatchOk b f delay v))
      where
        waiting : Batch
        waiting = record b {
          timing_wheel = (schedule slot_count max_frames b.timing_wheel f delay).1;
        }

        less :
            wheel_weight weight (schedule slot_count max_frames b.timing_wheel f delay).1
            ≡ wheel_weight weight b.timing_wheel + 0
        less = rw e at (schedule-Kept weight slot_count max_frames b.timing_wheel f delay v.wheel)

        same : held weight waiting ≡ held weight b
        same = omega (arith, less)
