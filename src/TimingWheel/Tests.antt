-- ===== src/TimingWheel/Tests.antt =====
-- The wheel's theorems at concrete inputs, and runs of its methods.
use chronos_x.Base.{ℕ, suc, ◌+◌, ◌^◌, ◌<◌, ◌≡◌, refl, true, [], ◌∷◌, arith}
use chronos_x.Types.{is_power_of_two}
use chronos_x.TimingWheel.{
  DelayedFrame, TimingWheel, scheduled, delay_too_large, slot_full, no_frame, init, schedule, tick,
}
use chronos_x.TimingWheel.Invariant.{IsValid, init-IsValid}
use chronos_x.TimingWheel.Schedule.{schedule-IsValid}
use chronos_x.TimingWheel.Agenda.{agenda, answer, schedule_refines}
use chronos_x.TimingWheel.Delivery.{ticks, tick_refines, delivered_on_time}

abbrev packet : ℕ → DelayedFrame
packet a = record no_frame { frame_address = a; frame_length = 60 }

-- Four slots of two frames; a frame waits for tick 3.
abbrev waiting : TimingWheel
waiting = (schedule 4 2 (init 4 2) (packet 64) 3).1

power_four : is_power_of_two 4 ≡ true
unfolding is_power_of_two
power_four = refl

waiting_clock : waiting.current_tick ≡ 0
unfolding schedule init
waiting_clock = refl

fresh_room : (init 4 2).current_tick + 4 < 2 ^ 64
unfolding init
fresh_room = omega arith

waiting-IsValid : IsValid 4 2 waiting
waiting-IsValid =
    schedule-IsValid 4 2 (init 4 2) (packet 64) 3 fresh_room (init-IsValid 4 2 power_four)

schedule_refines_example : (schedule 4 2 waiting (packet 128) 3).0 ≡ answer 4 2 waiting 3
schedule_refines_example =
    (schedule_refines 4 2 waiting (packet 128) 3 (omega (arith, waiting_clock)) waiting-IsValid).0

tick_refines_example : (tick 4 2 waiting).0 ≡ agenda 4 2 waiting (suc waiting.current_tick)
tick_refines_example = (tick_refines 4 2 waiting (omega (arith, waiting_clock)) waiting-IsValid).0

answer-waiting : answer 4 2 waiting 3 ≡ scheduled
unfolding schedule init agenda
answer-waiting = refl

-- The second frame comes out behind the first, at the third tick.
delivered_on_time_example :
    (tick 4 2 (ticks 4 2 2 (schedule 4 2 waiting (packet 128) 3).1)).0
    ≡ record (packet 64) { release_tick = 3 } ∷ record (packet 128) { release_tick = 3 } ∷ []
unfolding agenda schedule init
delivered_on_time_example =
    delivered_on_time 4 2 waiting (packet 128) 3 2 (omega arith) (omega arith) waiting-IsValid refl

too_large : (schedule 4 2 waiting (packet 1) 5).0 ≡ delay_too_large
unfolding schedule init
too_large = refl

full : (schedule 4 2 (schedule 4 2 waiting (packet 1) 3).1 (packet 2) 3).0 ≡ slot_full
unfolding schedule init
full = refl
