-- ===== src/Runtime/Waiting.antt =====
-- include/chronosx/af_xdp_runtime.hpp: the frames that wait in the wheel, counted against the pool.
use chronos_x.Base.{
  ℕ, suc, ◌+◌, ◌<◌, ◌≡◌, refl, ap, List, [], ◌∷◌, All, arith, if◌then◌else◌, take, map, add64,
  u64_mod,
}
use chronos_x.FrameAllocator.{FrameAllocator}
use chronos_x.TimingWheel.{TimingWheel, DelayedFrame, Slot, tick, tick_at, slot_index, empty_slot}
use chronos_x.TimingWheel.Invariant.{entries, index-lt}
use chronos_x.TimingWheel.Invariant
use chronos_x.TimingWheel.Tick.{tick_at-Drained}
use chronos_x.DataPlane.{ProcessedFrame}
use chronos_x.DataPlane.Wheel.{weigh, weigh-set, frame_weight, slot_weight, wheel_weight}
use chronos_x.Runtime.{delayed_frame}
use chronos_x.Runtime.Custody.{Used, is_free_address}

module _ (weight : ℕ → ℕ) (slot_count max_frames : ℕ) where
  empty_entries : (s : Slot) → s.count ≡ 0 → slot_weight weight s ≡ 0
  unfolding slot_weight weigh
  empty_entries s e = ap (λ n. weigh (frame_weight weight) (take n s.frames)) e

  -- The frames that `tick` hands over are those that leave the wheel.
  pub tick-wheel_weight :
      (w : TimingWheel)
      → w.current_tick + 1 < u64_mod
      → Invariant.IsValid slot_count max_frames w
      → let (out, w') = tick slot_count max_frames w in
        weigh (frame_weight weight) out + wheel_weight weight w' ≡ wheel_weight weight w
  unfolding tick wheel_weight slot_weight
  tick-wheel_weight w c v =
      let now : ℕ = suc w.current_tick in
      let next : add64 w.current_tick 1 ≡ now = omega arith in
      let s = tick_at slot_count max_frames w now in
      let drained = tick_at-Drained slot_count max_frames w v in
      let left : Slot = record { frames = s.frames; count = s.kept_count } in
      rw next (
        omega (
          arith,
          ap (weigh (frame_weight weight)) drained.out,
          weigh-set weight w.slots (slot_index slot_count now) left (empty_slot max_frames)
              (index-lt slot_count max_frames w now v),
          empty_entries left drained.none_kept,
        ))

module _ (frame_count frame_size : ℕ) where
  -- One for the address of a free frame.
  unfoldable pub free_weight : FrameAllocator → ℕ → ℕ
  free_weight a address = if is_free_address frame_count frame_size a address then 1 else 0

  module _ {A : Type 0} (address : A → ℕ) (a : FrameAllocator) where
    pub weightless-Used :
        (xs : List A)
        → weigh (λ x. free_weight a (address x)) xs ≡ 0
        → All (λ x. Used frame_count frame_size a (address x)) xs
    unfolding weigh free_weight
    weightless-Used [] e = tt
    weightless-Used (x ∷ xs) e = (ground (arith, e), weightless-Used xs (omega (arith, e)))

    pub weigh-weightless :
        (xs : List A)
        → All (λ x. Used frame_count frame_size a (address x)) xs
        → weigh (λ x. free_weight a (address x)) xs ≡ 0
    unfolding weigh free_weight
    weigh-weightless [] u = refl
    weigh-weightless (x ∷ xs) (u, us) = rw u (omega (arith, weigh-weightless xs us))

  -- A wheel that holds no frame that is free.
  abbrev pub HoldsUsed : FrameAllocator → TimingWheel → Type 0
  HoldsUsed a w = wheel_weight (free_weight a) w ≡ 0

pub ticked :
    (slot_count max_frames : ℕ) (w : TimingWheel)
    → w.current_tick + 1 < u64_mod
    → (tick slot_count max_frames w).1.current_tick ≡ w.current_tick + 1
unfolding tick
ticked slot_count max_frames w c = omega (arith, c)

pub delayed-Used :
    (frame_count frame_size : ℕ) (a : FrameAllocator) (out : List DelayedFrame)
    → All (λ (f : DelayedFrame). Used frame_count frame_size a f.frame_address) out
    → All
        (λ (f : ProcessedFrame). Used frame_count frame_size a f.frame_address)
        (map delayed_frame out)
delayed-Used frame_count frame_size a [] u = tt
delayed-Used frame_count frame_size a (f ∷ out) (u, us) =
    (u, delayed-Used frame_count frame_size a out us)
