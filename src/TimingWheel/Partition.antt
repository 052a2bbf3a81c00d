-- ===== src/TimingWheel/Partition.antt =====
-- The loop of `tick` is a stable partition of the slot: it moves the due frames to the expired
-- array and the others to the front of the slot, each in their order.
use mathlib.Core.List.{append_assoc, append-nil}
use chronos_x.Base.{
  ℕ, zero, suc, ◌+◌, ◌≤◌, ◌<◌, ◌≡◌, refl, sym, Bool, true, false, not, List, [], ◌∷◌, ◌++◌, arith,
  u64, u64_mod, leb, length, take, drop, get_or, filter_by, Bool-cases, inl, inr, ◌⊎◌, length-set,
  drop_next, drop-set_before, take-set_next,
}
use chronos_x.TimingWheel.{DelayedFrame, Sweep, no_frame, sweep, sweep_frame}

abbrev pub due : ℕ → DelayedFrame → Bool
due now f = leb f.release_tick now

abbrev pub expiring : ℕ → List DelayedFrame → List DelayedFrame
expiring now = filter_by (due now)

abbrev pub staying : ℕ → List DelayedFrame → List DelayedFrame
staying now = filter_by (λ f. not (due now f))

-- What the loop, begun at `s`, has done with the frames `xs` when it ends at `t`.
pub record Swept (now : ℕ) (s : Sweep) (xs : List DelayedFrame) (t : Sweep) : Type 0 where
  pub frames_size : length t.frames ≡ length s.frames
  pub expired_size : length t.expired ≡ length s.expired
  pub out_count : t.expired_count ≡ s.expired_count + length (expiring now xs)
  pub kept_size : t.kept_count ≡ s.kept_count + length (staying now xs)
  pub out : take t.expired_count t.expired ≡ take s.expired_count s.expired ++ expiring now xs
  pub kept : take t.kept_count t.frames ≡ take s.kept_count s.frames ++ staying now xs
  pub pending : s.pending_count ≡ u64 (t.pending_count + length (expiring now xs))
  pub pending_word : t.pending_count < u64_mod

module _ (now : ℕ) where
  Swept-nil : (s : Sweep) → s.pending_count < u64_mod → Swept now s [] s
  Swept-nil s h = record {
    frames_size = refl;
    expired_size = refl;
    out_count = omega arith;
    kept_size = omega arith;
    out = sym (append-nil _);
    kept = sym (append-nil _);
    pending = omega arith;
    pending_word = h;
  }

  -- One frame more at the front.
  Swept-due :
      (s t : Sweep) (f : DelayedFrame) (xs : List DelayedFrame)
      → due now f ≡ true
      → s.expired_count < length s.expired
      → s.pending_count < u64_mod
      → Swept now (sweep_frame now f s) xs t
      → Swept now s (f ∷ xs) t
  unfolding sweep_frame
  Swept-due s t f xs d room w v = ground (
    arith,
    take-set_next s.expired_count s.expired f,
    append_assoc (take s.expired_count s.expired) (f ∷ []) (expiring now xs),
    length-set s.expired s.expired_count f,
  )

  Swept-kept :
      (s t : Sweep) (f : DelayedFrame) (xs : List DelayedFrame)
      → due now f ≡ false
      → s.kept_count < length s.frames
      → Swept now (sweep_frame now f s) xs t
      → Swept now s (f ∷ xs) t
  unfolding sweep_frame
  Swept-kept s t f xs d room v = ground (
    arith,
    take-set_next s.kept_count s.frames f,
    append_assoc (take s.kept_count s.frames) (f ∷ []) (staying now xs),
    length-set s.frames s.kept_count f,
  )

  -- What one round leaves for the rounds after it.
  record Ready (n index : ℕ) (s : Sweep) : Type 0 where
    in_slot : index + n ≤ length s.frames
    behind : s.kept_count ≤ index
    room : s.expired_count + n ≤ length s.expired
    word : s.pending_count < u64_mod

  sweep_frame-Ready :
      (n index : ℕ) (s : Sweep) (f : DelayedFrame)
      → Ready (suc n) index s
      → Ready n (suc index) (sweep_frame now f s)
  unfolding sweep_frame
  sweep_frame-Ready n index s f r =
      ground (arith, length-set s.frames s.kept_count f, length-set s.expired s.expired_count f)

  drop-sweep_frame :
      (index : ℕ) (s : Sweep) (f : DelayedFrame)
      → s.kept_count ≤ index
      → drop (suc index) (sweep_frame now f s).frames ≡ drop (suc index) s.frames
  unfolding sweep_frame
  drop-sweep_frame index s f h = ground (arith, drop-set_before index s.kept_count s.frames f)

  sweep-Swept_of_Ready :
      (n index : ℕ) (s : Sweep)
      → Ready n index s
      → Swept now s (take n (drop index s.frames)) (sweep now n index s)
  unfolding sweep
  sweep-Swept_of_Ready zero index s r = Swept-nil s r.word
  sweep-Swept_of_Ready (suc n) index s r =
      rw (drop_next index s.frames no_frame (omega arith), ← drop-sweep_frame index s f r.behind)
        (cons (Bool-cases (due now f)) (
          sweep-Swept_of_Ready n (suc index) (sweep_frame now f s)
            (sweep_frame-Ready n index s f r)))
    where
      f : DelayedFrame
      f = get_or s.frames index no_frame

      cons :
          {t : Sweep} {xs : List DelayedFrame}
          → (due now f ≡ true) ⊎ (due now f ≡ false)
          → Swept now (sweep_frame now f s) xs t
          → Swept now s (f ∷ xs) t
      cons (inl d) v = Swept-due s _ f _ d (omega (arith, r.room)) r.word v
      cons (inr d) v = Swept-kept s _ f _ d (omega (arith, r.in_slot, r.behind)) v

  -- The loop from `index` on partitions the `n` frames that stand there.
  pub sweep-Swept :
      (n index : ℕ) (s : Sweep)
      → index + n ≤ length s.frames
      → s.kept_count ≤ index
      → s.expired_count + n ≤ length s.expired
      → s.pending_count < u64_mod
      → Swept now s (take n (drop index s.frames)) (sweep now n index s)
  sweep-Swept n index s p q r w = sweep-Swept_of_Ready n index s (omega arith)
