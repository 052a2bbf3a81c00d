-- ===== src/DataPlane/Placed.antt =====
-- include/chronosx/data_plane.hpp: where a frame goes: the notion of a step that puts a frame in one
-- place, and the two output spans.
use chronos_x.Base.{
  ℕ, suc, ◌+◌, ◌<◌, ◌≤◌, ◌≡◌, refl, ◌∙◌, Option, arith, length, take, ltb, leb, Bool-cases, inl,
  inr, u64_mod, length-set,
}
use chronos_x.PacketParser.{PacketView}
use chronos_x.ChaosEngine.{ChaosDecision}
use chronos_x.TimingWheel.Invariant.{IsValid}
use chronos_x.Umem.{PacketDescriptor}
use chronos_x.DataPlane.{
  Batch, ProcessedFrame, DataPlaneBatchStats, append_recycle, append_tx, drop_frame, forward,
  processed_frame, increment,
}
use chronos_x.DataPlane.Wheel.{weigh, weigh-set_next, wheel_weight}

-- A batch with other counters.
abbrev pub recount : DataPlaneBatchStats → Batch → Batch
recount s b = record b { result = record b.result { stats = s } }

module _ (weight : ℕ → ℕ) where
  abbrev pub processed_weight : ProcessedFrame → ℕ
  processed_weight p = weight p.frame_address

  abbrev pub descriptor_weight : PacketDescriptor → ℕ
  descriptor_weight d = weight d.frame_address

  -- The frames sent, those recycled and those in the wheel.
  unfoldable pub held : Batch → ℕ
  held b =
      weigh processed_weight (take b.result.tx_count b.tx_output)
      + weigh processed_weight (take b.result.recycle_count b.recycle_output)
      + wheel_weight weight b.timing_wheel

module _ (slot_count max_frames : ℕ) where
  -- A batch whose wheel is valid and not within a turn of its clock's end, and whose counts fit their spans.
  pub record BatchOk (b : Batch) : Type 0 where
    pub wheel : IsValid slot_count max_frames b.timing_wheel
    pub clock : b.timing_wheel.current_tick + slot_count < u64_mod
    pub tx_fits : b.result.tx_count ≤ length b.tx_output
    pub recycle_fits : b.result.recycle_count ≤ length b.recycle_output

  pub recount-BatchOk : (s : DataPlaneBatchStats) (b : Batch) → BatchOk b → BatchOk (recount s b)
  recount-BatchOk s b v = record {
    wheel = v.wheel;
    clock = v.clock;
    tx_fits = v.tx_fits;
    recycle_fits = v.recycle_fits;
  }

  module _ (weight : ℕ → ℕ) where
    -- From `b` to `c`, a frame of weight `w` is put in one place, or in none if the spans are full.
    pub record Placed (w : ℕ) (b c : Batch) : Type 0 where
      pub valid : BatchOk c
      pub at_most : held weight c ≤ held weight b + w
      pub exactly :
          b.result.recycle_count < length b.recycle_output → held weight c ≡ held weight b + w
      pub recycled : c.result.recycle_count ≤ suc b.result.recycle_count
      pub same_tx : length c.tx_output ≡ length b.tx_output
      pub same_recycle : length c.recycle_output ≡ length b.recycle_output

    append_recycle-Placed :
        (p : ProcessedFrame) (b : Batch)
        → BatchOk b
        → Placed (processed_weight weight p) b (append_recycle p b).1
    unfolding append_recycle held
    append_recycle-Placed p b v =
        elim (Bool-cases (leb (length b.recycle_output) b.result.recycle_count)) [
          | inl full ↦ rw full (record {
            valid = record {
              wheel = v.wheel;
              clock = v.clock;
              tx_fits = v.tx_fits;
              recycle_fits = v.recycle_fits;
            };
            at_most = omega arith;
            exactly = λ h. ground arith;
            recycled = omega arith;
            same_tx = refl;
            same_recycle = refl;
          })
          | inr room ↦ rw room (
              let next =
                weigh-set_next (processed_weight weight) b.recycle_output b.result.recycle_count p
                  (ground arith) in
              record {
                valid = record {
                  wheel = v.wheel;
                  clock = v.clock;
                  tx_fits = v.tx_fits;
                  recycle_fits =
                      ground (arith, length-set b.recycle_output b.result.recycle_count p);
                };
                at_most = omega arith;
                exactly = λ h. omega arith;
                recycled = omega arith;
                same_tx = refl;
                same_recycle = length-set b.recycle_output b.result.recycle_count p;
              })
        ]

    -- Other counters, memory and a wheel with the same frames make no difference to the step after them.
    pub prepared-Placed :
        (w : ℕ) (b b' c : Batch)
        → held weight b' ≡ held weight b
        → b'.result.recycle_count ≡ b.result.recycle_count
        → length b'.tx_output ≡ length b.tx_output
        → length b'.recycle_output ≡ length b.recycle_output
        → Placed w b' c
        → Placed w b c
    prepared-Placed w b b' c h r t l p = record {
      valid = p.valid;
      at_most = omega (arith, h, p.at_most);
      exactly = λ q. omega (arith, h, p.exactly (omega arith));
      recycled = omega (arith, p.recycled, r);
      same_tx = p.same_tx ∙ t;
      same_recycle = p.same_recycle ∙ l;
    }

    pub drop_frame-Placed :
        (p : ProcessedFrame) (s : DataPlaneBatchStats) (b : Batch)
        → BatchOk b
        → Placed (processed_weight weight p) b (drop_frame p (recount s b))
    unfolding held
    drop_frame-Placed p s b v =
        prepared-Placed (processed_weight weight p) b (recount dropped b)
          (append_recycle p (recount dropped b)).1 refl refl refl refl
          (append_recycle-Placed p (recount dropped b) (recount-BatchOk dropped b v))
      where
        dropped : DataPlaneBatchStats
        dropped = record s { packets_dropped = increment s.packets_dropped }

    append_tx-Placed :
        (p : ProcessedFrame) (b : Batch)
        → BatchOk b
        → Placed (processed_weight weight p) b (append_tx p b)
    unfolding append_tx held
    append_tx-Placed p b v = elim (Bool-cases (ltb b.result.tx_count (length b.tx_output))) [
      | inr full ↦ rw full (
          drop_frame-Placed p
            (record b.result.stats { output_overflows = increment b.result.stats.output_overflows })
            b v)
      | inl room ↦ rw room (
          let next =
            weigh-set_next (processed_weight weight) b.tx_output b.result.tx_count p
              (ground arith) in
          record {
            valid = record {
              wheel = v.wheel;
              clock = v.clock;
              recycle_fits = v.recycle_fits;
              tx_fits = ground (arith, length-set b.tx_output b.result.tx_count p);
            };
            at_most = omega arith;
            exactly = λ h. omega arith;
            recycled = omega arith;
            same_recycle = refl;
            same_tx = length-set b.tx_output b.result.tx_count p;
          })
    ]

    pub forward-Placed :
        (d : PacketDescriptor) (frame : Option ℕ) (packet : PacketView) (decision : ChaosDecision)
        (b : Batch)
        → BatchOk b
        → Placed (weight d.frame_address) b (forward d frame packet decision b)
    unfolding forward held
    forward-Placed d frame packet decision b v =
        prepared-Placed (weight d.frame_address) b _ _ refl refl refl refl (
          append_tx-Placed (processed_frame d decision) _ (record {
            wheel = v.wheel;
            clock = v.clock;
            tx_fits = v.tx_fits;
            recycle_fits = v.recycle_fits;
          }))
