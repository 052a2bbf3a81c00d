-- ===== src/ChaosEngine/Decision.antt =====
-- include/chronosx/chaos_engine.hpp: what a decision for one rule is.
use chronos_x.Base.{
  ℕ, ◌%◌, Bool, not, ◌&&◌, ◌≡◌, inl, inr, refl, ltb, ◌==◌, if◌then◌else◌, arith, Bool-cases,
}
use chronos_x.Types.{pass}
use chronos_x.PacketParser.{PacketView}
use chronos_x.ChaosEngine.{
  ChaosRule, ChaosDecision, decide_with, pass_from_rule, applied_decision, clamp_probability,
  is_pass, is_delay,
}

-- Whether a rule acts: a share of `probability` rolls in 10000, none at 0 and all from 10000 on.
pub fires : ChaosRule → ℕ → Bool
fires rule hash = not (is_pass rule.action) && ltb (hash % 10000) rule.probability

-- Whether the hash is asked at all.
pub rolls : ChaosRule → Bool
rolls rule = not (is_pass rule.action) && not (rule.probability == 0) && ltb rule.probability 10000

-- The decision as a table of its fields.
pub decision_of : ChaosRule → ℕ → ChaosDecision
decision_of rule hash = record {
  hash = if rolls rule then hash else 0;
  delay_ns = if fires rule hash && is_delay rule.action then rule.delay_ns else 0;
  rule_id = rule.id;
  roll = if rolls rule then hash % 10000 else 0;
  action = if fires rule hash then rule.action else pass;
  matched_rule = 1;
}

-- A rule whose action is to pass, or whose probability is 0, passes with no roll. With probability 10000
-- or more it acts with no roll. In between it acts on the packets whose hash, by its last four decimal digits,
-- is below the probability.
pub decide_with_lem :
    (h : ChaosRule → PacketView → ℕ) (r : ChaosRule) (p : PacketView)
    → decide_with h r p ≡ decision_of r (h r p)
unfolding decide_with fires rolls decision_of pass_from_rule applied_decision clamp_probability
decide_with_lem h r p = elim (Bool-cases (is_pass r.action)) [
  | inl e ↦ rw e refl
  | inr e ↦ ground (arith, e)
]
