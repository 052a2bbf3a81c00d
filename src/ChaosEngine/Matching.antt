-- ===== src/ChaosEngine/Matching.antt =====
-- include/chronosx/chaos_engine.hpp: which packets a rule matches, and which rule decides.
use chronos_x.Base.{
  ℕ, true, List, [], ◌∷◌, ◌++◌, ◌≡◌, ◌≢◌, ◌⊎◌, ◌↔◌, inl, inr, refl, ap, sym, ◌∙◌, if◌then◌else◌,
  arith, All, Bool-cases,
}
use mathlib.Core.Bool.{true≢false}
use chronos_x.PacketParser.{PacketView, packet_ok}
use chronos_x.ChaosEngine.{
  ChaosRule, ChaosDecision, rule_matches_packet, rule_is_enabled, decide_packet, decide_packet_fast,
  decide_for_rule, decide_for_rule_fast, decide_with, pass_decision, stable_packet_hash,
  stable_flow_hash,
}
use chronos_x.ChaosEngine.Decision.{decision_of, decide_with_lem}

-- A criterion of 0 is a wildcard.
pub Admits : ℕ → ℕ → Type 0
Admits criterion field = (criterion ≡ 0) ⊎ (criterion ≡ field)

-- What it means for a rule to match: it is enabled, the packet is parsed, and each of its five criteria
-- is a wildcard or the packet's field.
pub record Matches (rule : ChaosRule) (packet : PacketView) : Type 0 where
  pub is_enabled : rule.enabled ≢ 0
  pub parsed : packet_ok packet ≡ true
  pub admits_source : Admits rule.src_ip packet.src_ip
  pub admits_destination : Admits rule.dst_ip packet.dst_ip
  pub admits_source_port : Admits rule.src_port packet.src_port
  pub admits_destination_port : Admits rule.dst_port packet.dst_port
  pub admits_protocol : Admits rule.protocol packet.ipv4_protocol

rule_matches_packet_sound :
    (r : ChaosRule) (p : PacketView) → rule_matches_packet r p ≡ true → Matches r p
unfolding rule_matches_packet Admits rule_is_enabled
rule_matches_packet_sound r p h = ground arith

rule_matches_packet_complete :
    (r : ChaosRule) (p : PacketView) → Matches r p → rule_matches_packet r p ≡ true
unfolding rule_matches_packet Admits rule_is_enabled
rule_matches_packet_complete r p h = ground (
  arith, h.is_enabled, h.parsed, h.admits_source, h.admits_destination, h.admits_source_port,
  h.admits_destination_port, h.admits_protocol,
)

-- A rule matches a packet exactly if it is enabled, the packet was parsed, and each of the rule's five
-- criteria is 0 or the packet's field.
pub rule_matches_packet_iff :
    (r : ChaosRule) (p : PacketView) → rule_matches_packet r p ≡ true ↔ Matches r p
rule_matches_packet_iff r p = (rule_matches_packet_sound r p, rule_matches_packet_complete r p)

-- The first rule of a list that matches a packet, where it stands.
pub record FirstMatch (p : PacketView) (rules : List ChaosRule) : Type 0 where
  pub before : List ChaosRule
  pub rule : ChaosRule
  pub after : List ChaosRule
  pub split : rules ≡ before ++ rule ∷ after
  pub passed_over : All (λ r. ¬ Matches r p) before
  pub matching : Matches rule p

-- A decision for a list of rules, by the hash that rolls for the first rule that matches.
pub Decides : (ChaosRule → PacketView → ℕ) → PacketView → List ChaosRule → ChaosDecision → Type 0
Decides hash_of p rules d =
    (All (λ r. ¬ Matches r p) rules × (d ≡ pass_decision))
    ⊎ ((m : FirstMatch p rules) × (d ≡ decision_of m.rule (hash_of m.rule p)))

-- A rule more in front, that does not match.
skipped :
    (h : ChaosRule → PacketView → ℕ) (p : PacketView) (r : ChaosRule) (rules : List ChaosRule)
    (d : ChaosDecision)
    → ¬ Matches r p
    → Decides h p rules d
    → Decides h p (r ∷ rules) d
unfolding Decides
skipped h p r rules d unmatched (inl (none_match, e)) = inl ((unmatched, none_match), e)
skipped h p r rules d unmatched (inr (m, e)) = inr (
  record {
    before = r ∷ m.before;
    rule = m.rule;
    after = m.after;
    split = ap (◌∷◌ r) m.split;
    passed_over = (unmatched, m.passed_over);
    matching = m.matching;
  },
  e,
)

-- A rule in front that matches, or does not.
decided :
    (h : ChaosRule → PacketView → ℕ) (p : PacketView) (r : ChaosRule) (rules : List ChaosRule)
    (d : ChaosDecision)
    → Decides h p rules d
    → Decides h p (r ∷ rules) (if rule_matches_packet r p then decide_with h r p else d)
unfolding Decides
decided h p r rules d rest = elim (Bool-cases (rule_matches_packet r p)) [
  | inl e ↦ rw e (
      inr (
        record {
          before = [];
          rule = r;
          after = rules;
          split = refl;
          passed_over = tt;
          matching = rule_matches_packet_sound r p e;
        },
        decide_with_lem h r p,
      ))
  | inr e ↦
      rw e (
        skipped h p r rules d (λ m. true≢false (sym (rule_matches_packet_complete r p m) ∙ e)) rest)
]

decide_packet-Decides :
    (p : PacketView) (rules : List ChaosRule)
    → Decides stable_packet_hash p rules (decide_packet p rules)
unfolding decide_packet decide_for_rule Decides
decide_packet-Decides p [] = inl (tt, refl)
decide_packet-Decides p (r ∷ rules) =
    decided stable_packet_hash p r rules (decide_packet p rules) (decide_packet-Decides p rules)

decide_packet_fast-Decides :
    (p : PacketView) (rules : List ChaosRule)
    → Decides stable_flow_hash p rules (decide_packet_fast p rules)
unfolding decide_packet_fast decide_for_rule_fast Decides
decide_packet_fast-Decides p [] = inl (tt, refl)
decide_packet_fast-Decides p (r ∷ rules) =
    decided stable_flow_hash p r rules (decide_packet_fast p rules)
      (decide_packet_fast-Decides p rules)

-- Each of the two decisions for a list of rules passes the packet with no rule if no rule matches it; otherwise
-- it is made for the first rule that matches: the rule acts if its action is not to pass and the
-- last four decimal digits of a hash are below its probability, of the packet's hash in one and of the
-- flow's hash in the other. A rule matches if it is enabled, the packet was parsed, and each of the five criteria
-- is 0 or the packet's field.
pub first_match-Decides :
    (p : PacketView) (rules : List ChaosRule)
    → Decides stable_packet_hash p rules (decide_packet p rules)
      × Decides stable_flow_hash p rules (decide_packet_fast p rules)
first_match-Decides p rules = (decide_packet-Decides p rules, decide_packet_fast-Decides p rules)
