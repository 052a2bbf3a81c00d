-- ===== src/Protocol/RuleTable.antt =====
-- include/chronosx/protocol.hpp: the rule table's invariant, and the loops of its methods.
use chronos_x.Base.{
  ℕ, zero, suc, ◌+◌, ◌-◌, ◌<◌, ◌≤◌, ◌≡◌, refl, ◌∙◌, ◌&&◌, List, [], ◌∷◌, arith, ltb, leb,
  if◌then◌else◌, get_or, set, take, length, length-set, length-take, get_or-set, get_or_ext,
}
use chronos_x.ChaosEngine.{ChaosRule}
use chronos_x.Protocol.{Table, rules_of, no_rule, shift_loop, clear_loop}

-- The list without its entry at an index.
pub without : List ChaosRule → ℕ → List ChaosRule
without [] i = []
without (x ∷ xs) zero = xs
without (x ∷ xs) (suc i) = x ∷ without xs i

get_or-without :
    (xs : List ChaosRule) (k i : ℕ)
    → get_or (without xs k) i no_rule
      ≡ (if ltb i k then get_or xs i no_rule else get_or xs (suc i) no_rule)
unfolding without
get_or-without [] k i = ground arith
get_or-without (x ∷ xs) zero i = ground arith
get_or-without (x ∷ xs) (suc k) zero = ground arith
get_or-without (x ∷ xs) (suc k) (suc i) = ground (arith, get_or-without xs k i)

length-without :
    (xs : List ChaosRule) (k : ℕ) → k < length xs → suc (length (without xs k)) ≡ length xs
unfolding without
length-without [] k h = absurd (omega arith)
length-without (x ∷ xs) zero h = refl
length-without (x ∷ xs) (suc k) h = omega (arith, length-without xs k (omega arith))

get_or-take :
    (n : ℕ) (xs : List ChaosRule) (i : ℕ)
    → get_or (take n xs) i no_rule ≡ (if ltb i n then get_or xs i no_rule else no_rule)
get_or-take zero xs i = ground arith
get_or-take (suc n) [] i = ground arith
get_or-take (suc n) (x ∷ xs) zero = ground arith
get_or-take (suc n) (x ∷ xs) (suc i) = ground (arith, get_or-take n xs i)

length-shift_loop : (n c : ℕ) (rs : List ChaosRule) → length (shift_loop n c rs) ≡ length rs
unfolding shift_loop
length-shift_loop zero c rs = refl
length-shift_loop (suc n) c rs =
    length-shift_loop n (suc c) _ ∙ length-set rs (c - 1) (get_or rs c no_rule)

-- The loop moves the entries from `k + 1` to `k + n` down by one.
get_or-shift_loop :
    (n k : ℕ) (rs : List ChaosRule) (i : ℕ)
    → k + n < length rs
    → get_or (shift_loop n (suc k) rs) i no_rule
      ≡ (if leb k i && ltb i (k + n) then get_or rs (suc i) no_rule else get_or rs i no_rule)
unfolding shift_loop
get_or-shift_loop zero k rs i h = ground arith
get_or-shift_loop (suc n) k rs i h = ground (
  arith,
  get_or-shift_loop n (suc k) (set rs k (get_or rs (suc k) no_rule)) i,
  length-set rs k (get_or rs (suc k) no_rule),
  get_or-set rs k i (get_or rs (suc k) no_rule) no_rule,
  get_or-set rs k (suc i) (get_or rs (suc k) no_rule) no_rule,
)

module _ (max_rules : ℕ) where
  -- The array has its size, the count fits it, and the entries behind the count are empty.
  pub record IsValid (t : Table) : Type 0 where
    pub size : length t.rules ≡ max_rules
    pub bounded : t.count ≤ max_rules
    pub cleared : (i : ℕ) → t.count ≤ i → get_or t.rules i no_rule ≡ no_rule

  abbrev pub removed : Table → ℕ → List ChaosRule
  removed t k = set (shift_loop (t.count - suc k) (suc k) t.rules) (t.count - 1) no_rule

  pub get_or-removed :
      (t : Table) (k i : ℕ)
      → IsValid t
      → k < t.count
      → get_or (removed t k) i no_rule
        ≡ (if ltb i k then get_or t.rules i no_rule else get_or t.rules (suc i) no_rule)
  get_or-removed t k i v h = ground (
    arith,
    get_or-set (shift_loop (t.count - suc k) (suc k) t.rules) (t.count - 1) i no_rule no_rule,
    length-shift_loop (t.count - suc k) (suc k) t.rules,
    get_or-shift_loop (t.count - suc k) k t.rules i,
    v.size,
    v.bounded,
    v.cleared (suc i),
    v.cleared i,
  )

  pub length-removed : (t : Table) (k : ℕ) → IsValid t → length (removed t k) ≡ max_rules
  length-removed t k v =
      length-set _ (t.count - 1) no_rule
      ∙ length-shift_loop (t.count - suc k) (suc k) t.rules
      ∙ v.size

  pub rules_of-removed :
      (t : Table) (k : ℕ)
      → IsValid t
      → k < t.count
      → take (t.count - 1) (removed t k) ≡ without (rules_of t) k
  rules_of-removed t k v h = get_or_ext no_rule _ _ same_length (λ i lt. ground (
    arith,
    get_or-take (t.count - 1) (removed t k) i,
    get_or-removed t k i v h,
    get_or-without (rules_of t) k i,
    get_or-take t.count t.rules i,
    get_or-take t.count t.rules (suc i),
    length-take (t.count - 1) (removed t k),
    lt,
  ))
    where
      same_length : length (take (t.count - 1) (removed t k)) ≡ length (without (rules_of t) k)
      same_length = omega (
        arith,
        length-take (t.count - 1) (removed t k),
        length-removed t k v,
        length-without (rules_of t) k,
        length-take t.count t.rules,
        v.size,
        v.bounded,
      )

pub length-clear_loop : (n k : ℕ) (rs : List ChaosRule) → length (clear_loop n k rs) ≡ length rs
unfolding clear_loop
length-clear_loop zero k rs = refl
length-clear_loop (suc n) k rs = length-clear_loop n (suc k) _ ∙ length-set rs k no_rule

pub get_or-clear_loop :
    (n k : ℕ) (rs : List ChaosRule) (i : ℕ)
    → k + n ≤ length rs
    → get_or (clear_loop n k rs) i no_rule
      ≡ (if leb k i && ltb i (k + n) then no_rule else get_or rs i no_rule)
unfolding clear_loop
get_or-clear_loop zero k rs i h = ground arith
get_or-clear_loop (suc n) k rs i h = ground (
  arith,
  get_or-clear_loop n (suc k) (set rs k no_rule) i,
  length-set rs k no_rule,
  get_or-set rs k i no_rule no_rule,
)
