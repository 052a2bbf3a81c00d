-- ===== src/Protocol/Edits.antt =====
-- include/chronosx/protocol.hpp: the rule table against a list of at most `max_rules` rules.
use chronos_x.Base.{
  ℕ, suc, ◌≡◌, refl, ap, ap₂, ◌∙◌, List, [], ◌∷◌, ◌++◌, arith, leb, if◌then◌else◌, length,
  length-set, length-take, length-replicate, get_or-replicate, get_or-set, take-set_next,
  Bool-cases, inl, inr,
}
use chronos_x.ChaosEngine.{ChaosRule}
use chronos_x.Protocol.RuleTable.{
  IsValid, without, get_or-removed, length-removed, rules_of-removed, length-clear_loop,
  get_or-clear_loop,
}
use chronos_x.Protocol.{
  ProtocolStatus, ok, rule_table_full, rule_index_out_of_range, Table, rules_of, no_rule, new_table,
  add, remove_at, clear,
}

-- The commands' edits.
pub data Edit : Type 0 where
  adds : ChaosRule → Edit
  removes : ℕ → Edit
  clears : Edit

-- The edits of a list of at most `max_rules` rules, with their answers.
unfoldable pub edit_list : ℕ → Edit → List ChaosRule → ProtocolStatus × List ChaosRule
edit_list max_rules (adds r) rs =
    if leb max_rules (length rs) then (rule_table_full, rs) else (ok, rs ++ r ∷ [])
edit_list max_rules (removes k) rs =
    if leb (length rs) k then (rule_index_out_of_range, rs) else (ok, without rs k)
edit_list max_rules clears rs = (ok, [])

unfoldable pub edit_lists : ℕ → List Edit → List ChaosRule → List ProtocolStatus × List ChaosRule
unfolding edit_list
edit_lists max_rules [] rs = ([], rs)
edit_lists max_rules (e ∷ es) rs =
    let (s, rs') = edit_list max_rules e rs in
    let (ss, rs'') = edit_lists max_rules es rs' in (s ∷ ss, rs'')

module _ (max_rules : ℕ) where
  -- `clear` answers nothing; its command is always answered by `Ok`.
  unfoldable pub edit : Edit → Table → ProtocolStatus × Table
  edit (adds r) t = add max_rules t r
  edit (removes k) t = remove_at max_rules t k
  edit clears t = (ok, clear max_rules t)

  pub edits : List Edit → Table → List ProtocolStatus × Table
  unfolding edit
  edits [] t = ([], t)
  edits (e ∷ es) t = let (s, t') = edit e t in let (ss, t'') = edits es t' in (s ∷ ss, t'')

  pub new_table-IsValid : IsValid max_rules (new_table max_rules)
  unfolding new_table
  new_table-IsValid = record {
    size = length-replicate max_rules no_rule;
    bounded = omega arith;
    cleared = λ i h. get_or-replicate max_rules i no_rule;
  }

  -- An edit on the table and on its list of rules.
  unfoldable pub Refines : Edit → Table → Type 0
  Refines e t =
      IsValid max_rules (edit e t).1
      × ((edit e t).0 ≡ (edit_list max_rules e (rules_of t)).0)
      × (rules_of (edit e t).1 ≡ (edit_list max_rules e (rules_of t)).1)

  length-rules_of : (t : Table) → IsValid max_rules t → length (rules_of t) ≡ t.count
  length-rules_of t v = omega (arith, length-take t.count t.rules, v.size, v.bounded)

  pub edit-Refines : (e : Edit) (t : Table) → IsValid max_rules t → Refines e t
  unfolding Refines edit edit_list add remove_at clear
  edit-Refines (adds r) t v = elim (Bool-cases (leb max_rules t.count)) [
    | inl full ↦ rw (length-rules_of t v, full) (v, refl, refl)
    | inr room ↦
        rw (length-rules_of t v, room)
          (
            record {
              size = length-set t.rules t.count r ∙ v.size;
              bounded = ground arith;
              cleared = λ i h.
                  ground (arith, get_or-set t.rules t.count i r no_rule, v.cleared i, v.size);
            },
            refl,
            take-set_next t.count t.rules r (ground (arith, v.size)),
          )
  ]
  edit-Refines (removes k) t v = elim (Bool-cases (leb t.count k)) [
    | inl out ↦ rw (length-rules_of t v, out) (v, refl, refl)
    | inr inside ↦
        rw (length-rules_of t v, inside)
          (
            record {
              size = length-removed max_rules t k v;
              bounded = omega (arith, v.bounded);
              cleared = λ i h.
                  ground (arith, get_or-removed max_rules t k i v, v.cleared (suc i), inside);
            },
            refl,
            rules_of-removed max_rules t k v (ground arith),
          )
  ]
  edit-Refines clears t v = (
    record {
      size = length-clear_loop t.count 0 t.rules ∙ v.size;
      bounded = omega arith;
      cleared = λ i h.
          ground (arith, get_or-clear_loop t.count 0 t.rules i, v.cleared i, v.size, v.bounded);
    },
    refl,
    refl,
  )

  edits-Refines :
      (es : List Edit) (t : Table)
      → IsValid max_rules t
      → IsValid max_rules (edits es t).1
        × ((edits es t).0 ≡ (edit_lists max_rules es (rules_of t)).0)
        × (rules_of (edits es t).1 ≡ (edit_lists max_rules es (rules_of t)).1)
  unfolding edits edit_lists Refines
  edits-Refines [] t v = (v, refl, refl)
  edits-Refines (e ∷ es) t v =
      let (w, answer, left) = edit-Refines e t v in
      let (w', answers, left') = edits-Refines es (edit e t).1 w in
      (
        w',
        ap₂ (λ x xs. x ∷ xs) answer (answers ∙ ap (λ l. (edit_lists max_rules es l).0) left),
        left' ∙ ap (λ l. (edit_lists max_rules es l).1) left,
      )

  -- Any sequence of `add`, `remove_at` and `clear` on a new table gives the answers, and leaves the rules, that the edits
  -- of a list of at most `max_rules` rules give and leave: additions at the end, removals by index with the later rules moved
  -- down. The entries behind the count are empty again.
  pub edits_refine :
      (es : List Edit)
      → let (answers, t) = edits es (new_table max_rules) in
        IsValid max_rules t
        × (answers ≡ (edit_lists max_rules es []).0)
        × (rules_of t ≡ (edit_lists max_rules es []).1)
  unfolding new_table
  edits_refine es = edits-Refines es (new_table max_rules) new_table-IsValid
