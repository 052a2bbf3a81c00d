-- ===== src/Control/Requests.antt =====
-- include/chronosx/protocol.hpp: what a request to ControlCore does to the rules, against the edits
-- of a list of at most `max_rules` rules.
use chronos_x.Base.{
  ℕ, ◌≡◌, refl, ap, ◌∙◌, List, [], ◌∷◌, arith, Option, none, some, ◌==◌, if◌then◌else◌, length,
  Bool-cases, inl, inr,
}
use chronos_x.Types.{StatUpdate}
use chronos_x.ChaosEngine.{ChaosRule}
use chronos_x.Protocol.{is_ok, Table, rules_of, new_table}
use chronos_x.Protocol.RuleTable.{IsValid}
use chronos_x.Protocol.Edits.{
  Edit, adds, removes, clears, edit, edit_list, Refines, edit-Refines, new_table-IsValid,
}
use chronos_x.Protocol.Codec.{DecodedMessage, decode_message, read_u32_be}
use chronos_x.Control.{
  Layout, ControlCore, opcode_byte, add_rule, remove_rule, clear_rules, new_core, handle_add_rule,
  handle_remove_rule, handle_message, handle,
}

module _ (rule_layout : Layout ChaosRule) where
  -- The edit that a decoded message asks for.
  unfoldable pub message_edit : DecodedMessage → Option Edit
  unfolding opcode_byte
  message_edit m =
      if m.header.opcode == opcode_byte add_rule
      then if length m.payload == rule_layout.size
        then some (adds (rule_layout.from_bytes m.payload))
        else none
      else if m.header.opcode == opcode_byte remove_rule
      then if length m.payload == 4 then some (removes (read_u32_be m.payload 0)) else none
      else if m.header.opcode == opcode_byte clear_rules
      then some clears
      else none

  -- The edit that the bytes of a request ask for: none where they do not decode.
  unfoldable pub request_edit : List ℕ → Option Edit
  unfolding message_edit is_ok
  request_edit request =
      let decoded = decode_message request in
      if is_ok decoded.status then message_edit decoded.message else none

  -- The rules after a request, and after a sequence of them.
  unfoldable pub rules_after : ℕ → Option Edit → List ChaosRule → List ChaosRule
  rules_after max_rules none rs = rs
  rules_after max_rules (some e) rs = (edit_list max_rules e rs).1

  unfoldable pub rules_after_all : ℕ → List (List ℕ × List ℕ) → List ChaosRule → List ChaosRule
  unfolding rules_after request_edit
  rules_after_all max_rules [] rs = rs
  rules_after_all max_rules ((request, response) ∷ calls) rs =
      rules_after_all max_rules calls (rules_after max_rules (request_edit request) rs)

  module _ (stats_layout : Layout StatUpdate) (max_rules : ℕ) where
    -- What the commands do to the table, as an edit of it.
    unfoldable pub table_after : Option Edit → Table → Table
    table_after none t = t
    table_after (some e) t = (edit max_rules e t).1

    handle_message-edit :
        (c : ControlCore) (m : DecodedMessage) (response : List ℕ)
        → (handle_message rule_layout stats_layout max_rules c m response).1
          ≡ record c { rule_table = table_after (message_edit m) c.rule_table }
    unfolding handle_message handle_add_rule handle_remove_rule message_edit table_after edit
        opcode_byte
    handle_message-edit c m response = ground arith

    pub handle-table :
        (c : ControlCore) (request response : List ℕ)
        → (handle rule_layout stats_layout max_rules c request response).1
          ≡ record c { rule_table = table_after (request_edit request) c.rule_table }
    unfolding handle request_edit table_after
    handle-table c request response = elim (Bool-cases (is_ok (decode_message request).status)) [
      | inl good ↦ rw good (handle_message-edit c (decode_message request).message response)
      | inr bad ↦ rw bad refl
    ]

    pub table_after-IsValid :
        (e : Option Edit) (t : Table)
        → IsValid max_rules t
        → IsValid max_rules (table_after e t)
          × (rules_of (table_after e t) ≡ rules_after max_rules e (rules_of t))
    unfolding table_after rules_after Refines
    table_after-IsValid none t v = (v, refl)
    table_after-IsValid (some e) t v = let r = edit-Refines max_rules e t v in (r.0, r.2)

    -- A sequence of calls, each a request with the span for its response.
    unfoldable pub handle_all : ControlCore → List (List ℕ × List ℕ) → ControlCore
    handle_all c [] = c
    handle_all c ((request, response) ∷ calls) =
        handle_all (handle rule_layout stats_layout max_rules c request response).1 calls

    pub handle-rules :
        (c : ControlCore) (request response : List ℕ)
        → IsValid max_rules c.rule_table
        → let t = (handle rule_layout stats_layout max_rules c request response).1.rule_table in
          IsValid max_rules t
          × (rules_of t ≡ rules_after max_rules (request_edit request) (rules_of c.rule_table))
    handle-rules c request response v =
        rw (handle-table c request response)
          (table_after-IsValid (request_edit request) c.rule_table v)

    handle_all-rules :
        (c : ControlCore) (calls : List (List ℕ × List ℕ))
        → IsValid max_rules c.rule_table
        → IsValid max_rules (handle_all c calls).rule_table
          × (rules_of (handle_all c calls).rule_table
              ≡ rules_after_all max_rules calls (rules_of c.rule_table))
    unfolding handle_all rules_after_all
    handle_all-rules c [] v = (v, refl)
    handle_all-rules c ((request, response) ∷ calls) v =
        let (w, e) = handle-rules c request response v in
        let (w', e') =
          handle_all-rules (handle rule_layout stats_layout max_rules c request response).1 calls
            w in
        (w', e' ∙ ap (rules_after_all max_rules calls) e)

    -- After any calls of `handle` on a new core, the rules are those that the calls' requests make of
    -- no rules, one after the other: a request that decodes to a rule command with a payload of the
    -- command's size edits the list as the command says (an addition to a full list and a removal out
    -- of range change nothing), and every other request changes nothing. The table stays well formed.
    pub handle_all_refines :
        (calls : List (List ℕ × List ℕ))
        → let t = (handle_all (new_core rule_layout stats_layout max_rules) calls).rule_table in
          IsValid max_rules t × (rules_of t ≡ rules_after_all max_rules calls [])
    unfolding new_core new_table
    handle_all_refines calls =
        handle_all-rules (new_core rule_layout stats_layout max_rules) calls
          (new_table-IsValid max_rules)
