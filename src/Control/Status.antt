-- ===== src/Control/Status.antt =====
-- include/chronosx/protocol.hpp: the status of the reply to a command that edits the rules.
use chronos_x.Base.{
  ℕ, ◌≤◌, ◌≡◌, refl, sym, ap, ◌∙◌, List, arith, some, true, false, le→ltb, ◌!=◌, ◌⊎◌, length,
  Bool-cases, inl, inr,
}
use chronos_x.Types.{StatUpdate}
use chronos_x.ChaosEngine.{ChaosRule}
use chronos_x.Protocol.{is_ok, ProtocolStatus, ok, Table, add, remove_at}
use chronos_x.Protocol.Edits.{Edit, adds, removes, clears, edit}
use chronos_x.Protocol.Codec.{DecodedMessage, encode_message, decode_message, read_u32_be}
use chronos_x.Control.{
  Layout, ControlCore, pong, encode_empty, encode_error, answer_edit, handle_add_rule,
  handle_remove_rule, handle_message, handle,
}
use chronos_x.Control.Requests.{message_edit, request_edit}

pub encode_empty-ok :
    (sequence : ℕ) (response : List ℕ)
    → 24 ≤ length response
    → (encode_empty pong sequence response).0.status ≡ ok
unfolding encode_empty encode_message
encode_empty-ok sequence response h = rw (le→ltb (length response) 24 h) refl

!=_false : (a b : ℕ) → a ≡ b → (a != b) ≡ false
!=_false a b h = ground arith

pub is_ok_lem : (s : ProtocolStatus) → is_ok s ≡ true → s ≡ ok
unfolding is_ok
is_ok_lem ok h = refl
is_ok_lem s h = ground arith

pub answer_edit-status :
    (s : ProtocolStatus) (sequence : ℕ) (response : List ℕ)
    → 24 ≤ length response
    → (answer_edit s sequence response).0.status ≡ s
unfolding answer_edit encode_error
answer_edit-status s sequence response h = elim (Bool-cases (is_ok s)) [
  | inl e ↦ rw e (encode_empty-ok sequence response h ∙ sym (is_ok_lem s e))
  | inr e ↦ rw e refl
]

pub edit_refused :
    (max_rules : ℕ) (e : Edit) (t : Table)
    → is_ok (edit max_rules e t).0 ≡ false
    → (edit max_rules e t).1 ≡ t
unfolding edit add remove_at is_ok
edit_refused max_rules (adds r) t h = ground arith
edit_refused max_rules (removes k) t h = ground arith
edit_refused max_rules clears t h = ground arith

module _ (rule_layout : Layout ChaosRule) (stats_layout : Layout StatUpdate) (max_rules : ℕ) where
  handle_add_rule-status :
      (c : ControlCore) (m : DecodedMessage) (response : List ℕ)
      → 24 ≤ length response
      → length m.payload ≡ rule_layout.size
      → (handle_add_rule rule_layout stats_layout max_rules c m response).0.0.status
        ≡ (add max_rules c.rule_table (rule_layout.from_bytes m.payload)).0
  unfolding handle_add_rule
  handle_add_rule-status c m response h e =
      rw (!=_false (length m.payload) rule_layout.size e) (answer_edit-status _ _ response h)

  handle_remove_rule-status :
      (c : ControlCore) (m : DecodedMessage) (response : List ℕ)
      → 24 ≤ length response
      → length m.payload ≡ 4
      → (handle_remove_rule rule_layout stats_layout max_rules c m response).0.0.status
        ≡ (remove_at max_rules c.rule_table (read_u32_be m.payload 0)).0
  unfolding handle_remove_rule
  handle_remove_rule-status c m response h e =
      rw (!=_false (length m.payload) 4 e) (answer_edit-status _ _ response h)

  handle_message_add :
      (c : ControlCore) (m : DecodedMessage) (response : List ℕ)
      → m.header.opcode ≡ 0x20
      → handle_message rule_layout stats_layout max_rules c m response
        ≡ handle_add_rule rule_layout stats_layout max_rules c m response
  unfolding handle_message
  handle_message_add c m response e = rw e refl

  handle_message_remove :
      (c : ControlCore) (m : DecodedMessage) (response : List ℕ)
      → m.header.opcode ≡ 0x21
      → handle_message rule_layout stats_layout max_rules c m response
        ≡ handle_remove_rule rule_layout stats_layout max_rules c m response
  unfolding handle_message
  handle_message_remove c m response e = rw e refl

  handle_message_clear :
      (c : ControlCore) (m : DecodedMessage) (response : List ℕ)
      → m.header.opcode ≡ 0x22
      → (handle_message rule_layout stats_layout max_rules c m response).0
        ≡ encode_empty pong m.header.sequence response
  unfolding handle_message
  handle_message_clear c m response e = rw e refl

  message_edit_cases :
      (m : DecodedMessage) (e : Edit)
      → message_edit rule_layout m ≡ some e
      → ((m.header.opcode ≡ 0x20)
          × (length m.payload ≡ rule_layout.size)
          × (e ≡ adds (rule_layout.from_bytes m.payload)))
        ⊎ (((m.header.opcode ≡ 0x21)
              × (length m.payload ≡ 4)
              × (e ≡ removes (read_u32_be m.payload 0)))
            ⊎ ((m.header.opcode ≡ 0x22) × (e ≡ clears)))
  unfolding message_edit
  message_edit_cases m e h = ground arith

  handle_message-status :
      (c : ControlCore) (m : DecodedMessage) (response : List ℕ) (e : Edit)
      → 24 ≤ length response
      → message_edit rule_layout m ≡ some e
      → (handle_message rule_layout stats_layout max_rules c m response).0.0.status
        ≡ (edit max_rules e c.rule_table).0
  unfolding edit
  handle_message-status c m response e h q = elim (message_edit_cases m e q) [
    | inl (o, n, d) ↦
        ap (λ r. r.0.0.status) (handle_message_add c m response o)
        ∙ handle_add_rule-status c m response h n
        ∙ ap (λ x. (edit max_rules x c.rule_table).0) (sym d)
    | inr (inl (o, n, d)) ↦
        ap (λ r. r.0.0.status) (handle_message_remove c m response o)
        ∙ handle_remove_rule-status c m response h n
        ∙ ap (λ x. (edit max_rules x c.rule_table).0) (sym d)
    | inr (inr (o, d)) ↦
        ap (λ r. r.0.status) (handle_message_clear c m response o)
        ∙ encode_empty-ok m.header.sequence response h
        ∙ ap (λ x. (edit max_rules x c.rule_table).0) (sym d)
  ]

  -- The reply's status is that of the edit the request asks for.
  pub handle-status :
      (c : ControlCore) (request response : List ℕ) (e : Edit)
      → 24 ≤ length response
      → request_edit rule_layout request ≡ some e
      → (handle rule_layout stats_layout max_rules c request response).0.0.status
        ≡ (edit max_rules e c.rule_table).0
  unfolding handle request_edit
  handle-status c request response e h = elim (Bool-cases (is_ok (decode_message request).status)) [
    | inl good ↦ rw good (handle_message-status c (decode_message request).message response e h)
    | inr bad ↦ rw bad (λ q. absurd (ground arith))
  ]
