-- ===== src/ControlPlane/Snapshot.antt =====
-- include/chronosx/control_plane.hpp: the published rules against the rules of the table.
use chronos_x.Base.{
  ℕ, ◌≤◌, ◌≡◌, refl, sym, ap, ◌∙◌, List, [], ◌∷◌, some, Bool, true, false, ◌&&◌, arith, le→ltb,
  length, Bool-cases, Option-cases, All, inl, inr,
}
use chronos_x.Types.{StatUpdate}
use chronos_x.ChaosEngine.{ChaosRule}
use chronos_x.Protocol.{is_ok, rules_of}
use chronos_x.Protocol.RuleTable.{IsValid}
use chronos_x.Protocol.Edits.{new_table-IsValid, Edit, edit}
use chronos_x.Protocol.Codec.{DecodedMessage, decode_message, read_header}
use chronos_x.Protocol.Decode.{decoded_header}
use chronos_x.Control.{Layout, ControlCore, handle}
use chronos_x.Control.Requests.{
  message_edit, request_edit, rules_after, rules_after_all, table_after, handle-table, handle-rules,
}
use chronos_x.Control.Status.{edit_refused, handle-status}
use chronos_x.ControlPlane.{
  ControlPlaneCore, rules, peek_request_opcode, is_rule_mutating_request, publish_rules,
  new_control_plane_core, handle_request,
}

-- A request that decodes has its opcode at byte 3.
peek_request_opcode_decoded :
    (request : List ℕ)
    → is_ok (decode_message request).status ≡ true
    → peek_request_opcode request ≡ (decode_message request).message.header.opcode
unfolding peek_request_opcode read_header
peek_request_opcode_decoded request h =
    let (long, header) = decoded_header request h in
    rw (le→ltb (length request) 4 (omega (arith, long))) (sym (ap (λ h. h.opcode) header))

and_true : (a b : Bool) → b ≡ true → (a && b) ≡ false → a ≡ false
and_true a b p q = ground arith

module _ (rule_layout : Layout ChaosRule) (stats_layout : Layout StatUpdate) (max_rules : ℕ) where
  message_edit_mutates :
      (m : DecodedMessage) (e : Edit)
      → message_edit rule_layout m ≡ some e
      → is_rule_mutating_request m.header.opcode ≡ true
  unfolding message_edit is_rule_mutating_request
  message_edit_mutates m e h = ground arith

  request_edit_mutates :
      (request : List ℕ) (e : Edit)
      → request_edit rule_layout request ≡ some e
      → is_rule_mutating_request (peek_request_opcode request) ≡ true
  unfolding request_edit
  request_edit_mutates request e = elim (Bool-cases (is_ok (decode_message request).status)) [
    | inl good ↦ rw good λ h.
        ap is_rule_mutating_request (peek_request_opcode_decoded request good)
        ∙ message_edit_mutates (decode_message request).message e h
    | inr bad ↦ rw bad λ h. absurd (ground arith)
  ]

  -- A request that publishes nothing changes no rule.
  unpublished :
      (c : ControlCore) (request response : List ℕ)
      → 24 ≤ length response
      → let (reply, c') = handle rule_layout stats_layout max_rules c request response in
        (is_ok reply.0.status && is_rule_mutating_request (peek_request_opcode request)) ≡ false
        → c'.rule_table ≡ c.rule_table
  unfolding table_after
  unpublished c request response h q = elim (Option-cases (request_edit rule_layout request)) [
    | inl e ↦ whole ∙ ap (λ o. table_after rule_layout stats_layout max_rules o c.rule_table) e
    | inr (edit', e) ↦
        whole
        ∙ ap (λ o. table_after rule_layout stats_layout max_rules o c.rule_table) e
        ∙ edit_refused max_rules edit' c.rule_table (not_ok edit' e)
  ]
    where
      whole :
          (handle rule_layout stats_layout max_rules c request response).1.rule_table
          ≡ table_after rule_layout stats_layout max_rules
              (request_edit rule_layout request)
              c.rule_table
      whole =
          ap (λ d. d.rule_table)
            (handle-table rule_layout stats_layout max_rules c request response)

      not_ok :
          (e : Edit)
          → request_edit rule_layout request ≡ some e
          → is_ok (edit max_rules e c.rule_table).0 ≡ false
      not_ok e p =
          ap is_ok (sym (handle-status rule_layout stats_layout max_rules c request response e h p))
          ∙ and_true _ _ (request_edit_mutates request e p) q

  -- The table is well formed, and the snapshot is its list of rules.
  unfoldable pub IsPublished : ControlPlaneCore → Type 0
  IsPublished p = IsValid max_rules p.control.rule_table × (p.rule_snapshot ≡ rules p)

  pub handle_request-IsPublished :
      (p : ControlPlaneCore) (request response : List ℕ)
      → 24 ≤ length response
      → IsPublished p
      → IsPublished (handle_request rule_layout stats_layout max_rules p request response).1
  unfolding handle_request IsPublished publish_rules
  handle_request-IsPublished p request response h v =
      let (reply, c) = handle rule_layout stats_layout max_rules p.control request response in
      let valid =
        (handle-rules rule_layout stats_layout max_rules p.control request response v.0).0 in
      elim (Bool-cases
        (is_ok reply.0.status && is_rule_mutating_request (peek_request_opcode request))) [
          | inl e ↦ rw e (valid, refl)
          | inr e ↦
              rw e (valid, v.1 ∙ ap rules_of (sym (unpublished p.control request response h e)))
        ]

  pub handle_request-rules :
      (p : ControlPlaneCore) (request response : List ℕ)
      → IsPublished p
      → rules (handle_request rule_layout stats_layout max_rules p request response).1
        ≡ rules_after rule_layout max_rules (request_edit rule_layout request) (rules p)
  unfolding handle_request IsPublished publish_rules
  handle_request-rules p request response v =
      let (reply, c) = handle rule_layout stats_layout max_rules p.control request response in
      let after =
        (handle-rules rule_layout stats_layout max_rules p.control request response v.0).1 in
      elim (Bool-cases
        (is_ok reply.0.status && is_rule_mutating_request (peek_request_opcode request))) [
          | inl e ↦ rw e after
          | inr e ↦ rw e after
        ]

  -- A sequence of requests, each with the span for its response.
  unfoldable pub request_all : ControlPlaneCore → List (List ℕ × List ℕ) → ControlPlaneCore
  request_all p [] = p
  request_all p ((request, response) ∷ calls) =
      request_all (handle_request rule_layout stats_layout max_rules p request response).1 calls

  -- A response's span holds the shortest message.
  abbrev pub HasRoom : List ℕ × List ℕ → Type 0
  HasRoom call = 24 ≤ length call.1

  request_all-IsPublished :
      (p : ControlPlaneCore) (calls : List (List ℕ × List ℕ))
      → All HasRoom calls
      → IsPublished p
      → IsPublished (request_all p calls)
        × (rules (request_all p calls) ≡ rules_after_all rule_layout max_rules calls (rules p))
  unfolding request_all rules_after_all
  request_all-IsPublished p [] h v = (v, refl)
  request_all-IsPublished p ((request, response) ∷ calls) (room, h) v =
      let q : ControlPlaneCore =
        (handle_request rule_layout stats_layout max_rules p request response).1 in
      let (w, e) =
        request_all-IsPublished q calls h (handle_request-IsPublished p request response room v) in
      (
        w,
        e
            ∙ ap (rules_after_all rule_layout max_rules calls)
                (handle_request-rules p request response v),
      )

  -- After any requests with room for the shortest response, the snapshot that the data plane loads is
  -- the list of the table's rules, and both are what the requests make of no rules, one after the other.
  pub request_all_publishes :
      (calls : List (List ℕ × List ℕ))
      → All HasRoom calls
      → let p = request_all (new_control_plane_core rule_layout stats_layout max_rules) calls in
        (p.rule_snapshot ≡ rules p)
        × (p.rule_snapshot ≡ rules_after_all rule_layout max_rules calls [])
  unfolding IsPublished new_control_plane_core
  request_all_publishes calls h =
      let (v, e) =
        request_all-IsPublished (new_control_plane_core rule_layout stats_layout max_rules) calls h
          (new_table-IsValid max_rules, refl) in
      (v.1, v.1 ∙ e)
