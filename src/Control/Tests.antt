-- ===== src/Control/Tests.antt =====
-- The control core at concrete requests.
use chronos_x.Base.{◌≡◌, refl, [], ◌∷◌, some}
use chronos_x.Protocol.{rules_of, invalid_payload, unknown_opcode}
use chronos_x.Protocol.Codec.{decode_message}
use chronos_x.Protocol.RuleTable.{IsValid}
use chronos_x.Protocol.Edits.{clears, edit_list}
use chronos_x.Control.{ping, pong, add_rule, clear_rules, new_core, handle}
use chronos_x.Control.LittleEndian.{rule_layout, stats_layout}
use chronos_x.Control.Requests.{request_edit, rules_after_all, handle_all, handle_all_refines}
use chronos_x.Control.Samples.{cleared_response, request, a_rule, add_request, calls}

handle_all_refines_example :
    let t =
      (handle_all rule_layout stats_layout 2
        (new_core rule_layout stats_layout 2)
        calls).rule_table in
    IsValid 2 t × (rules_of t ≡ rules_after_all rule_layout 2 calls [])
handle_all_refines_example = handle_all_refines rule_layout stats_layout 2 calls

one_rule_stays : rules_after_all rule_layout 2 calls [] ≡ a_rule ∷ []
unfolding rules_after_all add_request request rule_layout decode_message edit_list
one_rule_stays = refl

clear_asked : request_edit rule_layout (request clear_rules []) ≡ some clears
unfolding request_edit request decode_message rule_layout
clear_asked = refl

wrong_payload :
    (handle rule_layout stats_layout 2
      (new_core rule_layout stats_layout 2)
      (request add_rule (1 ∷ []))
      cleared_response).0.0.status
    ≡ invalid_payload
unfolding handle request new_core rule_layout
wrong_payload = refl

pong_answers :
    (decode_message
      (handle rule_layout stats_layout 2
        (new_core rule_layout stats_layout 2)
        (request ping [])
        cleared_response).0.1).message.header.opcode
    ≡ 2
unfolding handle request new_core rule_layout decode_message
pong_answers = refl

not_a_request :
    (handle rule_layout stats_layout 2
      (new_core rule_layout stats_layout 2)
      (request pong [])
      cleared_response).0.0.status
    ≡ unknown_opcode
unfolding handle request new_core rule_layout
not_a_request = refl
