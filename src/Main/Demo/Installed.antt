-- ===== src/Main/Demo/Installed.antt =====
-- src/main.cpp: rules that run_demo installs arrive in the table and in the snapshot.
use mathlib.Core.List.{append_assoc, append-nil}
use chronos_x.Base.{
  ℕ, ◌+◌, ◌^◌, ◌≤◌, ◌<◌, ◌≡◌, refl, sym, ap, ◌∙◌, List, [], ◌∷◌, ◌++◌, some, arith, take, length,
  length-append, length-replicate, replicate, All,
}
use chronos_x.Types.{StatUpdate}
use chronos_x.ChaosEngine.{ChaosRule}
use chronos_x.Protocol.{is_ok}
use chronos_x.Protocol.Edits.{adds, edit_list, new_table-IsValid}
use chronos_x.Protocol.Codec.{encode_message}
use chronos_x.Protocol.RoundTrip.{decode_message-encode_message}
use chronos_x.Control.{Layout, opcode_byte, add_rule, header_of}
use chronos_x.Control.Requests.{message_edit, request_edit, rules_after}
use chronos_x.ControlPlane.{ControlPlaneCore, rules, new_control_plane_core}
use chronos_x.ControlPlane.Snapshot.{IsPublished, handle_request-IsPublished, handle_request-rules}
use chronos_x.Main.Demo.{install_rule}

-- The bytes of a rule have the object's size and make the rule again, and its number has 32 bits.
pub record IsKept (layout : Layout ChaosRule) (rule : ChaosRule) : Type 0 where
  pub sized : length (layout.to_bytes rule) ≡ layout.size
  pub same : layout.from_bytes (layout.to_bytes rule) ≡ rule
  pub numbered : rule.id < 2 ^ 32

module _ (rule_layout : Layout ChaosRule) where
  -- The request for a rule.
  abbrev request : ChaosRule → List ℕ
  request rule =
      let (encoded, bytes) =
        encode_message (header_of add_rule rule.id) (rule_layout.to_bytes rule) (replicate 512 0) in
      take encoded.bytes_written bytes

  request_edit-request :
      (r : ChaosRule)
      → rule_layout.size ≤ 488
      → IsKept rule_layout r
      → request_edit rule_layout (request r) ≡ some (adds r)
  unfolding request_edit message_edit opcode_byte is_ok
  request_edit-request r fits kept =
      let (_, _, decoded) =
        decode_message-encode_message (header_of add_rule r.id) (rule_layout.to_bytes r)
          (replicate 512 0) kept.numbered (omega arith) (omega (arith, fits, kept.sized))
          (omega (arith, fits, kept.sized, length-replicate {A = ℕ} 512 0)) in
      rw (decoded, kept.sized, kept.same) (ground arith)

  module _ (stats_layout : Layout StatUpdate) (max_rules : ℕ) where
    -- The rules installed one after the other.
    unfoldable pub install_all : ControlPlaneCore → List ChaosRule → ControlPlaneCore
    install_all c [] = c
    install_all c (r ∷ rs) = install_all (install_rule rule_layout stats_layout max_rules c r) rs

    install_rule-IsPublished :
        (c : ControlPlaneCore) (r : ChaosRule)
        → rule_layout.size ≤ 488
        → IsKept rule_layout r
        → length (rules c) < max_rules
        → IsPublished rule_layout stats_layout max_rules c
        → let c' = install_rule rule_layout stats_layout max_rules c r in
          IsPublished rule_layout stats_layout max_rules c' × (rules c' ≡ rules c ++ r ∷ [])
    unfolding install_rule rules_after edit_list
    install_rule-IsPublished c r fits kept room v = (
      handle_request-IsPublished rule_layout stats_layout max_rules c (request r) (replicate 512 0)
          (omega (arith, length-replicate {A = ℕ} 512 0)) v,
      handle_request-rules rule_layout stats_layout max_rules c (request r) (replicate 512 0) v
          ∙ rw (request_edit-request r fits kept) (ground (arith, room)),
    )

    install_all-IsPublished :
        (c : ControlPlaneCore) (rs : List ChaosRule)
        → rule_layout.size ≤ 488
        → All (IsKept rule_layout) rs
        → length (rules c) + length rs ≤ max_rules
        → IsPublished rule_layout stats_layout max_rules c
        → let c' = install_all c rs in
          IsPublished rule_layout stats_layout max_rules c' × (rules c' ≡ rules c ++ rs)
    unfolding install_all
    install_all-IsPublished c [] fits kept room v = (v, sym (append-nil (rules c)))
    install_all-IsPublished c (r ∷ rs) fits (kept, all_kept) room v =
        let (w, more) = install_rule-IsPublished c r fits kept (omega (arith, room)) v in
        let (w', all) =
          install_all-IsPublished (install_rule rule_layout stats_layout max_rules c r) rs fits
            all_kept (omega (arith, room, ap length more, length-append (rules c) (r ∷ []))) w in
        (w', all ∙ ap (λ l. l ++ rs) more ∙ append_assoc (rules c) (r ∷ []) rs)

    -- For a layout under which an encoded rule fits the demonstration's arrays, rules whose bytes make them again,
    -- at most as many as the table holds, are installed one after the other on a new core: the table
    -- has exactly these rules, in this order, and so has the snapshot that the data plane loads.
    pub install_all_publishes :
        (rs : List ChaosRule)
        → rule_layout.size ≤ 488
        → All (IsKept rule_layout) rs
        → length rs ≤ max_rules
        → let c = install_all (new_control_plane_core rule_layout stats_layout max_rules) rs in
          (rules c ≡ rs) × (c.rule_snapshot ≡ rs)
    unfolding IsPublished new_control_plane_core
    install_all_publishes rs fits kept room =
        let (v, e) =
          install_all-IsPublished (new_control_plane_core rule_layout stats_layout max_rules) rs
            fits kept (omega (arith, room)) (new_table-IsValid max_rules, refl) in
        (e, v.1 ∙ e)
