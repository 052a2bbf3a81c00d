-- ===== src/Protocol.antt =====
-- include/chronosx/protocol.hpp, its class RuleTable: the rules that the control commands edit. The
-- codec of the same header is in Codec.
-- The array is a list of its full length, `max_rules`; the entries behind `count` are kept.
pub mod RuleTable
pub mod Edits
pub mod Codec
pub mod Peel
pub mod Encode
mod Checksum
pub mod Header
pub mod Decode
pub mod RoundTrip
mod Tests
use chronos_x.Base.{
  Bool, true, false, ℕ, zero, suc, ◌-◌, List, leb, if◌then◌else◌, get_or, set, replicate, take,
}
use chronos_x.Types.{pass}
use chronos_x.ChaosEngine.{ChaosRule}

pub data ProtocolStatus : Type 0 where
  ok buffer_too_small payload_too_large invalid_magic invalid_version truncated_payload crc_mismatch
        unknown_opcode invalid_payload rule_table_full rule_index_out_of_range :
      ProtocolStatus

-- `status == ProtocolStatus::Ok`
unfoldable pub is_ok : ProtocolStatus → Bool
is_ok ok = true
is_ok status = false

-- `ChaosRule{}`
abbrev pub no_rule : ChaosRule
no_rule = record {
  seed = 0;
  delay_ns = 0;
  id = 0;
  src_ip = 0;
  dst_ip = 0;
  src_port = 0;
  dst_port = 0;
  probability = 0;
  protocol = 0;
  action = pass;
  enabled = 1;
}

pub record Table : Type 0 where
  pub rules : List ChaosRule
  pub count : ℕ

-- The loop of `remove_at`, `n` rounds from `current` on.
unfoldable pub shift_loop : ℕ → ℕ → List ChaosRule → List ChaosRule
shift_loop zero current rules = rules
shift_loop (suc n) current rules =
    shift_loop n (suc current) (set rules (current - 1) (get_or rules current no_rule))

-- The loop of `clear`, `n` rounds from `index` on.
unfoldable pub clear_loop : ℕ → ℕ → List ChaosRule → List ChaosRule
clear_loop zero index rules = rules
clear_loop (suc n) index rules = clear_loop n (suc index) (set rules index no_rule)

-- `rules()`, the span of the first `count` entries.
abbrev pub rules_of : Table → List ChaosRule
rules_of t = take t.count t.rules

module _ (max_rules : ℕ) where
  unfoldable pub new_table : Table
  new_table = record { rules = replicate max_rules no_rule; count = 0 }

  unfoldable pub add : Table → ChaosRule → ProtocolStatus × Table
  add t rule =
      if leb max_rules t.count
      then (rule_table_full, t)
      else (ok, record { rules = set t.rules t.count rule; count = suc t.count })

  unfoldable pub remove_at : Table → ℕ → ProtocolStatus × Table
  unfolding shift_loop
  remove_at t index = if leb t.count index then (rule_index_out_of_range, t) else (
    ok,
    record {
      rules = set (shift_loop (t.count - suc index) (suc index) t.rules) (t.count - 1) no_rule;
      count = t.count - 1;
    },
  )

  unfoldable pub clear : Table → Table
  unfolding clear_loop
  clear t = record { rules = clear_loop t.count 0 t.rules; count = 0 }
