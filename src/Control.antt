-- ===== src/Control.antt =====
-- include/chronosx/protocol.hpp, its class ControlCore: the answers to the control commands, and what
-- they do to the rule table. The response span is a list of bytes that each call returns with what it wrote.
-- The object representations that `memcpy` and `reinterpret_cast` expose are the compiler's: they are
-- the two layouts that the definitions take.
pub mod LittleEndian
pub mod Samples
pub mod Requests
pub mod Status
mod Tests
use Prim.Native.Char.{code}
use Prim.Native.String.{String}
use chronos_x.Base.{ℕ, List, [], ◌∷◌, ◌++◌, Bool, true, false, ◌==◌, ◌!=◌, if◌then◌else◌, length}
use chronos_x.Types.{StatUpdate, stat_update_default}
use chronos_x.ChaosEngine.{ChaosRule}
use chronos_x.Protocol.{
  ProtocolStatus, is_ok, invalid_payload, unknown_opcode, Table, new_table, add, remove_at, clear,
  rules_of,
}
use chronos_x.Protocol.Codec.{
  MessageHeader, DecodedMessage, EncodeResult, no_header, encode_message, decode_message,
  read_u32_be,
}
use chronos_x.Names.{protocol_status_name}

pub data Opcode : Type 0 where
  ping pong get_stats stats_response add_rule remove_rule clear_rules list_rules rules_response
        error :
      Opcode

-- `enum class Opcode : std::uint8_t`
unfoldable pub opcode_byte : Opcode → ℕ
opcode_byte ping = 0x01
opcode_byte pong = 0x02
opcode_byte get_stats = 0x10
opcode_byte stats_response = 0x11
opcode_byte add_rule = 0x20
opcode_byte remove_rule = 0x21
opcode_byte clear_rules = 0x22
opcode_byte list_rules = 0x23
opcode_byte rules_response = 0x24
opcode_byte error = 0xff

pub record ControlResponse : Type 0 where
  pub status : ProtocolStatus
  pub opcode : Opcode
  pub bytes_written : ℕ

-- The bytes of an object, `size` of them, and the object that bytes copied over it make.
pub record Layout (A : Type 0) : Type 0 where
  pub size : ℕ
  pub to_bytes : A → List ℕ
  pub from_bytes : List ℕ → A

pub record ControlCore : Type 0 where
  pub rule_table : Table
  pub latest_stats : StatUpdate
  pub have_stats : Bool

-- A response with the bytes of its span.
abbrev pub Reply : Type 0
Reply = ControlResponse × List ℕ

-- `reinterpret_cast<const Byte*>` of a text, `std::strlen` bytes of it.
abbrev pub text_bytes : String → List ℕ
text_bytes String.[] = []
text_bytes (String.◌∷◌ c s) = code c ∷ text_bytes s

-- `MessageHeader{.opcode = opcode, .sequence = sequence}`
abbrev pub header_of : Opcode → ℕ → MessageHeader
header_of opcode sequence = record no_header { opcode = opcode_byte opcode; sequence = sequence }

unfoldable pub encode_payload : Opcode → ℕ → List ℕ → List ℕ → Reply
unfolding encode_message opcode_byte
encode_payload opcode sequence payload response =
    let (encoded, response) = encode_message (header_of opcode sequence) payload response in
    (
      record { status = encoded.status; opcode = opcode; bytes_written = encoded.bytes_written },
      response,
    )

unfoldable pub encode_empty : Opcode → ℕ → List ℕ → Reply
unfolding encode_message opcode_byte
encode_empty opcode sequence response =
    let (encoded, response) = encode_message (header_of opcode sequence) [] response in
    (
      record { status = encoded.status; opcode = opcode; bytes_written = encoded.bytes_written },
      response,
    )

-- The status is the error's, also where the text does not fit the response.
unfoldable pub encode_error : ProtocolStatus → ℕ → List ℕ → Reply
unfolding encode_message protocol_status_name opcode_byte
encode_error status sequence response =
    let payload = text_bytes (protocol_status_name status) in
    let (encoded, response) = encode_message (header_of error sequence) payload response in
    (record { status = status; opcode = error; bytes_written = encoded.bytes_written }, response)

-- The end of a command that edits the rules, after `status` came back from the table.
unfoldable pub answer_edit : ProtocolStatus → ℕ → List ℕ → Reply
unfolding encode_empty encode_error is_ok
answer_edit status sequence response =
    if is_ok status
    then encode_empty pong sequence response
    else encode_error status sequence response

unfoldable pub publish_stats : ControlCore → StatUpdate → ControlCore
publish_stats c update = record c { latest_stats = update; have_stats = true }

module _ (rule_layout : Layout ChaosRule) (stats_layout : Layout StatUpdate) where
  unfoldable pub handle_get_stats : ControlCore → ℕ → List ℕ → Reply
  unfolding encode_payload
  handle_get_stats c sequence response =
      let stats = if c.have_stats then c.latest_stats else stat_update_default in
      encode_payload stats_response sequence (stats_layout.to_bytes stats) response

  -- The bytes of the first `count` entries, as they lie in the array.
  abbrev pub rules_bytes : List ChaosRule → List ℕ
  rules_bytes [] = []
  rules_bytes (rule ∷ rules) = rule_layout.to_bytes rule ++ rules_bytes rules

  unfoldable pub handle_list_rules : ControlCore → ℕ → List ℕ → Reply
  unfolding encode_payload
  handle_list_rules c sequence response =
      encode_payload rules_response sequence (rules_bytes (rules_of c.rule_table)) response

  module _ (max_rules : ℕ) where
    unfoldable pub new_core : ControlCore
    unfolding new_table
    new_core = record {
      rule_table = new_table max_rules;
      latest_stats = stat_update_default;
      have_stats = false;
    }

    unfoldable pub handle_add_rule : ControlCore → DecodedMessage → List ℕ → Reply × ControlCore
    unfolding encode_error answer_edit add
    handle_add_rule c message response =
        if length message.payload != rule_layout.size
        then (encode_error invalid_payload message.header.sequence response, c)
        else let rule = rule_layout.from_bytes message.payload in
          let (status, table) = add max_rules c.rule_table rule in
          (answer_edit status message.header.sequence response, record c { rule_table = table })

    unfoldable pub handle_remove_rule : ControlCore → DecodedMessage → List ℕ → Reply × ControlCore
    unfolding encode_error answer_edit remove_at read_u32_be
    handle_remove_rule c message response =
        if length message.payload != 4
        then (encode_error invalid_payload message.header.sequence response, c)
        else let index = read_u32_be message.payload 0 in
          let (status, table) = remove_at max_rules c.rule_table index in
          (answer_edit status message.header.sequence response, record c { rule_table = table })

    -- The switch over the opcode of a decoded message.
    unfoldable pub handle_message : ControlCore → DecodedMessage → List ℕ → Reply × ControlCore
    unfolding handle_get_stats handle_add_rule handle_remove_rule handle_list_rules clear
        opcode_byte
    handle_message c message response =
        let opcode = message.header.opcode in
        let sequence = message.header.sequence in
        if opcode == opcode_byte ping
        then (encode_empty pong sequence response, c)
        else if opcode == opcode_byte get_stats
        then (handle_get_stats c sequence response, c)
        else if opcode == opcode_byte add_rule
        then handle_add_rule c message response
        else if opcode == opcode_byte remove_rule
        then handle_remove_rule c message response
        else if opcode == opcode_byte clear_rules
        then (
          encode_empty pong sequence response,
          record c { rule_table = clear max_rules c.rule_table },
        )
        else if opcode == opcode_byte list_rules
        then (handle_list_rules c sequence response, c)
        else (encode_error unknown_opcode sequence response, c)

    unfoldable pub handle : ControlCore → List ℕ → List ℕ → Reply × ControlCore
    unfolding encode_error handle_message decode_message is_ok
    handle c request response =
        let decoded = decode_message request in
        if is_ok decoded.status
        then handle_message c decoded.message response
        else (encode_error decoded.status 0 response, c)
