-- ===== src/Control/Samples.antt =====
-- include/chronosx/protocol.hpp: requests to the control core, as clients encode them.
use chronos_x.Base.{ℕ, List, [], ◌∷◌, take, replicate}
use chronos_x.ChaosEngine.{ChaosRule}
use chronos_x.Types.{corrupt}
use chronos_x.Protocol.{no_rule}
use chronos_x.Protocol.Codec.{encode_message}
use chronos_x.Control.{Opcode, ping, add_rule, remove_rule, header_of, opcode_byte}
use chronos_x.Control.LittleEndian.{rule_layout}

abbrev pub cleared_response : List ℕ
cleared_response = replicate 64 0

-- The bytes of a request.
unfoldable pub request : Opcode → List ℕ → List ℕ
unfolding encode_message opcode_byte
request opcode payload =
    let (encoded, bytes) = encode_message (header_of opcode 7) payload (replicate 64 0) in
    take encoded.bytes_written bytes

abbrev pub a_rule : ChaosRule
a_rule = record no_rule { id = 5; src_port = 53; probability = 10; action = corrupt; seed = 3 }

unfoldable pub add_request : List ℕ
unfolding request rule_layout
add_request = request add_rule (rule_layout.to_bytes a_rule)

abbrev pub calls : List (List ℕ × List ℕ)
calls =
    (request ping [], cleared_response)
    ∷ (add_request, cleared_response)
    ∷ (request add_rule (1 ∷ []), cleared_response)
    ∷ (request remove_rule (0 ∷ 0 ∷ 0 ∷ 4 ∷ []), cleared_response)
    ∷ []
