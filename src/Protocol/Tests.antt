-- ===== src/Protocol/Tests.antt =====
-- The rule table at a concrete history, and runs of it and of the codec.
use chronos_x.Base.{ℕ, arith, take, set, replicate, ◌≡◌, refl, List, [], ◌∷◌}
use chronos_x.ChaosEngine.{ChaosRule}
use chronos_x.Protocol.{ok, crc_mismatch, no_rule, new_table, rules_of, add, remove_at}
use chronos_x.Protocol.Codec.{MessageHeader, no_header, crc32, encode_message, decode_message}
use chronos_x.Protocol.RoundTrip.{received, decode_message-encode_message}
use chronos_x.Protocol.Edits.{Edit, adds, removes}

abbrev rule : ℕ → ChaosRule
rule n = record no_rule { id = n }

-- Three additions to a table of two, a removal of the first rule, and one that is out of range.
abbrev history : List Edit
history = adds (rule 1) ∷ adds (rule 2) ∷ adds (rule 3) ∷ removes 0 ∷ removes 1 ∷ []

two_adds_one_left :
    rules_of (remove_at 2 (add 2 (add 2 (new_table 2) (rule 1)).1 (rule 2)).1 0).1 ≡ rule 2 ∷ []
unfolding new_table add remove_at
two_adds_one_left = refl

-- The checksum's check value, of the digits 1 to 9.
crc32_check_value : crc32 (49 ∷ 50 ∷ 51 ∷ 52 ∷ 53 ∷ 54 ∷ 55 ∷ 56 ∷ 57 ∷ []) ≡ 0xcbf43926
unfolding crc32
crc32_check_value = refl

abbrev ping : MessageHeader
ping = record no_header { sequence = 7; timestamp_ns = 9 }

decoded_ping :
    (decode_message (encode_message ping (5 ∷ 6 ∷ []) (replicate 26 0)).1).message.payload
    ≡ 5 ∷ 6 ∷ []
unfolding encode_message decode_message
decoded_ping = refl

damaged_ping :
    (decode_message (set (encode_message ping (5 ∷ 6 ∷ []) (replicate 26 0)).1 25 7)).status
    ≡ crc_mismatch
unfolding encode_message decode_message
damaged_ping = refl

decode_message-encode_message_example :
    let (encoded, written) = encode_message ping (5 ∷ 6 ∷ []) (replicate 30 1) in
    (encoded ≡ record { status = ok; bytes_written = 26 })
    × (decode_message written ≡ received ping (5 ∷ 6 ∷ []))
    × (decode_message (take encoded.bytes_written written) ≡ received ping (5 ∷ 6 ∷ []))
decode_message-encode_message_example =
    decode_message-encode_message ping (5 ∷ 6 ∷ []) (replicate 30 1) (omega arith) (omega arith)
      (omega arith) (omega arith)
