-- ===== src/Protocol/Encode.antt =====
-- include/chronosx/protocol.hpp: the bytes that `encode_message` leaves in the span.
use chronos_x.Base.{
  ℕ, ◌+◌, ◌≤◌, ◌≡◌, refl, sym, ap, ap₂, ◌∙◌, List, [], ◌++◌, arith, le→ltb, u32, take, drop, length,
  length-drop,
}
use chronos_x.Protocol.{ok}
use chronos_x.Protocol.Codec.{
  MessageHeader, protocol_magic, protocol_version, crc32, encode_message, copy_to, write_u32_be,
  write_header_without_crc,
}
use chronos_x.Protocol.Peel.{
  header_bytes, write_header_lem, write_crc_lem, copy_to_lem, take_append,
}

-- The header that is sent: the caller's opcode, sequence and timestamp.
abbrev pub sent_header : MessageHeader → List ℕ → MessageHeader
sent_header header payload = record header {
  magic = protocol_magic;
  version = protocol_version;
  payload_length = u32 (length payload);
  crc32 = 0;
}

abbrev pub sent_crc : MessageHeader → List ℕ → ℕ
sent_crc header payload = crc32 (header_bytes (sent_header header payload) 0 payload)

abbrev pub message_bytes : MessageHeader → List ℕ → List ℕ → List ℕ
message_bytes header payload rest =
    header_bytes (sent_header header payload) (sent_crc header payload) (payload ++ rest)

pub header_bytes-append :
    (h : MessageHeader) (crc : ℕ) (xs ys : List ℕ)
    → header_bytes h crc (xs ++ ys) ≡ header_bytes h crc xs ++ ys
unfolding header_bytes
header_bytes-append h crc xs ys = refl

pub length-header_bytes :
    (h : MessageHeader) (crc : ℕ) (xs : List ℕ) → length (header_bytes h crc xs) ≡ 24 + length xs
unfolding header_bytes
length-header_bytes h crc xs = omega arith

-- The header and the payload in the span.
body :
    (h : MessageHeader) (payload output : List ℕ)
    → 24 + length payload ≤ length output
    → copy_to (write_header_without_crc h output) 24 payload
      ≡ header_bytes h 0 (payload ++ drop (length payload) (drop 24 output))
unfolding header_bytes
body h payload output le =
    ap (λ xs. copy_to xs 24 payload) (write_header_lem h output (omega arith))
    ∙ copy_to_lem (header_bytes h 0 []) (drop 24 output) payload
        (omega (arith, length-drop 24 output))

pub encode_message-bytes :
    (header : MessageHeader) (payload output : List ℕ)
    → length payload ≤ 65536
    → 24 + length payload ≤ length output
    → encode_message header payload output ≡ (
      record { status = ok; bytes_written = 24 + length payload },
      message_bytes header payload (drop (length payload) (drop 24 output)),
    )
unfolding encode_message
encode_message-bytes header payload output fits room =
    rw (le→ltb 65536 (length payload) fits, le→ltb (length output) (24 + length payload) room)
      (ap (λ xs. (record { status = ok; bytes_written = 24 + length payload }, xs)) written)
  where
    sent : MessageHeader
    sent = sent_header header payload

    rest : List ℕ
    rest = drop (length payload) (drop 24 output)

    copied : List ℕ
    copied = copy_to (write_header_without_crc sent output) 24 payload

    whole : copied ≡ header_bytes sent 0 payload ++ rest
    whole = body sent payload output room ∙ header_bytes-append sent 0 payload rest

    checked : crc32 (take (24 + length payload) copied) ≡ sent_crc header payload
    checked = ap crc32 (
        ap (take (24 + length payload)) whole
        ∙ take_append (header_bytes sent 0 payload) rest (24 + length payload)
            (sym (length-header_bytes sent 0 payload)))

    written :
        write_u32_be copied 12 (crc32 (take (24 + length payload) copied))
        ≡ message_bytes header payload rest
    written =
        ap₂ (λ xs crc. write_u32_be xs 12 crc) (body sent payload output room) checked
        ∙ write_crc_lem sent (sent_crc header payload) (payload ++ rest)
