-- ===== src/Protocol/RoundTrip.antt =====
-- include/chronosx/protocol.hpp: what is encoded decodes to what was encoded.
use mathlib.Core.List.{append-nil}
use chronos_x.Base.{ℕ, ◌+◌, ◌^◌, ◌≤◌, ◌<◌, ◌≡◌, sym, ap, ◌∙◌, List, [], take, drop, length}
use chronos_x.Protocol.{ok}
use chronos_x.Protocol.Codec.{MessageHeader, DecodeResult, encode_message, decode_message}
use chronos_x.Protocol.Peel.{header_bytes, take_append}
use chronos_x.Protocol.Encode.{
  sent_header, sent_crc, message_bytes, header_bytes-append, length-header_bytes,
  encode_message-bytes,
}
use chronos_x.Protocol.Decode.{received_header, decode_message_lem}

-- What the receiver of a message should find.
abbrev pub received : MessageHeader → List ℕ → DecodeResult
received header payload = record {
  status = ok;
  message = record { header = received_header header payload; payload = payload };
}

-- A payload of at most 64 KiB and a header whose sequence number and timestamp fit their fields are
-- encoded into any span with room for them, and the message decodes, from the span and from its bytes
-- alone, with status `Ok`: to the payload, and to the header with the protocol's magic number and
-- version, the payload's length and the checksum.
pub decode_message-encode_message :
    (header : MessageHeader) (payload output : List ℕ)
    → header.sequence < 2 ^ 32
    → header.timestamp_ns < 2 ^ 64
    → length payload ≤ 65536
    → 24 + length payload ≤ length output
    → let (encoded, written) = encode_message header payload output in
      (encoded ≡ record { status = ok; bytes_written = 24 + length payload })
      × (decode_message written ≡ received header payload)
      × (decode_message (take encoded.bytes_written written) ≡ received header payload)
decode_message-encode_message header payload output p q fits room = (
  ap (λ e. e.0) written,
  ap (λ e. decode_message e.1) written ∙ decode_message_lem header payload rest p q fits,
  ap (λ e. decode_message (take e.0.bytes_written e.1)) written
      ∙ ap decode_message alone
      ∙ decode_message_lem header payload [] p q fits,
)
  where
    rest : List ℕ
    rest = drop (length payload) (drop 24 output)

    written : encode_message header payload output ≡ (
      record { status = ok; bytes_written = 24 + length payload },
      message_bytes header payload rest,
    )
    written = encode_message-bytes header payload output fits room

    sent : MessageHeader
    sent = sent_header header payload

    crc : ℕ
    crc = sent_crc header payload

    alone :
        take (24 + length payload) (message_bytes header payload rest)
        ≡ message_bytes header payload []
    alone =
        ap (take (24 + length payload)) (header_bytes-append sent crc payload rest)
        ∙ take_append (header_bytes sent crc payload) rest (24 + length payload)
            (sym (length-header_bytes sent crc payload))
        ∙ ap (header_bytes sent crc) (sym (append-nil payload))
