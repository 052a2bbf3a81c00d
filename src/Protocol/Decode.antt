-- ===== src/Protocol/Decode.antt =====
-- include/chronosx/protocol.hpp: `decode_message` on the bytes of a message.
use mathlib.Core.Bool.{false≢true}
use chronos_x.Base.{
  ℕ, dec_lt, ◌!=◌, true, false, ◌≡◌, suc, ◌+◌, ◌^◌, ◌≤◌, ◌<◌, refl, sym, ap, ◌∙◌, List, [], ◌∷◌,
  ◌++◌, arith, ltb, le→ltb, lt→ltb, u8, u32, ◌>>◌, bit_and, bit_xor, take, drop, length,
  length-append, if◌then◌else◌,
}
use chronos_x.Protocol.{
  is_ok, ok, buffer_too_small, invalid_magic, invalid_version, payload_too_large, truncated_payload,
  crc_mismatch,
}
use chronos_x.Protocol.Codec.{
  MessageHeader, DecodeResult, crc32, crc32_update, crc32_table, read_header, expected_crc,
  decode_message, protocol_magic, protocol_version, refused, write_u32_be,
}
use chronos_x.Protocol.Peel.{header_bytes, take_append}
use chronos_x.Protocol.Checksum.{crc32-lt}
use chronos_x.Protocol.Encode.{length-header_bytes, sent_header, sent_crc, message_bytes}
use chronos_x.Protocol.Header.{Fits, read_header_lem}

crc32_update-append :
    (xs ys : List ℕ) (crc : ℕ) → crc32_update crc (xs ++ ys) ≡ crc32_update (crc32_update crc xs) ys
unfolding crc32_update
crc32_update-append [] ys crc = refl
crc32_update-append (x ∷ xs) ys crc =
    crc32_update-append xs ys (bit_xor (crc >> 8) (crc32_table (u8 (bit_and (bit_xor crc x) 0xff))))

-- The payload's part of the decoder's checksum.
payload_crc :
    (crc : ℕ) (payload rest : List ℕ)
    → (if ltb 0 (length payload)
        then crc32_update crc (take (length payload) (payload ++ rest))
        else crc)
      ≡ crc32_update crc payload
unfolding crc32_update
payload_crc crc [] rest = refl
payload_crc crc (x ∷ payload) rest =
    rw (lt→ltb 0 (suc (length payload)) (omega arith))
      (ap (crc32_update crc) (take_append (x ∷ payload) rest (suc (length payload)) refl))

-- The decoder's checksum of the header with its field cleared and of the payload is the checksum of both.
expected_crc_lem :
    (h : MessageHeader) (crc : ℕ) (payload rest : List ℕ)
    → expected_crc (header_bytes h crc (payload ++ rest)) (length payload)
      ≡ crc32 (header_bytes h 0 payload)
unfolding expected_crc header_bytes write_u32_be crc32
expected_crc_lem h crc payload rest =
    ap (λ c. bit_xor c 0xffffffff)
      (payload_crc (crc32_update 0xffffffff (header_bytes h 0 [])) payload rest
        ∙ sym (crc32_update-append (header_bytes h 0 []) payload 0xffffffff))

abbrev pub received_header : MessageHeader → List ℕ → MessageHeader
received_header header payload = record (sent_header header payload) {
  crc32 = sent_crc header payload;
}

-- The tests behind the length's, for any header and checksum.
unfoldable judged : MessageHeader → ℕ → List ℕ → DecodeResult
judged header expected input =
    if header.magic != protocol_magic
    then refused invalid_magic
    else if header.version != protocol_version
    then refused invalid_version
    else if ltb 65536 header.payload_length
    then refused payload_too_large
    else if ltb (length input) (24 + header.payload_length)
    then refused truncated_payload
    else if expected != header.crc32
    then refused crc_mismatch
    else record {
      status = ok;
      message = record { header = header; payload = take header.payload_length (drop 24 input) };
    }

decode_message-judged :
    (input : List ℕ)
    → 24 ≤ length input
    → decode_message input
      ≡ judged (read_header input) (expected_crc input (read_header input).payload_length) input
unfolding decode_message judged
decode_message-judged input h = rw (le→ltb (length input) 24 h) refl

drop-header_bytes :
    (h : MessageHeader) (crc : ℕ) (xs : List ℕ) → drop 24 (header_bytes h crc xs) ≡ xs
unfolding header_bytes
drop-header_bytes h crc xs = refl

!=_self : (n : ℕ) → (n != n) ≡ false
!=_self n = ground arith

judged_good :
    (header : MessageHeader) (payload rest input : List ℕ)
    → header.magic ≡ protocol_magic
    → header.version ≡ protocol_version
    → header.payload_length ≡ length payload
    → length payload ≤ 65536
    → 24 + length payload ≤ length input
    → drop 24 input ≡ payload ++ rest
    → judged header header.crc32 input
      ≡ record { status = ok; message = record { header = header; payload = payload } }
unfolding judged
judged_good header payload rest input m v n h room left =
    rw
      (
        right_magic,
        right_version,
        le→ltb 65536 header.payload_length (omega arith),
        le→ltb (length input) (24 + header.payload_length) (omega arith),
        !=_self header.crc32,
      )
      (λ i. record { status = ok; message = record { header = header; payload = found i } })
  where
    right_magic : (header.magic != protocol_magic) ≡ false
    right_magic = ap (λ x. x != protocol_magic) m

    right_version : (header.version != protocol_version) ≡ false
    right_version = ap (λ x. x != protocol_version) v

    found : take header.payload_length (drop 24 input) ≡ payload
    found = ap (take header.payload_length) left ∙ take_append payload rest header.payload_length n

judged_ok :
    (header : MessageHeader) (expected : ℕ) (input : List ℕ)
    → is_ok (judged header expected input).status ≡ true
    → (judged header expected input).message.header ≡ header
unfolding judged is_ok
judged_ok header expected input h = ground arith

decode_message_short :
    (input : List ℕ) → length input < 24 → decode_message input ≡ refused buffer_too_small
unfolding decode_message
decode_message_short input h = rw (lt→ltb (length input) 24 h) refl

-- A message that decodes has at least the header's bytes, and its header is theirs.
pub decoded_header :
    (input : List ℕ)
    → is_ok (decode_message input).status ≡ true
    → (24 ≤ length input) × ((decode_message input).message.header ≡ read_header input)
unfolding is_ok
decoded_header input h = elim (dec_lt (length input) 24) [
  | yes lt ↦
      absurd (false≢true (sym (ap (λ d. is_ok d.status) (decode_message_short input lt)) ∙ h))
  | no ge ↦
      let long : 24 ≤ length input = omega (arith, ge) in
      let whole = decode_message-judged input long in
      let expected = expected_crc input (read_header input).payload_length in
      (
        long,
        ap (λ d. d.message.header) whole
            ∙ judged_ok (read_header input) expected input
                (sym (ap (λ d. is_ok d.status) whole) ∙ h),
      )
]

pub decode_message_lem :
    (header : MessageHeader) (payload rest : List ℕ)
    → header.sequence < 2 ^ 32
    → header.timestamp_ns < 2 ^ 64
    → length payload ≤ 65536
    → decode_message (message_bytes header payload rest) ≡ record {
      status = ok;
      message = record { header = received_header header payload; payload = payload };
    }
decode_message_lem header payload rest p q r =
    decode_message-judged bytes (omega (arith, whole))
    ∙ ap (λ h. judged h (expected_crc bytes h.payload_length) bytes)
        (read_header_lem sent crc (payload ++ rest) fits (crc32-lt _))
    ∙ ap (λ n. judged received (expected_crc bytes n) bytes) small
    ∙ ap (λ n. judged received n bytes) (expected_crc_lem sent crc payload rest)
    ∙ judged_good received payload rest bytes refl refl small r
        (omega (arith, whole, length-append payload rest))
        (drop-header_bytes sent crc (payload ++ rest))
  where
    sent : MessageHeader
    sent = sent_header header payload

    crc : ℕ
    crc = sent_crc header payload

    received : MessageHeader
    received = received_header header payload

    bytes : List ℕ
    bytes = message_bytes header payload rest

    whole : length (message_bytes header payload rest) ≡ 24 + length (payload ++ rest)
    whole = length-header_bytes sent crc (payload ++ rest)

    small : u32 (length payload) ≡ length payload
    small = omega arith

    fits : Fits sent
    fits = record {
      magic = omega arith;
      sequence = p;
      payload_length = omega arith;
      timestamp_ns = q;
    }
