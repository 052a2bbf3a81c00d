-- ===== src/Protocol/Codec.antt =====
-- include/chronosx/protocol.hpp: big-endian fields, the checksum, and the encoding and decoding of
-- messages. A span is a list of bytes; the entry of the checksum's table at an index is computed
-- where it is looked up. An opcode is kept as its byte, as the cast in the decoder does.
use chronos_x.Base.{
  ℕ, zero, suc, ◌+◌, List, [], ◌∷◌, bit_and, bit_or, bit_xor, u8, u16, u32, ◌<<◌, ◌>>◌, ltb, ◌!=◌,
  if◌then◌else◌, get_or, set, take, drop, length,
}
use chronos_x.Protocol.{
  ProtocolStatus, ok, buffer_too_small, payload_too_large, invalid_magic, invalid_version,
  truncated_payload, crc_mismatch,
}

abbrev pub protocol_magic : ℕ
protocol_magic = 0x4358

abbrev pub protocol_version : ℕ
protocol_version = 1

abbrev pub protocol_header_bytes : ℕ
protocol_header_bytes = 24

abbrev pub max_control_payload_bytes : ℕ
max_control_payload_bytes = 65536

pub record MessageHeader : Type 0 where
  pub magic : ℕ
  pub version : ℕ
  pub opcode : ℕ
  pub sequence : ℕ
  pub payload_length : ℕ
  pub crc32 : ℕ
  pub timestamp_ns : ℕ

pub record DecodedMessage : Type 0 where
  pub header : MessageHeader
  pub payload : List ℕ

pub record EncodeResult : Type 0 where
  pub status : ProtocolStatus
  pub bytes_written : ℕ

pub record DecodeResult : Type 0 where
  pub status : ProtocolStatus
  pub message : DecodedMessage

abbrev pub byte : List ℕ → ℕ → ℕ
byte bytes i = get_or bytes i 0

unfoldable pub read_u16_be : List ℕ → ℕ → ℕ
read_u16_be bytes offset =
    u16 (bit_or (u16 (byte bytes offset) << 8) (u16 (byte bytes (offset + 1))))

unfoldable pub read_u32_be : List ℕ → ℕ → ℕ
read_u32_be bytes offset =
    bit_or
      (bit_or (bit_or (u32 (byte bytes offset << 24)) (u32 (byte bytes (offset + 1) << 16)))
        (u32 (byte bytes (offset + 2) << 8)))
      (byte bytes (offset + 3))

unfoldable pub read_u64_be : List ℕ → ℕ → ℕ
unfolding read_u32_be
read_u64_be bytes offset = bit_or (read_u32_be bytes offset << 32) (read_u32_be bytes (offset + 4))

unfoldable pub write_u16_be : List ℕ → ℕ → ℕ → List ℕ
write_u16_be bytes offset value =
    let bytes = set bytes offset (u8 (bit_and (value >> 8) 0xff)) in
    set bytes (offset + 1) (u8 (bit_and value 0xff))

unfoldable pub write_u32_be : List ℕ → ℕ → ℕ → List ℕ
write_u32_be bytes offset value =
    let bytes = set bytes offset (u8 (bit_and (value >> 24) 0xff)) in
    let bytes = set bytes (offset + 1) (u8 (bit_and (value >> 16) 0xff)) in
    let bytes = set bytes (offset + 2) (u8 (bit_and (value >> 8) 0xff)) in
    set bytes (offset + 3) (u8 (bit_and value 0xff))

unfoldable pub write_u64_be : List ℕ → ℕ → ℕ → List ℕ
unfolding write_u32_be
write_u64_be bytes offset value =
    let bytes = write_u32_be bytes offset (u32 (bit_and (value >> 32) 0xffffffff)) in
    write_u32_be bytes (offset + 4) (u32 (bit_and value 0xffffffff))

abbrev pub crc32_polynomial : ℕ
crc32_polynomial = 0xedb88320

-- One bit of the loop that generates the table, and `n` of them.
abbrev pub crc32_bit : ℕ → ℕ
crc32_bit crc = if bit_and crc 1 != 0 then bit_xor (crc >> 1) crc32_polynomial else crc >> 1

unfoldable pub crc32_bits : ℕ → ℕ → ℕ
crc32_bits zero crc = crc
crc32_bits (suc n) crc = crc32_bits n (crc32_bit crc)

-- `kCrc32Table[index]`
unfoldable pub crc32_table : ℕ → ℕ
unfolding crc32_bits
crc32_table index = crc32_bits 8 index

unfoldable pub crc32_update : ℕ → List ℕ → ℕ
unfolding crc32_table
crc32_update crc [] = crc
crc32_update crc (byte ∷ bytes) =
    let index = u8 (bit_and (bit_xor crc byte) 0xff) in
    crc32_update (bit_xor (crc >> 8) (crc32_table index)) bytes

unfoldable pub crc32 : List ℕ → ℕ
unfolding crc32_update
crc32 bytes = bit_xor (crc32_update 0xffffffff bytes) 0xffffffff

unfoldable pub write_header_without_crc : MessageHeader → List ℕ → List ℕ
unfolding write_u16_be write_u32_be write_u64_be
write_header_without_crc header output =
    let output = write_u16_be output 0 header.magic in
    let output = set output 2 header.version in
    let output = set output 3 header.opcode in
    let output = write_u32_be output 4 header.sequence in
    let output = write_u32_be output 8 header.payload_length in
    let output = write_u32_be output 12 0 in write_u64_be output 16 header.timestamp_ns

-- `memcpy` to an offset of the output.
unfoldable pub copy_to : List ℕ → ℕ → List ℕ → List ℕ
copy_to output offset [] = output
copy_to output offset (b ∷ bytes) = copy_to (set output offset b) (suc offset) bytes

-- The result, and the output span with the message in it.
unfoldable pub encode_message : MessageHeader → List ℕ → List ℕ → EncodeResult × List ℕ
unfolding write_header_without_crc copy_to crc32 write_u32_be
encode_message header payload output =
    if ltb max_control_payload_bytes (length payload)
    then (record { status = payload_too_large; bytes_written = 0 }, output)
    else let total_size = protocol_header_bytes + length payload in
      if ltb (length output) total_size
      then (record { status = buffer_too_small; bytes_written = 0 }, output)
      else let normalized = record header {
        magic = protocol_magic;
        version = protocol_version;
        payload_length = u32 (length payload);
        crc32 = 0;
      } in
        let output = write_header_without_crc normalized output in
        let output = copy_to output protocol_header_bytes payload in
        let computed_crc = crc32 (take total_size output) in
        (record { status = ok; bytes_written = total_size }, write_u32_be output 12 computed_crc)

abbrev pub no_header : MessageHeader
no_header = record {
  magic = protocol_magic;
  version = protocol_version;
  opcode = 1;
  sequence = 0;
  payload_length = 0;
  crc32 = 0;
  timestamp_ns = 0;
}

-- A `DecodeResult` with its status alone.
abbrev pub refused : ProtocolStatus → DecodeResult
refused status = record { status = status; message = record { header = no_header; payload = [] } }

unfoldable pub read_header : List ℕ → MessageHeader
unfolding read_u16_be read_u32_be read_u64_be
read_header input = record {
  magic = read_u16_be input 0;
  version = byte input 2;
  opcode = byte input 3;
  sequence = read_u32_be input 4;
  payload_length = read_u32_be input 8;
  crc32 = read_u32_be input 12;
  timestamp_ns = read_u64_be input 16;
}

-- The checksum that the message should have, over the header with its field cleared and the payload.
unfoldable pub expected_crc : List ℕ → ℕ → ℕ
unfolding write_u32_be crc32_update
expected_crc input payload_length =
    let header_for_crc = write_u32_be (take protocol_header_bytes input) 12 0 in
    let computed_crc = crc32_update 0xffffffff header_for_crc in
    let computed_crc =
      if ltb 0 payload_length
      then crc32_update computed_crc (take payload_length (drop protocol_header_bytes input))
      else computed_crc in
    bit_xor computed_crc 0xffffffff

unfoldable pub decode_message : List ℕ → DecodeResult
unfolding read_header expected_crc
decode_message input =
    if ltb (length input) protocol_header_bytes
    then refused buffer_too_small
    else let header = read_header input in
      if header.magic != protocol_magic
      then refused invalid_magic
      else if header.version != protocol_version
      then refused invalid_version
      else if ltb max_control_payload_bytes header.payload_length
      then refused payload_too_large
      else if ltb (length input) (protocol_header_bytes + header.payload_length)
      then refused truncated_payload
      else if expected_crc input header.payload_length != header.crc32
      then refused crc_mismatch
      else record {
        status = ok;
        message = record {
          header = header;
          payload = take header.payload_length (drop protocol_header_bytes input);
        };
      }
