-- ===== src/Wire/LongHeader.antt =====
-- quic/wire/header.go: parsing a packet with a long header.
pub mod Bounds
pub mod Writing
pub mod Length
use quic_test.Prelude.{
  ℕ, ◌+◌, ◌-◌, ◌/◌, ◌^◌, min, bit_and, Bool, ◌&&◌, not, Option, none, some, [], ltb, leb, ◌==◌,
  if◌then◌else◌, length, take, drop, Bytes, unexpected_eof, not_supported, Result, ok, err, ◌>>=◌,
  map_ok,
}
use quic_test.Varint.{at, big_endian}
use quic_test.Wire.Field.{next_varint, take_bytes}
use quic_test.Wire.Header.{is_long_header_packet, packet_number_at, parse_connection_id}

pub data PacketType : Type 0 where
  initial zero_rtt handshake retry : PacketType

pub record Header : Type 0 where
  pub type_byte : ℕ
  pub packet_type : PacketType
  pub version : ℕ
  pub src_connection_id : Bytes
  pub dest_connection_id : Bytes
  pub payload_length : ℕ
  pub token : Bytes
  pub parsed_len : ℕ

unfoldable pub is_version_negotiation_packet : Bytes → Bool
is_version_negotiation_packet b =
    not (ltb (length b) 5)
    && is_long_header_packet (at b 0)
    && (at b 1 == 0)
    && (at b 2 == 0)
    && (at b 3 == 0)
    && (at b 4 == 0)

-- The switch on `(firstByte >> 4) & 0x3`.
unfoldable pub wire_type : ℕ → PacketType
wire_type first =
    let t = bit_and (first / 2 ^ 4) 0x3 in
    if t == 0 then initial else if t == 1 then zero_rtt else if t == 2 then handshake else retry

-- A length byte and as many bytes; a connection identifier of 1 to 20 bytes is kept, another is
-- skipped.
unfoldable pub next_connection_id : Bytes → ℕ → Result (Bytes × ℕ)
next_connection_id input offset =
    let n = at input offset in
    let after = offset + 1 + n in
    if not (ltb offset (length input))
    then err unexpected_eof
    else if ltb (length input) after
    then err unexpected_eof
    else if ltb 0 n && leb n 20
    then map_ok (λ id. (id, after)) (parse_connection_id (take n (drop (offset + 1) input)))
    else ok ([], after)

unfoldable pub next_token : PacketType → Bytes → ℕ → Result (Bytes × ℕ)
unfolding next_varint take_bytes
next_token initial input offset =
    if not (ltb offset (length input))
    then err unexpected_eof
    else do (n, p) ← next_varint input offset; take_bytes input p n
next_token _ input offset = ok ([], offset)

-- The fields of the header, with the offset behind them.
unfoldable pub parse_long_header : Bytes → Result (Header × ℕ)
unfolding wire_type next_connection_id next_token next_varint
parse_long_header input =
    let first = at input 0 in
    let t = wire_type first in
    if ltb (length input) 5
    then err unexpected_eof
    else if is_version_negotiation_packet input
    then err not_supported
    else do
      (dest, p) ← next_connection_id input 5
      (src, p') ← next_connection_id input p
      (token, p'') ← next_token t input p'
      if not (ltb p'' (length input)) then err unexpected_eof else do
        (n, end) ← next_varint input p''
        ok (
          record {
            type_byte = first;
            packet_type = t;
            version = big_endian (take 4 (drop 1 input));
            src_connection_id = src;
            dest_connection_id = dest;
            payload_length = n;
            token = token;
            parsed_len = end;
          },
          end,
        )

-- The payload: as many bytes as the length says, or what is left of the packet.
abbrev pub payload_at : Bytes → Header → ℕ → Bytes
payload_at input h offset =
    let end = min (offset + h.payload_length) (length input) in
    take (end - offset) (drop offset input)

-- `none`: a short header, with the whole packet.
unfoldable pub parse_packet : Bytes → Result (Option Header × Bytes)
unfolding parse_long_header
parse_packet input =
    if length input == 0
    then err unexpected_eof
    else if not (is_long_header_packet (at input 0))
    then ok (none, input)
    else map_ok (λ r. (some r.0, payload_at input r.0 r.1)) (parse_long_header input)

-- The packet number at the start of the payload, its length, and the length of header and number.
unfoldable pub parse_extended : Header → Bytes → Result (ℕ × ℕ × ℕ)
parse_extended h payload =
    let len = bit_and h.type_byte 0x03 + 1 in
    map_ok (λ pn. (pn, len, h.parsed_len + len)) (packet_number_at payload 0 len)
