-- ===== src/Wire/Header.antt =====
-- quic/wire/header.go: the short packet header.
pub mod Short
use quic_test.Prelude.{
  ℕ, ◌+◌, bit_and, bit_or, Bool, [], ◌∷◌, ◌++◌, ltb, if◌then◌else◌, length, take, drop, Bytes, u8,
  unexpected_eof, wrong_type, Result, ok, err, panics, map_ok,
}
use quic_test.Varint.{at, big_endian}
use quic_test.Protocol.PacketNumber.{append_packet_number}

-- `firstByte & 0x80 > 0`
unfoldable pub is_long_header_packet : ℕ → Bool
is_long_header_packet b = ltb 0 (bit_and b 0x80)

-- The packet number of `len` bytes at an offset, with the number of bytes up to its end.
unfoldable pub packet_number_at : Bytes → ℕ → ℕ → Result ℕ
packet_number_at input offset len =
    if ltb (length input) (offset + len)
    then err unexpected_eof
    else ok (big_endian (take len (drop offset input)))

-- A connection identifier is its bytes, at most 20 of them.
unfoldable pub parse_connection_id : Bytes → Result Bytes
parse_connection_id b = if ltb 20 (length b) then panics else ok b

unfoldable pub parse_short_header_conn_id : Bytes → Result Bytes
parse_short_header_conn_id input =
    if ltb (length input) 1
    then err unexpected_eof
    else if is_long_header_packet (at input 0)
    then err wrong_type
    else if ltb (length input) (1 + 8)
    then err unexpected_eof
    else parse_connection_id (take 8 (drop 1 input))

-- The bytes consumed, the packet number and its length.
unfoldable pub parse_short_header : Bytes → ℕ → Result (ℕ × ℕ × ℕ)
parse_short_header input conn_id_len =
    let len = bit_and (at input 0) 0x03 + 1 in
    let offset = 1 + conn_id_len in
    if ltb (length input) 1
    then err unexpected_eof
    else if ltb 0 (bit_and (at input 0) 0x80)
    then err wrong_type
    else map_ok (λ pn. (offset + len, pn, len)) (packet_number_at input offset len)

-- `byte(pnLen - 1)` of a uint8.
unfoldable pub append_short_header : Bytes → Bytes → ℕ → ℕ → Result Bytes
append_short_header b conn_id pn len =
    append_packet_number ((b ++ (bit_or 0x40 (u8 (len + 255)) ∷ [])) ++ conn_id) pn len
