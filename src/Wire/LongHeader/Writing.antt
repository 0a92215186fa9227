-- ===== src/Wire/LongHeader/Writing.antt =====
-- quic/wire/header.go: writing a long header, and the length into it.
use quic_test.Prelude.{
  ℕ, ◌+◌, ◌*◌, ◌/◌, ◌^◌, bit_and, bit_or, [], ◌∷◌, ◌++◌, ltb, ◌==◌, if◌then◌else◌, length, take,
  drop, Bytes, u8, u32, Result, ok, err, panics, ◌>>=◌,
}
use quic_test.Varint
use quic_test.Varint.{at}
use quic_test.Protocol.PacketNumber.{append_packet_number, four_big_endian}
use quic_test.Wire.LongHeader.{PacketType, initial, zero_rtt, handshake, retry}

-- What Append reads of an ExtendedHeader.
pub record ExtendedHeader : Type 0 where
  pub packet_type : PacketType
  pub version : ℕ
  pub src_connection_id : Bytes
  pub dest_connection_id : Bytes
  pub token : Bytes
  pub packet_number_len : ℕ
  pub packet_number : ℕ

abbrev pub type_number : PacketType → ℕ
type_number initial = 0
type_number zero_rtt = 1
type_number handshake = 2
type_number retry = 3

-- `byte(0xc0) | wireType<<4 | byte(h.PacketNumberLen-1)`
unfoldable pub first_long_byte : PacketType → ℕ → ℕ
first_long_byte t len = bit_or (bit_or 0xc0 (type_number t * 2 ^ 4)) (u8 (len + 255))

-- A connection identifier behind its length.
abbrev pub with_length : Bytes → Bytes
with_length id = u8 (length id) ∷ id

abbrev pub append_token : PacketType → Bytes → Bytes → Bytes
append_token initial token b =
    if ltb 0 (length token) then Varint.append b (length token) ++ token else Varint.append b 0
append_token _ token b = b

-- The length is left 0, in two bytes.
unfoldable pub append_long_header : Bytes → ExtendedHeader → Result Bytes
unfolding first_long_byte
append_long_header b h =
    let fixed =
      b
      ++ (first_long_byte h.packet_type h.packet_number_len
          ∷ (four_big_endian (u32 h.version)
              ++ with_length h.dest_connection_id
              ++ with_length h.src_connection_id)) in
    append_packet_number (append_token h.packet_type h.token fixed ++ (0x40 ∷ 0 ∷ []))
      h.packet_number h.packet_number_len

-- `b[i]` and `b[i] = v`, which panic out of range.
abbrev pub index : Bytes → ℕ → Result ℕ
index b i = if ltb i (length b) then ok (at b i) else panics

abbrev pub assign : Bytes → ℕ → ℕ → Result Bytes
assign b i v = if ltb i (length b) then ok (take i b ++ (v ∷ drop (i + 1) b)) else panics

-- The bytes that the token takes; an error of Parse is ignored, and the numbers are 0 then.
abbrev pub token_size : Bytes → ℕ → Result ℕ
token_size b offset =
    if ltb (length b) offset then panics else elim (Varint.parse (drop offset b)) [
      | ok r ↦ ok (r.1 + r.0)
      | err e ↦ ok 0
      | panics ↦ panics
    ]

unfoldable pub set_length : Bytes → ℕ → Result Bytes
set_length b n = do
  dest_len ← index b 5
  let src = 6 + dest_len
  src_len ← index b src
  first ← index b 0
  let behind = src + 1 + src_len
  skipped ← if bit_and (first / 2 ^ 4) 0x7 == 1 then token_size b behind else ok 0
  let offset = behind + skipped
  b1 ← assign b offset (bit_or (u8 (n / 2 ^ 8)) 0x40)
  assign b1 (offset + 1) (u8 n)
