-- ===== src/Protocol/PacketNumber.antt =====
-- Packet numbers: an int64 is its two's complement pattern, a length is a number of bytes.
pub mod Decoding
pub mod Encoding
use quic_test.Prelude.{
  ℕ, ◌-◌, ◌*◌, ◌/◌, ◌^◌, bit_and, bit_or, ◌&&◌, not, [], ◌∷◌, ◌++◌, ltb, ◌==◌, if◌then◌else◌, drop,
  Bytes, u8, u32, add64, sub64, lt_int64, le_int64, Result, ok, panics,
}

-- `^mask` and `|`, on 64 bits; `1 << (length * 8)` for the lengths 1 to 4.
unfoldable pub decode_packet_number : ℕ → ℕ → ℕ → ℕ
decode_packet_number len largest truncated =
    let expected = add64 largest 1 in
    let win = 2 ^ (len * 8) in
    let hwin = win / 2 in
    let mask = win - 1 in
    let candidate = bit_or (bit_and expected (2 ^ 64 - 1 - mask)) truncated in
    if not (lt_int64 (sub64 expected hwin) candidate) && lt_int64 candidate (2 ^ 62 - win)
    then add64 candidate win
    else if lt_int64 (add64 expected hwin) candidate && not (lt_int64 candidate win)
    then sub64 candidate win
    else candidate

unfoldable pub packet_number_length_for_header : ℕ → ℕ → ℕ
packet_number_length_for_header pn largest_acked =
    let diff = sub64 pn largest_acked in
    if le_int64 pn 0x7f && le_int64 largest_acked 0x7f
    then 1
    else if le_int64 diff 0x7fff
    then 2
    else if le_int64 diff 0x7f_ffff
    then 3
    else 4

unfoldable pub append_packet_number : Bytes → ℕ → ℕ → Result Bytes
append_packet_number b pn len =
    if len == 1
    then ok (b ++ (u8 pn ∷ []))
    else if len == 2
    then ok (b ++ (u8 (pn / 2 ^ 8) ∷ u8 pn ∷ []))
    else if len == 3
    then ok (b ++ (u8 (pn / 2 ^ 16) ∷ u8 (pn / 2 ^ 8) ∷ u8 pn ∷ []))
    else if len == 4
    then ok (b ++ (u8 (pn / 2 ^ 24) ∷ u8 (pn / 2 ^ 16) ∷ u8 (pn / 2 ^ 8) ∷ u8 pn ∷ []))
    else panics

-- binary.BigEndian.PutUint32.
abbrev pub four_big_endian : ℕ → Bytes
four_big_endian v = u8 (v / 2 ^ 24) ∷ u8 (v / 2 ^ 16) ∷ u8 (v / 2 ^ 8) ∷ u8 v ∷ []

-- `b[4-uint8(pnLen):]` panics when the difference wraps.
unfoldable pub encode_packet_number : ℕ → ℕ → Result Bytes
encode_packet_number pn len =
    if ltb 4 len then panics else ok (drop (4 - len) (four_big_endian (u32 pn)))
