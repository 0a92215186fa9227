-- ===== src/Varint.antt =====
-- quic/quicvarint/varint.go: variable-length integers, of 1, 2, 4 or 8 bytes with the length in the
-- top two bits of the first byte.
mod Tests
pub mod Arithmetic
pub mod RoundTrip
pub mod Bounds
use quic_test.Prelude.{
  ℕ, ◌+◌, ◌-◌, ◌*◌, ◌/◌, ◌%◌, ◌^◌, bit_and, bit_or, List, [], ◌∷◌, ◌++◌, ltb, leb, ◌==◌,
  if◌then◌else◌, length, get_or, take, Bytes, u8, u32, Result, ok, err, panics, unexpected_eof,
}

abbrev pub max_varint : ℕ
max_varint = 2 ^ 62 - 1

-- binary.BigEndian.Uint32 and Uint64 of a slice of 4 or 8 bytes.
unfoldable pub big_endian_from : ℕ → Bytes → ℕ
big_endian_from acc [] = acc
big_endian_from acc (b ∷ bs) = big_endian_from (acc * 256 + b) bs

unfoldable pub big_endian : Bytes → ℕ
unfolding big_endian_from
big_endian bs = big_endian_from 0 bs

-- `data[i]` behind a length test is a read in range.
abbrev pub at : Bytes → ℕ → ℕ
at input i = get_or input i 0

-- The value and the number of bytes consumed. An index in a branch is below the length tested there.
unfoldable pub parse : Bytes → Result (ℕ × ℕ)
unfolding big_endian
parse input =
    let first = at input 0 in
    if length input == 0
    then err unexpected_eof
    else if first / 2 ^ 6 == 0
    then ok (first, 1)
    else if first / 2 ^ 6 == 1
    then (if ltb (length input) 2
        then err unexpected_eof
        else ok (bit_or (bit_and first 0x3f * 2 ^ 8) (at input 1), 2))
    else if first / 2 ^ 6 == 2
    then (if ltb (length input) 4
        then err unexpected_eof
        else ok (
          bit_or
              (bit_or (bit_or (u32 (bit_and first 0x3f * 2 ^ 24)) (u32 (at input 1 * 2 ^ 16)))
                (u32 (at input 2 * 2 ^ 8)))
              (at input 3),
          4,
        ))
    else if ltb (length input) 8
    then err unexpected_eof
    else ok (bit_and (big_endian (take 8 input)) 0x3fff_ffff_ffff_ffff, 8)

-- The eight bytes that both functions below write in their last case.
abbrev eight_bytes : ℕ → Bytes
eight_bytes i =
    bit_or (u8 (i / 2 ^ 56)) 0xc0
    ∷ u8 (i / 2 ^ 48)
    ∷ u8 (i / 2 ^ 40)
    ∷ u8 (i / 2 ^ 32)
    ∷ u8 (i / 2 ^ 24)
    ∷ u8 (i / 2 ^ 16)
    ∷ u8 (i / 2 ^ 8)
    ∷ u8 i
    ∷ []

abbrev four_bytes : ℕ → Bytes
four_bytes i = bit_or (u8 (i / 2 ^ 24)) 0x80 ∷ u8 (i / 2 ^ 16) ∷ u8 (i / 2 ^ 8) ∷ u8 i ∷ []

abbrev two_bytes : ℕ → Bytes
two_bytes i = bit_or (u8 (i / 2 ^ 8)) 0x40 ∷ u8 i ∷ []

unfoldable pub append : Bytes → ℕ → Bytes
append b i =
    if leb i 63
    then b ++ (u8 i ∷ [])
    else if leb i 16383
    then b ++ two_bytes i
    else if leb i 1073741823
    then b ++ four_bytes i
    else b ++ eight_bytes i

unfoldable pub append_with_len : Bytes → ℕ → ℕ → Result Bytes
append_with_len b i n =
    if n == 1
    then ok (b ++ (u8 i ∷ []))
    else if n == 2
    then ok (b ++ two_bytes i)
    else if n == 4
    then ok (b ++ four_bytes i)
    else if n == 8
    then ok (b ++ eight_bytes i)
    else panics

unfoldable pub len : ℕ → ℕ
len i = if leb i 63 then 1 else if leb i 16383 then 2 else if leb i 1073741823 then 4 else 8
