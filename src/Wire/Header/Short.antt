-- ===== src/Wire/Header/Short.antt =====
-- Short headers read back.
use quic_test.Prelude.{
  ℕ, zero, suc, ◌+◌, ◌*◌, ◌%◌, ◌^◌, ◌≤◌, ◌<◌, bit_and, bit_or, ◌≡◌, refl, [], ◌∷◌, ◌++◌,
  append_assoc, arith, length, drop, length-append, drop-length, take-length, Bytes, u8, ok,
}
use quic_test.Varint.{big_endian}
use quic_test.Protocol.PacketNumber.{packet_number_length_for_header, decode_packet_number}
use quic_test.Protocol.PacketNumber.Decoding.{decode_packet_number-length_for_header}
use quic_test.Protocol.PacketNumber.Encoding.{append_packet_number-encode}
use quic_test.Wire.Header.{packet_number_at, parse_short_header, append_short_header}

abbrev first_byte : ℕ → ℕ
first_byte len = bit_or 0x40 (u8 (len + 255))

-- The first byte of a short header: no bit 0x80, and the length less 1 in the low bits.
first_byte_lem :
    (len : ℕ)
    → 1 ≤ len
    → len ≤ 4
    → (bit_and (first_byte len) 0x80 ≡ 0) × (bit_and (first_byte len) 0x03 + 1 ≡ len)
first_byte_lem zero l m = absurd (omega arith)
first_byte_lem (suc zero) l m = (refl, refl)
first_byte_lem (suc (suc zero)) l m = (refl, refl)
first_byte_lem (suc (suc (suc zero))) l m = (refl, refl)
first_byte_lem (suc (suc (suc (suc zero)))) l m = (refl, refl)
first_byte_lem (suc (suc (suc (suc (suc n))))) l m = absurd (omega arith)

-- A number whose bytes stand after `head` is read.
packet_number_at_lem :
    (head bs rest : Bytes)
    → packet_number_at ((head ++ bs) ++ rest) (length head) (length bs) ≡ ok (big_endian bs)
unfolding packet_number_at
packet_number_at_lem head bs rest =
    let e : drop (length head) ((head ++ bs) ++ rest) ≡ bs ++ rest =
      simp append_assoc (drop-length head (bs ++ rest)) in
    let short : length head + length bs ≤ length ((head ++ bs) ++ rest) =
      simp (append_assoc, length-append) (omega arith) in
    rw (e, take-length bs rest) (ground arith)

-- ParseShortHeader reads back what AppendShortHeader wrote for a connection identifier of the length
-- it is told and a packet number length of 1 to 4, whatever follows: it consumes just that, and
-- gives the length and the low bytes of the packet number.
pub parse_short_header-append :
    (conn_id rest : Bytes) (pn len : ℕ)
    → 1 ≤ len
    → len ≤ 4
    → (head : Bytes) × (append_short_header [] conn_id pn len ≡ ok head)
      × (parse_short_header (head ++ rest) (length conn_id)
          ≡ ok (length head, pn % 2 ^ (len * 8), len))
unfolding parse_short_header append_short_header
parse_short_header-append conn_id rest pn len l m =
    let prefix : Bytes = first_byte len ∷ conn_id in
    let (bs, e, written, size, value) = append_packet_number-encode prefix pn len l m in
    let (short, low) = first_byte_lem len l m in
    let read = packet_number_at_lem prefix bs rest in
    (prefix ++ bs, written, ground (arith, read, size, value, short, low, length-append conn_id bs))

pub length_for_header_bounds :
    (pn acked : ℕ)
    → (1 ≤ packet_number_length_for_header pn acked)
      × (packet_number_length_for_header pn acked ≤ 4)
unfolding packet_number_length_for_header
length_for_header_bounds pn acked = (ground arith, ground arith)

-- The short header that a connection writes for a packet number of at most 2 ^ 31, with the length
-- that PacketNumberLengthForHeader chooses for a largest acknowledged number of 0, is read back by
-- ParseShortHeader and DecodePacketNumber as that number by a receiver whose largest number so far
-- is smaller; what follows the header starts where ParseShortHeader says.
pub decode_packet_number-short_header :
    (conn_id rest : Bytes) (largest pn : ℕ)
    → largest < pn
    → pn ≤ 2 ^ 31
    → let len = packet_number_length_for_header pn 0 in
      (head : Bytes) × (truncated : ℕ) × (append_short_header [] conn_id pn len ≡ ok head)
      × (parse_short_header (head ++ rest) (length conn_id) ≡ ok (length head, truncated, len))
      × (decode_packet_number len largest truncated ≡ pn)
      × (drop (length head) (head ++ rest) ≡ rest)
decode_packet_number-short_header conn_id rest largest pn h d =
    let len = packet_number_length_for_header pn 0 in
    let (l, m) = length_for_header_bounds pn 0 in
    let (head, e, read) = parse_short_header-append conn_id rest pn len l m in
    (
      head,
      pn % 2 ^ (len * 8),
      e,
      read,
      decode_packet_number-length_for_header largest 0 pn (omega arith) h (omega arith)
          (omega arith),
      drop-length head rest,
    )
