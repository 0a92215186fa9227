-- ===== src/Protocol/PacketNumber/Encoding.antt =====
-- The bytes of a packet number.
use quic_test.Prelude.{
  ℕ, zero, suc, ◌*◌, ◌/◌, ◌%◌, ◌^◌, ◌≤◌, ◌≡◌, refl, [], ◌∷◌, ◌++◌, arith, length, Bytes, u8, ok,
}
use quic_test.Varint.{big_endian, big_endian_from}
use quic_test.Protocol.PacketNumber.{append_packet_number, encode_packet_number}

-- Of the four lengths that exist, AppendPacketNumber appends the bytes that EncodePacketNumber
-- makes; these are as many as the length says, and as a big-endian number they are the packet
-- number modulo 256 to that power.
pub append_packet_number-encode :
    (b : Bytes) (pn len : ℕ)
    → 1 ≤ len
    → len ≤ 4
    → (bs : Bytes) × (encode_packet_number pn len ≡ ok bs)
      × (append_packet_number b pn len ≡ ok (b ++ bs))
      × (length bs ≡ len)
      × (big_endian bs ≡ pn % 2 ^ (len * 8))
unfolding append_packet_number encode_packet_number big_endian big_endian_from
append_packet_number-encode b pn zero l m = absurd (omega arith)
append_packet_number-encode b pn (suc zero) l m =
    (u8 pn ∷ [], ground arith, refl, refl, omega arith)
append_packet_number-encode b pn (suc (suc zero)) l m =
    (u8 (pn / 2 ^ 8) ∷ u8 pn ∷ [], ground arith, refl, refl, omega arith)
append_packet_number-encode b pn (suc (suc (suc zero))) l m =
    (u8 (pn / 2 ^ 16) ∷ u8 (pn / 2 ^ 8) ∷ u8 pn ∷ [], ground arith, refl, refl, omega arith)
append_packet_number-encode b pn (suc (suc (suc (suc zero)))) l m = (
  u8 (pn / 2 ^ 24) ∷ u8 (pn / 2 ^ 16) ∷ u8 (pn / 2 ^ 8) ∷ u8 pn ∷ [],
  ground arith,
  refl,
  refl,
  omega arith,
)
append_packet_number-encode b pn (suc (suc (suc (suc (suc n))))) l m = absurd (omega arith)
