-- ===== src/Protocol/PacketNumber/Decoding.antt =====
-- What a receiver decodes from the bytes that the sender of a packet number wrote.
use quic_test.Prelude.{
  ℕ, zero, suc, ◌+◌, ◌-◌, ◌*◌, ◌/◌, ◌%◌, ◌^◌, ◌≤◌, ◌<◌, bit_and, bit_or, ◌≡◌, arith, add64,
}
use quic_test.Prelude.Bits.{bit_or_fields, bit_and_high}
use quic_test.Protocol.PacketNumber.{decode_packet_number, packet_number_length_for_header}

-- The candidate: the high bits of the expected number and the low bits of the packet number.
candidate_lem :
    (k e t : ℕ)
    → e / 2 ^ k < 2 ^ (64 - k)
    → t < 2 ^ k
    → bit_or (bit_and e ((2 ^ (64 - k) - 1) * 2 ^ k)) t ≡ e / 2 ^ k * 2 ^ k + t
candidate_lem k e t h d = rw (bit_and_high k (64 - k) e h) (bit_or_fields k (e / 2 ^ k) t d)

decode1 :
    (largest pn : ℕ)
    → let e = add64 largest 1 in
      e < 2 ^ 62
      → pn < 2 ^ 62
      → e < pn + 2 ^ 7
      → pn ≤ e + 2 ^ 7
      → decode_packet_number 1 largest (pn % 2 ^ 8) ≡ pn
unfolding decode_packet_number
decode1 largest pn h1 h2 h3 h4 =
    let e = add64 largest 1 in
    let c : bit_or (bit_and e (2 ^ 64 - 1 - (2 ^ 8 - 1))) (pn % 2 ^ 8)
        ≡ e / 2 ^ 8 * 2 ^ 8 + pn % 2 ^ 8 =
      candidate_lem 8 e (pn % 2 ^ 8) (omega arith) (omega arith) in
    rw c (ground arith)

decode2 :
    (largest pn : ℕ)
    → let e = add64 largest 1 in
      e < 2 ^ 62
      → pn < 2 ^ 62
      → e < pn + 2 ^ 15
      → pn ≤ e + 2 ^ 15
      → decode_packet_number 2 largest (pn % 2 ^ 16) ≡ pn
unfolding decode_packet_number
decode2 largest pn h1 h2 h3 h4 =
    rw (candidate_lem 16 (add64 largest 1) (pn % 2 ^ 16) (omega arith) (omega arith)) (ground arith)

decode3 :
    (largest pn : ℕ)
    → let e = add64 largest 1 in
      e < 2 ^ 62
      → pn < 2 ^ 62
      → e < pn + 2 ^ 23
      → pn ≤ e + 2 ^ 23
      → decode_packet_number 3 largest (pn % 2 ^ 24) ≡ pn
unfolding decode_packet_number
decode3 largest pn h1 h2 h3 h4 =
    rw (candidate_lem 24 (add64 largest 1) (pn % 2 ^ 24) (omega arith) (omega arith)) (ground arith)

decode4 :
    (largest pn : ℕ)
    → let e = add64 largest 1 in
      e < 2 ^ 62
      → pn < 2 ^ 62
      → e < pn + 2 ^ 31
      → pn ≤ e + 2 ^ 31
      → decode_packet_number 4 largest (pn % 2 ^ 32) ≡ pn
unfolding decode_packet_number
decode4 largest pn h1 h2 h3 h4 =
    rw (candidate_lem 32 (add64 largest 1) (pn % 2 ^ 32) (omega arith) (omega arith)) (ground arith)

-- DecodePacketNumber recovers a packet number from its low 1 to 4 bytes when it lies within half
-- of the window of that length around the number after the largest received one: above the lower
-- end, and not above the upper one. Both numbers are below 2 ^ 62.
pub decode_packet_number-truncated :
    (len largest pn : ℕ)
    → 1 ≤ len
    → len ≤ 4
    → let e = add64 largest 1 in
      let half = 2 ^ (len * 8) / 2 in
      e < 2 ^ 62
      → pn < 2 ^ 62
      → e < pn + half
      → pn ≤ e + half
      → decode_packet_number len largest (pn % 2 ^ (len * 8)) ≡ pn
decode_packet_number-truncated zero largest pn l m h1 h2 h3 h4 = absurd (omega arith)
decode_packet_number-truncated (suc zero) largest pn l m h1 h2 h3 h4 =
    decode1 largest pn h1 h2 h3 h4
decode_packet_number-truncated (suc (suc zero)) largest pn l m h1 h2 h3 h4 =
    decode2 largest pn h1 h2 h3 h4
decode_packet_number-truncated (suc (suc (suc zero))) largest pn l m h1 h2 h3 h4 =
    decode3 largest pn h1 h2 h3 h4
decode_packet_number-truncated (suc (suc (suc (suc zero)))) largest pn l m h1 h2 h3 h4 =
    decode4 largest pn h1 h2 h3 h4
decode_packet_number-truncated (suc (suc (suc (suc (suc n))))) largest pn l m h1 h2 h3 h4 =
    absurd (omega arith)

-- A receiver that has got every packet up to `largest`, the acknowledged one among them, recovers
-- the next ones from as many bytes as PacketNumberLengthForHeader chooses, up to 2 ^ 31 packets
-- after the acknowledged one.
pub decode_packet_number-length_for_header :
    (largest largest_acked pn : ℕ)
    → largest_acked ≤ largest
    → largest < pn
    → pn < 2 ^ 62
    → pn ≤ largest_acked + 2 ^ 31
    → let len = packet_number_length_for_header pn largest_acked in
      decode_packet_number len largest (pn % 2 ^ (len * 8)) ≡ pn
unfolding packet_number_length_for_header
decode_packet_number-length_for_header largest acked pn h1 h2 h3 h4 =
    ground (arith, decode1 largest pn, decode2 largest pn, decode3 largest pn, decode4 largest pn)

-- For the length that PacketNumberLengthForHeader chooses behind a largest acknowledged number of 0:
-- also for packets that come in late, with fewer than 127 after them that came in before.
pub decode_packet_number-near :
    (largest pn : ℕ)
    → largest + 1 < pn + 128
    → pn ≤ 2 ^ 31
    → let len = packet_number_length_for_header pn 0 in
      decode_packet_number len largest (pn % 2 ^ (len * 8)) ≡ pn
unfolding packet_number_length_for_header
decode_packet_number-near largest pn h m =
    ground (arith, decode1 largest pn, decode2 largest pn, decode3 largest pn, decode4 largest pn)
