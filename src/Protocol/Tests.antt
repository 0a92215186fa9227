-- ===== src/Protocol/Tests.antt =====
-- Runs of quic/protocol/types.go, and its theorems at concrete inputs.
use quic_test.Prelude.{◌*◌, ◌%◌, ◌^◌, ◌≡◌, refl, arith}
use quic_test.Protocol.PacketNumber.{decode_packet_number}
use quic_test.Protocol.PacketNumber.Decoding.{decode_packet_number-truncated}

-- The example of RFC 9000, Appendix A.3.
decode-rfc : decode_packet_number 2 0xa82f30ea 0x9b32 ≡ 0xa82f9b32
unfolding decode_packet_number
decode-rfc = refl

decode_packet_number-truncated_example :
    decode_packet_number 2 0xa82f30ea (0xa82f9b32 % 2 ^ (2 * 8)) ≡ 0xa82f9b32
decode_packet_number-truncated_example =
    decode_packet_number-truncated 2 0xa82f30ea 0xa82f9b32 (omega arith) (omega arith) (omega arith)
      (omega arith) (omega arith) (omega arith)
