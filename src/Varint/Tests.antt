-- ===== src/Varint/Tests.antt =====
-- Runs of quic/quicvarint/varint.go, and its theorems at concrete inputs.
use quic_test.Prelude.{◌-◌, ◌%◌, ◌^◌, ◌≡◌, refl, [], ◌∷◌, ◌++◌, arith, Bytes, ok}
use quic_test.Varint.{parse, append, len}
use quic_test.Varint.RoundTrip.{parse-append}

abbrev padded_25 : Bytes
padded_25 = 0x40 ∷ 0x19 ∷ []

-- The examples of RFC 9000, Appendix A.1.
parse-rfc : parse (0x9d ∷ 0x7f ∷ 0x3e ∷ 0x7d ∷ []) ≡ ok (494878333, 4)
unfolding parse
parse-rfc = refl

parse-rfc_padded : parse padded_25 ≡ ok (37 - 12, 2)
unfolding parse
parse-rfc_padded = refl

append-rfc : append [] 15293 ≡ 0x7b ∷ 0xbd ∷ []
unfolding append
append-rfc = refl

parse-append_example : parse (append [] 15293 ++ (7 ∷ [])) ≡ ok (15293 % 2 ^ 62, len 15293)
parse-append_example = parse-append 15293 (7 ∷ []) (omega arith)
