-- ===== src/Wire/LongHeader/Bounds.antt =====
-- quic/wire/header.go: a long header inside its packet.
use quic_test.Prelude.{
  ℕ, ◌+◌, ◌≤◌, ◌≡◌, true, ◌&&◌, not, arith, ltb, leb, length, take, drop, All, length-take, IsByte,
  Bytes, ok,
}
use quic_test.Varint.{at}
use quic_test.Wire.Header.{parse_connection_id}
use quic_test.Wire.LongHeader.{
  PacketType, initial, zero_rtt, handshake, retry, is_version_negotiation_packet, wire_type,
  next_connection_id, next_token, parse_long_header,
}
use quic_test.Wire.Progress.Rules.{
  Advances, Advances-bind, Advances-if, Advances-take_bytes, Advances-next_varint,
}

few : (n : ℕ) → ltb 0 n && leb n 20 ≡ true → n ≤ 20
few n e = ground arith

parse_connection_id-kept : (b : Bytes) → length b ≤ 20 → parse_connection_id b ≡ ok b
unfolding parse_connection_id
parse_connection_id-kept b h = ground arith

module _ (input : Bytes) where
  Advances-connection_id : (offset : ℕ) → Advances input offset (next_connection_id input offset)
  unfolding next_connection_id Advances
  Advances-connection_id offset =
      let n = at input offset in
      let bs = take n (drop (offset + 1) input) in
      Advances-if input offset (not (ltb offset (length input))) _ _ (λ e. tt)
        λ _.
          Advances-if input offset (ltb (length input) (offset + 1 + n)) _ _ (λ e. tt)
            λ fits.
              Advances-if input offset (ltb 0 n && leb n 20) _ _
                (λ small.
                  rw
                    (parse_connection_id-kept bs
                      (omega (arith, length-take n (drop (offset + 1) input), few n small)))
                    (omega arith, ground arith))
                (λ _. (omega arith, ground arith))

module _ (input : Bytes) (bytes : All IsByte input) where
  Advances-token :
      (t : PacketType) (offset : ℕ)
      → offset ≤ length input
      → Advances input offset (next_token t input offset)
  unfolding next_token Advances
  Advances-token initial offset h =
      Advances-if input offset (not (ltb offset (length input))) _ _ (λ e. tt)
        λ e.
          Advances-bind input offset _ _ (Advances-next_varint input bytes offset)
            λ n p p_le. Advances-take_bytes input p n
  Advances-token zero_rtt offset h = (omega arith, h)
  Advances-token handshake offset h = (omega arith, h)
  Advances-token retry offset h = (omega arith, h)

  -- On every byte string parseLongHeaderPacket returns an error, or a header behind which the payload
  -- starts at offset 5 or later and not past the end of the packet. It never panics: a connection
  -- identifier that it keeps has at most 20 bytes.
  pub parse_long_header-Advances : Advances input 5 (parse_long_header input)
  unfolding parse_long_header Advances
  parse_long_header-Advances =
      Advances-if input 5 (ltb (length input) 5) _ _ (λ e. tt)
        λ e.
          Advances-if input 5 (is_version_negotiation_packet input) _ _ (λ e. tt)
            λ e. Advances-bind input 5 _ _ (Advances-connection_id input 5) λ dest p _.
              Advances-bind input p _ _ (Advances-connection_id input p) λ src q q_le.
                Advances-bind input q _ _ (Advances-token (wire_type (at input 0)) q q_le)
                  λ token r _.
                    Advances-if input r (not (ltb r (length input))) _ _ (λ e. tt)
                      λ e.
                        Advances-bind input r _ _ (Advances-next_varint input bytes r)
                          λ n s s_le. (omega arith, s_le)
