-- ===== src/Wire/Progress/Parsers.antt =====
-- The parsers of the frames, each from offset 1.
use quic_test.Prelude.{
  ℕ, zero, suc, ◌≤◌, bit_and, true, false, ◌&&◌, not, List, [], ◌∷◌, ◌++◌, arith, ltb, ◌==◌, length,
  All, IsByte, Bytes, wrong_type, Result, ◌>>=◌,
}
use quic_test.Varint.{at}
use quic_test.Wire.Field.{next_varint}
use quic_test.Wire.Limits.{
  bidi, uni, is_not, parse_max_data_frame, parse_max_stream_data_frame, parse_max_streams_frame,
  parse_data_blocked_frame, parse_stream_data_blocked_frame, parse_streams_blocked_frame,
}
use quic_test.Wire.Control.{
  parse_reset_stream_frame, parse_stop_sending_frame, parse_connection_close_frame,
}
use quic_test.Wire.Stream.{parse_stream_frame, parse_crypto_frame}
use quic_test.Wire.Ack.{AckRange, next_range, parse_ranges, parse_ack_frame}
use quic_test.Wire.Progress.Rules.{
  Advances, Advances-bind, Advances-if, Advances-choice, Advances-take_bytes, Advances-next_varint,
}

module _ (input : Bytes) (bytes : All IsByte input) where
  -- Two fields, and what the parser makes of them.
  pub Advances-fields :
      {B : Type 0} (offset : ℕ) (k : ℕ × ℕ → Result (B × ℕ))
      → ((v p : ℕ) → p ≤ length input → Advances input p (k (v, p)))
      → Advances input offset (next_varint input offset >>= k)
  unfolding Advances
  Advances-fields offset k h =
      Advances-bind input offset _ k (Advances-next_varint input bytes offset) h

  pub Advances-reset_stream : Advances input 1 (parse_reset_stream_frame input)
  unfolding parse_reset_stream_frame Advances
  Advances-reset_stream =
      Advances-if input 1 (is_not input 0x04) _ _ (λ e. tt)
        λ e.
          Advances-fields 1 _ λ v p _.
            Advances-fields p _ λ w q _. Advances-fields q _ λ u r r_le. (omega arith, r_le)

  pub Advances-stop_sending : Advances input 1 (parse_stop_sending_frame input)
  unfolding parse_stop_sending_frame Advances
  Advances-stop_sending =
      Advances-if input 1 (is_not input 0x05) _ _ (λ e. tt)
        λ e. Advances-fields 1 _ λ v p _. Advances-fields p _ λ w q q_le. (omega arith, q_le)

  pub Advances-max_data : Advances input 1 (parse_max_data_frame input)
  unfolding parse_max_data_frame Advances
  Advances-max_data =
      Advances-if input 1 (is_not input 0x10) _ _ (λ e. tt)
        λ e. Advances-fields 1 _ λ v p p_le. (omega arith, p_le)

  pub Advances-max_stream_data : Advances input 1 (parse_max_stream_data_frame input)
  unfolding parse_max_stream_data_frame Advances
  Advances-max_stream_data =
      Advances-if input 1 (is_not input 0x11) _ _ (λ e. tt)
        λ e. Advances-fields 1 _ λ v p _. Advances-fields p _ λ w q q_le. (omega arith, q_le)

  pub Advances-data_blocked : Advances input 1 (parse_data_blocked_frame input)
  unfolding parse_data_blocked_frame Advances
  Advances-data_blocked =
      Advances-if input 1 (is_not input 0x14) _ _ (λ e. tt)
        λ e. Advances-fields 1 _ λ v p p_le. (omega arith, p_le)

  pub Advances-stream_data_blocked : Advances input 1 (parse_stream_data_blocked_frame input)
  unfolding parse_stream_data_blocked_frame Advances
  Advances-stream_data_blocked =
      Advances-if input 1 (is_not input 0x15) _ _ (λ e. tt)
        λ e. Advances-fields 1 _ λ v p _. Advances-fields p _ λ w q q_le. (omega arith, q_le)

  pub Advances-max_streams : Advances input 1 (parse_max_streams_frame input)
  unfolding parse_max_streams_frame Advances
  Advances-max_streams =
      Advances-if input 1 (ltb (length input) 1) _ _ (λ e. tt)
        λ e.
          Advances-choice input 1 (at input 0 == 0x12) (at input 0 == 0x13) bidi uni wrong_type _
            λ t. Advances-fields 1 _ λ v p p_le. (omega arith, p_le)

  pub Advances-streams_blocked : Advances input 1 (parse_streams_blocked_frame input)
  unfolding parse_streams_blocked_frame Advances
  Advances-streams_blocked =
      Advances-if input 1 (ltb (length input) 1) _ _ (λ e. tt)
        λ e.
          Advances-choice input 1 (at input 0 == 0x16) (at input 0 == 0x17) bidi uni wrong_type _
            λ t. Advances-fields 1 _ λ v p p_le. (omega arith, p_le)

  pub Advances-crypto : Advances input 1 (parse_crypto_frame input)
  unfolding parse_crypto_frame Advances
  Advances-crypto =
      Advances-if input 1 (is_not input 0x06) _ _ (λ e. tt)
        λ e. Advances-fields 1 _ λ v p _. Advances-fields p _ λ w q _.
          Advances-bind input q _ _ (Advances-take_bytes input q w) λ b r r_le. (omega arith, r_le)

  pub Advances-connection_close : Advances input 1 (parse_connection_close_frame input)
  unfolding parse_connection_close_frame Advances
  Advances-connection_close =
      Advances-if input 1 (ltb (length input) 1) _ _ (λ e. tt)
        λ e.
          Advances-choice input 1 (at input 0 == 0x1c) (at input 0 == 0x1d) false true wrong_type _
            λ app. Advances-fields 1 _ λ v p p_le.
              Advances-bind input p _ _
                (Advances-if input p app _ _ (λ e. (omega arith, p_le))
                  (λ e. Advances-next_varint input bytes p))
                λ t q _. Advances-fields q _ λ w r _.
                  Advances-bind input r _ _ (Advances-take_bytes input r w)
                    λ b s s_le. (omega arith, s_le)

  pub Advances-stream : Advances input 1 (parse_stream_frame input)
  unfolding parse_stream_frame Advances
  Advances-stream =
      Advances-if input 1 (ltb (length input) 1) _ _ (λ e. tt)
        λ e.
          Advances-if input 1 (not (bit_and (at input 0) 0xf8 == 0x08)) _ _ (λ e. tt)
            λ e. Advances-fields 1 _ λ v p p_le.
              Advances-bind input p _ _
                (Advances-if input p (ltb 0 (bit_and (at input 0) 0x04)) _ _
                  (λ e. Advances-next_varint input bytes p) (λ e. (omega arith, p_le)))
                λ o q q_le.
                  Advances-bind input q _ _
                    (Advances-if input q (ltb 0 (bit_and (at input 0) 0x02)) _ _
                      (λ e. Advances-next_varint input bytes q) (λ e. (omega arith, q_le)))
                    λ w r _.
                      Advances-bind input r _ _ (Advances-take_bytes input r w)
                        λ b s s_le. (omega arith, s_le)

  pub Advances-parse_ranges :
      (count offset : ℕ) (ranges : List AckRange) (prev : AckRange)
      → offset ≤ length input
      → Advances input offset (parse_ranges input count offset ranges prev)
  unfolding parse_ranges Advances
  Advances-parse_ranges zero offset ranges prev h = (omega arith, h)
  Advances-parse_ranges (suc count) offset ranges prev h = Advances-fields offset _ λ gap p _.
      Advances-fields p _ λ block q q_le.
        let r = next_range prev gap block in
        Advances-parse_ranges count q (ranges ++ (r ∷ [])) r q_le

  pub Advances-ack : Advances input 1 (parse_ack_frame input)
  unfolding parse_ack_frame Advances
  Advances-ack =
      Advances-if input 1 (ltb (length input) 1) _ _ (λ e. tt)
        λ e.
          Advances-if input 1 (not (at input 0 == 0x02) && not (at input 0 == 0x03)) _ _ (λ e. tt)
            λ e. Advances-fields 1 _ λ v p _. Advances-fields p _ λ w q _.
              Advances-fields q _ λ n r _. Advances-fields r _ λ m s s_le.
                Advances-bind input s _ _ (Advances-parse_ranges n s _ _ s_le)
                  λ rs t t_le. (omega arith, t_le)
