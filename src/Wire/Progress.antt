-- ===== src/Wire/Progress.antt =====
-- quic/wire: the offsets of the parsers.
pub mod Rules
mod Parsers
use quic_test.Prelude.{
  ℕ, ◌+◌, ◌≤◌, ◌≡◌, Bool, true, false, ◌&&◌, ◌||◌, not, [], ◌∷◌, arith, ltb, leb, ◌==◌,
  if◌then◌else◌, ==_iff, length, All, IsByte, Bytes, wrong_type, not_supported, Result, ok, err,
}
use quic_test.Varint
use quic_test.Varint.{at}
use quic_test.Varint.Bounds.{parse_bounds, parse-ne-panics}
use quic_test.Wire.Field.{next_varint, take_bytes}
use quic_test.Wire.Limits.{
  bidi, uni, is_not, parse_max_data_frame, parse_max_stream_data_frame, parse_max_streams_frame,
  parse_data_blocked_frame, parse_stream_data_blocked_frame, parse_streams_blocked_frame,
}
use quic_test.Wire.Control.{
  count_zeros, parse_padding_frame, parse_ping_frame, parse_path_challenge_frame,
  parse_path_response_frame, parse_reset_stream_frame, parse_stop_sending_frame,
  parse_connection_close_frame,
}
use quic_test.Wire.Stream.{parse_stream_frame, parse_crypto_frame}
use quic_test.Wire.Ack.{AckRange, next_range, parse_ranges, parse_ack_frame}
use quic_test.Wire.Frame.{
  Frame, padding, ping, ack, reset_stream, stop_sending, crypto, stream, max_data, max_stream_data,
  max_streams, data_blocked, stream_data_blocked, streams_blocked, path_challenge, path_response,
  connection_close, as_frame, parse_by_type, parse_next,
}
use Rules.{Advances-err, Advances, Advances-if, Advances-as_frame}
use Parsers.{
  Advances-reset_stream, Advances-stop_sending, Advances-max_data, Advances-max_stream_data,
  Advances-max_streams, Advances-data_blocked, Advances-stream_data_blocked,
  Advances-streams_blocked, Advances-crypto, Advances-stream, Advances-connection_close,
  Advances-ack,
}

count_zeros_bounds :
    (xs : Bytes) (i : ℕ) → (i ≤ count_zeros xs i) × (count_zeros xs i ≤ i + length xs)
unfolding count_zeros
count_zeros_bounds [] i = omega arith
count_zeros_bounds (x ∷ xs) i = ground (arith, count_zeros_bounds xs (i + 1))

-- ParseNext reads PADDING only where the first byte is a zero, so it takes that byte at least.
Advances-padding :
    (input : Bytes)
    → (length input == 0) ≡ false
    → at input 0 ≡ 0
    → Advances input 1 (parse_padding_frame input)
unfolding parse_padding_frame count_zeros Advances
Advances-padding [] e z = cc
Advances-padding (x ∷ xs) e z = ground (arith, count_zeros_bounds xs (0 + 1))

-- The two PATH parsers test that nine bytes are there.
Advances-nine :
    {A : Type 0} (input : Bytes) (c : Bool) (a : A)
    → Advances input 1 (if ltb (length input) 9 || c then err wrong_type else ok (a, 9))
unfolding Advances
Advances-nine input c a =
    Advances-if input 1 (ltb (length input) 9 || c) _ _ (λ e. tt) (λ e. ground arith)

module _ (input : Bytes) where
  -- One case of the switch.
  Advances-case :
      {A : Type 0} (c : Bool) (f : A → Frame) (x : Result (A × ℕ)) (y : Result (Frame × ℕ))
      → Advances input 1 x
      → Advances input 1 y
      → Advances input 1 (if c then as_frame f x else y)
  unfolding Advances
  Advances-case true f x y hx hy = Advances-as_frame input 1 f x hx
  Advances-case false f x y hx hy = hy

  Advances-unsupported :
      (c : Bool) (y : Result (Frame × ℕ))
      → Advances input 1 y
      → Advances input 1 (if c then err not_supported else y)
  unfolding Advances
  Advances-unsupported true y hy = tt
  Advances-unsupported false y hy = hy

Advances-ping :
    (input : Bytes) → (length input == 0) ≡ false → Advances input 1 (parse_ping_frame input)
unfolding parse_ping_frame Advances
Advances-ping input e = Advances-if input 1 (is_not input 0x01) _ _ (λ _. tt) (λ _. ground arith)

Advances-parse_by_type :
    (input : Bytes)
    → All IsByte input
    → (length input == 0) ≡ false
    → Advances input 1 (parse_by_type (at input 0) input)
unfolding parse_by_type parse_path_challenge_frame parse_path_response_frame
Advances-parse_by_type input h e =
    Advances-if input 1 (at input 0 == 0x00) _ _
      (λ z. Advances-as_frame input 1 padding _ (Advances-padding input e ((==_iff _ _).0 z)))
      λ _.
        Advances-case input (at input 0 == 0x01) (λ _. ping) _ _ (Advances-ping input e)
          (Advances-case input (at input 0 == 0x02 || at input 0 == 0x03) ack _ _
            (Advances-ack input h)
            (Advances-case input (at input 0 == 0x04) reset_stream _ _
              (Advances-reset_stream input h)
              (Advances-case input (at input 0 == 0x05) stop_sending _ _
                (Advances-stop_sending input h)
                (Advances-case input (at input 0 == 0x06) crypto _ _ (Advances-crypto input h) (
                  Advances-unsupported input (at input 0 == 0x07) _ (
                    Advances-case input (leb 0x08 (at input 0) && leb (at input 0) 0x0f) stream _ _
                      (Advances-stream input h)
                      (Advances-case input (at input 0 == 0x10) max_data _ _
                        (Advances-max_data input h)
                        (Advances-case input (at input 0 == 0x11) max_stream_data _ _
                          (Advances-max_stream_data input h)
                          (Advances-case input (at input 0 == 0x12 || at input 0 == 0x13)
                            max_streams _ _ (Advances-max_streams input h)
                            (Advances-case input (at input 0 == 0x14) data_blocked _ _
                              (Advances-data_blocked input h)
                              (Advances-case input (at input 0 == 0x15) stream_data_blocked _ _
                                (Advances-stream_data_blocked input h)
                                (Advances-case input (at input 0 == 0x16 || at input 0 == 0x17)
                                  streams_blocked _ _ (Advances-streams_blocked input h)
                                  (Advances-unsupported input
                                    (at input 0 == 0x18 || at input 0 == 0x19) _
                                    (Advances-case input (at input 0 == 0x1a) path_challenge _ _
                                      (Advances-nine input (not (at input 0 == 0x1a)) _)
                                      (Advances-case input (at input 0 == 0x1b) path_response _ _
                                        (Advances-nine input (not (at input 0 == 0x1b)) _)
                                        (Advances-case input
                                          (at input 0 == 0x1c || at input 0 == 0x1d)
                                          connection_close _ _ (Advances-connection_close input h)
                                          (Advances-unsupported input
                                            (at input 0 == 0x1e
                                              || at input 0 == 0x30
                                              || at input 0 == 0x31)
                                            _ (Advances-err input _ 1 _))))))))))))))))))

-- On every byte string ParseNext returns an error, or a frame and the number of bytes that it took:
-- one at least, and no more than there are. It never panics.
pub parse_next-Advances : (input : Bytes) → All IsByte input → Advances input 1 (parse_next input)
unfolding parse_next
parse_next-Advances input h =
    Advances-if input 1 (length input == 0) _ _ (λ _. Advances-err input _ 1 _)
      (Advances-parse_by_type input h)
