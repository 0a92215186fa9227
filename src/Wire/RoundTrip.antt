-- ===== src/Wire/RoundTrip.antt =====
-- ParseNext after Append, for every frame.
mod Fields
mod Payloads
mod Streams
mod Acks
use quic_test.Prelude.{
  ℕ, zero, suc, ◌+◌, ◌*◌, ◌/◌, ◌^◌, ◌≤◌, ◌<◌, ◌≡◌, refl, ap, ◌∙◌, ◌≢◌, Bool, true, false, List, [],
  ◌∷◌, ◌++◌, append_assoc, arith, length, replicate, Bytes, Result, ok, map_ok,
}
use quic_test.Wire.Encodable.{IsRange, Descends, NoZero, IsDelay, IsAck, IsEncodable, Follows}
use quic_test.Varint
use quic_test.Wire.Field.{IsField, varint, length-varint}
use quic_test.Wire.Limits.{
  StreamType, bidi, uni, by_type, length_max_data_frame, length_max_stream_data_frame,
  length_max_streams_frame, length_data_blocked_frame, length_stream_data_blocked_frame,
  length_streams_blocked_frame,
}
use quic_test.Wire.Control.{
  ConnectionCloseFrame, count_zeros, parse_padding_frame, parse_ping_frame, length_padding_frame,
  length_reset_stream_frame, length_stop_sending_frame, length_connection_close_frame,
}
use quic_test.Wire.Stream.{
  StreamFrame, stream_first_byte, length_stream_frame, parse_stream_frame, length_crypto_frame,
}
use quic_test.Wire.Ack.{AckRange, AckFrame, millisecond, milliseconds, length_ack_frame}
use quic_test.Wire.Frame.{
  Frame, padding, ping, ack, reset_stream, stop_sending, crypto, stream, max_data, max_stream_data,
  max_streams, data_blocked, stream_data_blocked, streams_blocked, path_challenge, path_response,
  connection_close, as_frame, parse_by_type, parse_next, append_frame, length_frame,
}
use quic_test.Wire.Image.{image, image_close, IsWritable, append_frame-image, length_frame-image}
use Fields.{
  parse_reset_stream_lem, parse_max_data_lem, parse_max_stream_data_lem, parse_data_blocked_lem,
  parse_stream_data_blocked_lem, parse_stop_sending_lem, parse_max_streams_lem,
  parse_streams_blocked_lem,
}
use Payloads.{
  count_zeros_lem, parse_path_challenge_lem, parse_path_response_lem, parse_crypto_lem,
  parse_connection_close_lem,
}
use Streams.{stream_first_byte_bounds, parse_stream_lem}
use Acks.{parse_ack_lem, delay_lem}

parse_next-cons : (t : ℕ) (bs : Bytes) → parse_next (t ∷ bs) ≡ parse_by_type t (t ∷ bs)
unfolding parse_next
parse_next-cons t bs = ground arith

parse_stream_type :
    (f : StreamFrame) (bs : Bytes)
    → parse_next (stream_first_byte f ∷ bs)
      ≡ as_frame stream (parse_stream_frame (stream_first_byte f ∷ bs))
unfolding parse_next parse_by_type
parse_stream_type f bs = ground (arith, stream_first_byte_bounds f)

IsAck-ne-nil : (rs : List AckRange) (d : ℕ) → IsAck rs d → rs ≢ []
IsAck-ne-nil [] d h = absurd h
IsAck-ne-nil (r ∷ rs) d h = λ e. cc

pub IsEncodable-IsWritable : (f : Frame) → IsEncodable f → IsWritable f
IsEncodable-IsWritable (ack f) h = IsAck-ne-nil f.ack_ranges f.delay_time h
IsEncodable-IsWritable (path_challenge f) h = h
IsEncodable-IsWritable (path_response f) h = h
IsEncodable-IsWritable _ h = tt

-- What ParseNext should return on a frame.
abbrev read_back : Frame → Result (Frame × ℕ)
read_back f = map_ok (λ n. (f, n)) (length_frame f)

parse_next-padding :
    (n : ℕ) (rest : Bytes)
    → 1 ≤ n
    → NoZero rest
    → parse_next (replicate n 0 ++ rest) ≡ ok (padding (record { pad_length = n }), n)
unfolding parse_by_type parse_padding_frame
parse_next-padding zero rest h d = absurd (omega arith)
parse_next-padding (suc n) rest h d =
    let zeros : count_zeros (replicate (suc n) 0 ++ rest) 0 ≡ suc n =
      count_zeros_lem (suc n) 0 rest d ∙ omega arith in
    parse_next-cons 0 (replicate n 0 ++ rest)
    ∙ ap (λ (k : ℕ). ok (padding (record { pad_length = k }), k)) zeros

parse_next-ack_delay :
    (r : AckRange) (rs : List AckRange) (k : ℕ) (rest : Bytes)
    → IsRange r
    → Descends r rs
    → IsField (length rs)
    → k * millisecond < 2 ^ 63
    → let f : AckFrame = record { ack_ranges = r ∷ rs; delay_time = k * millisecond } in
      parse_next (image (ack f) ++ rest) ≡ read_back (ack f)
unfolding parse_by_type length_frame length_ack_frame
parse_next-ack_delay r rs k rest hr v few short =
    parse_next-cons 0x02 _
    ∙ ap (as_frame ack) (parse_ack_lem r rs k rest hr v few short)
    ∙ rw (delay_lem k short) refl

parse_next-ack :
    (rs : List AckRange) (d : ℕ) (rest : Bytes)
    → IsAck rs d
    → let f : AckFrame = record { ack_ranges = rs; delay_time = d } in
      parse_next (image (ack f) ++ rest) ≡ read_back (ack f)
parse_next-ack [] d rest h = absurd h
parse_next-ack (r ∷ rs) d rest (hr, v, few, (short, whole)) =
    let e : d / millisecond * millisecond ≡ d = omega arith in
    rw e at (parse_next-ack_delay r rs (d / millisecond) rest hr v few (omega arith))

parse_next-streams :
    (t : StreamType) (n : ℕ) (rest : Bytes)
    → IsField n
    → parse_next (by_type t 0x12 0x13 ∷ (varint n ++ rest))
      ≡ ok (max_streams (record { stream_type = t; max_streams = n }), 1 + Varint.len n)
unfolding parse_by_type
parse_next-streams bidi n rest h =
    parse_next-cons 0x12 _ ∙ rw (parse_max_streams_lem bidi n rest h) refl
parse_next-streams uni n rest h =
    parse_next-cons 0x13 _ ∙ rw (parse_max_streams_lem uni n rest h) refl

parse_next-blocked :
    (t : StreamType) (n : ℕ) (rest : Bytes)
    → IsField n
    → parse_next (by_type t 0x16 0x17 ∷ (varint n ++ rest))
      ≡ ok (streams_blocked (record { stream_type = t; streams = n }), 1 + Varint.len n)
unfolding parse_by_type
parse_next-blocked bidi n rest h =
    parse_next-cons 0x16 _ ∙ rw (parse_streams_blocked_lem bidi n rest h) refl
parse_next-blocked uni n rest h =
    parse_next-cons 0x17 _ ∙ rw (parse_streams_blocked_lem uni n rest h) refl

parse_next-close :
    (app : Bool) (ec : ℕ) (reason rest : Bytes)
    → IsField ec
    → IsField (length reason)
    → let f : ConnectionCloseFrame = record {
      is_application = app;
      error_code = ec;
      reason_phrase = reason;
    } in
      parse_next (image_close f ++ rest) ≡ read_back (connection_close f)
unfolding parse_by_type length_frame length_connection_close_frame
parse_next-close true ec reason rest h1 h2 =
    parse_next-cons 0x1d _ ∙ rw (parse_connection_close_lem true ec reason rest h1 h2) refl
parse_next-close false ec reason rest h1 h2 =
    parse_next-cons 0x1c _ ∙ rw (parse_connection_close_lem false ec reason rest h1 h2) refl

-- ParseNext on the image of a frame.
parse_next-image :
    (f : Frame) (rest : Bytes)
    → IsEncodable f
    → Follows f rest
    → parse_next (image f ++ rest) ≡ read_back f
unfolding parse_by_type parse_ping_frame length_frame length_padding_frame length_reset_stream_frame
    length_stop_sending_frame length_crypto_frame length_max_data_frame length_max_stream_data_frame
    length_max_streams_frame length_data_blocked_frame length_stream_data_blocked_frame
    length_streams_blocked_frame length_connection_close_frame
parse_next-image (padding f) rest h d = parse_next-padding f.pad_length rest h d
parse_next-image ping rest h d = parse_next-cons 0x01 rest ∙ ground arith
parse_next-image (ack f) rest h d = parse_next-ack f.ack_ranges f.delay_time rest h
parse_next-image (reset_stream f) rest h d = simp append_assoc (
    rw (parse_next-cons, parse_reset_stream_lem f rest h.0 h.1 h.2)
      (ap (λ (n : ℕ). ok (reset_stream f, n)) (omega arith)))
parse_next-image (stop_sending f) rest h d = simp append_assoc (
    rw (parse_next-cons, parse_stop_sending_lem f rest h.0 h.1)
      (ap (λ (n : ℕ). ok (stop_sending f, n)) (omega arith)))
parse_next-image (crypto f) rest h d = simp append_assoc (
    rw (parse_next-cons, parse_crypto_lem f rest h.0 h.1)
      (ap (λ (n : ℕ). ok (crypto f, n)) (omega arith)))
parse_next-image (stream f) rest h d =
    parse_stream_type f _ ∙ ap (as_frame stream) (parse_stream_lem f rest h.0 h.1 h.2 d)
parse_next-image (max_data f) rest h d =
    rw (parse_next-cons, parse_max_data_lem f rest h)
      (ap (λ (n : ℕ). ok (max_data f, n)) (omega arith))
parse_next-image (max_stream_data f) rest h d = simp append_assoc (
    rw (parse_next-cons, parse_max_stream_data_lem f rest h.0 h.1)
      (ap (λ (n : ℕ). ok (max_stream_data f, n)) (omega arith)))
parse_next-image (max_streams f) rest h d = parse_next-streams f.stream_type f.max_streams rest h
parse_next-image (data_blocked f) rest h d =
    rw (parse_next-cons, parse_data_blocked_lem f rest h)
      (ap (λ (n : ℕ). ok (data_blocked f, n)) (omega arith))
parse_next-image (stream_data_blocked f) rest h d = simp append_assoc (
    rw (parse_next-cons, parse_stream_data_blocked_lem f rest h.0 h.1)
      (ap (λ (n : ℕ). ok (stream_data_blocked f, n)) (omega arith)))
parse_next-image (streams_blocked f) rest h d = parse_next-blocked f.stream_type f.streams rest h
parse_next-image (path_challenge f) rest h d =
    rw (parse_next-cons, parse_path_challenge_lem f rest h) refl
parse_next-image (path_response f) rest h d =
    rw (parse_next-cons, parse_path_response_lem f rest h) refl
parse_next-image (connection_close f) rest h d =
    parse_next-close f.is_application f.error_code f.reason_phrase rest h.0 h.1

pub parse_image :
    (f : Frame) (rest : Bytes)
    → IsEncodable f
    → Follows f rest
    → parse_next (image f ++ rest) ≡ ok (f, length (image f))
parse_image f rest h d =
    parse_next-image f rest h d ∙ rw (length_frame-image f (IsEncodable-IsWritable f h)) refl

-- ParseNext reads back, with its length, every frame that the wire format can carry, from what
-- Append wrote for it into any buffer and whatever may follow it; Length is the number of bytes
-- that Append writes.
pub parse_next-append_frame :
    (f : Frame) (b rest : Bytes)
    → IsEncodable f
    → Follows f rest
    → (out : Bytes) × (append_frame b f ≡ ok (b ++ out))
      × (length_frame f ≡ ok (length out))
      × (parse_next (out ++ rest) ≡ ok (f, length out))
parse_next-append_frame f b rest h d =
    let w = IsEncodable-IsWritable f h in
    (image f, append_frame-image b f w, length_frame-image f w, parse_image f rest h d)
