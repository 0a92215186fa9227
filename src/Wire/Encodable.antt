-- ===== src/Wire/Encodable.antt =====
-- Which frames the wire format can carry, and what may follow them in a packet.
use quic_test.Prelude.{ℕ, ◌+◌, ◌%◌, ◌^◌, ◌≤◌, ◌<◌, ◌≡◌, ◌≢◌, false, List, [], ◌∷◌, length, Bytes}
use quic_test.Wire.Field.{IsField}
use quic_test.Wire.Ack.{AckRange, millisecond}
use quic_test.Wire.Frame.{
  Frame, padding, ping, ack, reset_stream, stop_sending, crypto, stream, max_data, max_stream_data,
  max_streams, data_blocked, stream_data_blocked, streams_blocked, path_challenge, path_response,
  connection_close,
}

abbrev pub IsRange : AckRange → Type 0
IsRange r = (r.smallest ≤ r.largest) × (r.largest < 2 ^ 62)

-- The ranges fall, with a packet missing between any two of them.
abbrev pub Descends : AckRange → List AckRange → Type 0
Descends prev [] = Unit {0}
Descends prev (r ∷ rs) = (r.smallest ≤ r.largest) × (r.largest + 2 ≤ prev.smallest) × Descends r rs

-- PADDING ends at the first byte that is not zero.
abbrev pub NoZero : Bytes → Type 0
NoZero [] = Unit {0}
NoZero (x ∷ xs) = x ≢ 0

-- A delay of whole milliseconds, which is all that the wire carries.
abbrev pub IsDelay : ℕ → Type 0
IsDelay d = (d < 2 ^ 63) × (d % millisecond ≡ 0)

abbrev pub IsAck : List AckRange → ℕ → Type 0
IsAck [] d = ⊥
IsAck (r ∷ rs) d = IsRange r × Descends r rs × IsField (length rs) × IsDelay d

-- The frames that the wire format can carry: fields below 2 ^ 62, falling ACK ranges.
abbrev pub IsEncodable : Frame → Type 0
IsEncodable (padding f) = 1 ≤ f.pad_length
IsEncodable ping = Unit {0}
IsEncodable (ack f) = IsAck f.ack_ranges f.delay_time
IsEncodable (reset_stream f) = IsField f.stream_id × IsField f.error_code × IsField f.final_size
IsEncodable (stop_sending f) = IsField f.stream_id × IsField f.error_code
IsEncodable (crypto f) = IsField f.offset × IsField (length f.payload)
IsEncodable (stream f) = IsField f.stream_id × IsField f.offset × IsField (length f.payload)
IsEncodable (max_data f) = IsField f.maximum_data
IsEncodable (max_stream_data f) = IsField f.stream_id × IsField f.maximum_stream_data
IsEncodable (max_streams f) = IsField f.max_streams
IsEncodable (data_blocked f) = IsField f.max_data
IsEncodable (stream_data_blocked f) = IsField f.stream_id × IsField f.maximum_stream_data
IsEncodable (streams_blocked f) = IsField f.streams
IsEncodable (path_challenge f) = length f.challenge ≡ 8
IsEncodable (path_response f) = length f.response ≡ 8
IsEncodable (connection_close f) = IsField f.error_code × IsField (length f.reason_phrase)

-- What may follow: no zero behind PADDING, nothing behind a STREAM frame without a length.
abbrev pub Follows : Frame → Bytes → Type 0
Follows (padding f) rest = NoZero rest
Follows (stream f) rest = f.data_len_present ≡ false → rest ≡ []
Follows _ rest = Unit {0}
