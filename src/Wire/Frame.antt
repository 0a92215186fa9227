-- ===== src/Wire/Frame.antt =====
-- The Frame interface and FrameParser.ParseNext of frame.go. A constructor stands for each type
-- that implements the interface.
use quic_test.Prelude.{
  ℕ, ◌&&◌, ◌||◌, leb, ◌==◌, if◌then◌else◌, length, Bytes, unexpected_eof, not_supported,
  unknown_frame, Result, ok, err, map_ok,
}
use quic_test.Varint.{at}
use quic_test.Wire.Limits.{
  MaxDataFrame, MaxStreamDataFrame, MaxStreamsFrame, DataBlockedFrame, StreamDataBlockedFrame,
  StreamsBlockedFrame, parse_max_data_frame, parse_max_stream_data_frame, parse_max_streams_frame,
  parse_data_blocked_frame, parse_stream_data_blocked_frame, parse_streams_blocked_frame,
  append_max_data_frame, append_max_stream_data_frame, append_max_streams_frame,
  append_data_blocked_frame, append_stream_data_blocked_frame, append_streams_blocked_frame,
  length_max_data_frame, length_max_stream_data_frame, length_max_streams_frame,
  length_data_blocked_frame, length_stream_data_blocked_frame, length_streams_blocked_frame,
}
use quic_test.Wire.Control.{
  PaddingFrame, PathChallengeFrame, PathResponseFrame, ResetStreamFrame, StopSendingFrame,
  ConnectionCloseFrame, parse_padding_frame, parse_ping_frame, parse_path_challenge_frame,
  parse_path_response_frame, parse_reset_stream_frame, parse_stop_sending_frame,
  parse_connection_close_frame, append_padding_frame, append_ping_frame,
  append_path_challenge_frame, append_path_response_frame, append_reset_stream_frame,
  append_stop_sending_frame, append_connection_close_frame, length_padding_frame,
  length_reset_stream_frame, length_stop_sending_frame, length_connection_close_frame,
}
use quic_test.Wire.Stream.{
  StreamFrame, CryptoFrame, parse_stream_frame, parse_crypto_frame, append_stream_frame,
  append_crypto_frame, length_stream_frame, length_crypto_frame,
}
use quic_test.Wire.Ack.{AckFrame, parse_ack_frame, append_ack_frame, length_ack_frame}

pub data Frame : Type 0 where
  padding : PaddingFrame → Frame
  ping : Frame
  ack : AckFrame → Frame
  reset_stream : ResetStreamFrame → Frame
  stop_sending : StopSendingFrame → Frame
  crypto : CryptoFrame → Frame
  stream : StreamFrame → Frame
  max_data : MaxDataFrame → Frame
  max_stream_data : MaxStreamDataFrame → Frame
  max_streams : MaxStreamsFrame → Frame
  data_blocked : DataBlockedFrame → Frame
  stream_data_blocked : StreamDataBlockedFrame → Frame
  streams_blocked : StreamsBlockedFrame → Frame
  path_challenge : PathChallengeFrame → Frame
  path_response : PathResponseFrame → Frame
  connection_close : ConnectionCloseFrame → Frame

abbrev pub as_frame : {A : Type 0} → (A → Frame) → Result (A × ℕ) → Result (Frame × ℕ)
as_frame c r = map_ok (λ p. (c p.0, p.1)) r

-- The switch of ParseNext on the first byte of a non-empty input.
unfoldable pub parse_by_type : ℕ → Bytes → Result (Frame × ℕ)
parse_by_type t input =
    if t == 0x00
    then as_frame padding (parse_padding_frame input)
    else if t == 0x01
    then as_frame (λ _. ping) (parse_ping_frame input)
    else if t == 0x02 || t == 0x03
    then as_frame ack (parse_ack_frame input)
    else if t == 0x04
    then as_frame reset_stream (parse_reset_stream_frame input)
    else if t == 0x05
    then as_frame stop_sending (parse_stop_sending_frame input)
    else if t == 0x06
    then as_frame crypto (parse_crypto_frame input)
    else if t == 0x07
    then err not_supported
    else if leb 0x08 t && leb t 0x0f
    then as_frame stream (parse_stream_frame input)
    else if t == 0x10
    then as_frame max_data (parse_max_data_frame input)
    else if t == 0x11
    then as_frame max_stream_data (parse_max_stream_data_frame input)
    else if t == 0x12 || t == 0x13
    then as_frame max_streams (parse_max_streams_frame input)
    else if t == 0x14
    then as_frame data_blocked (parse_data_blocked_frame input)
    else if t == 0x15
    then as_frame stream_data_blocked (parse_stream_data_blocked_frame input)
    else if t == 0x16 || t == 0x17
    then as_frame streams_blocked (parse_streams_blocked_frame input)
    else if t == 0x18 || t == 0x19
    then err not_supported
    else if t == 0x1a
    then as_frame path_challenge (parse_path_challenge_frame input)
    else if t == 0x1b
    then as_frame path_response (parse_path_response_frame input)
    else if t == 0x1c || t == 0x1d
    then as_frame connection_close (parse_connection_close_frame input)
    else if t == 0x1e || t == 0x30 || t == 0x31
    then err not_supported
    else err (unknown_frame t)

unfoldable pub parse_next : Bytes → Result (Frame × ℕ)
unfolding parse_by_type
parse_next input =
    if length input == 0 then err unexpected_eof else parse_by_type (at input 0) input

-- The method Append of the interface: the buffer with the frame behind it.
unfoldable pub append_frame : Bytes → Frame → Result Bytes
append_frame b (padding f) = ok (append_padding_frame b f)
append_frame b ping = ok (append_ping_frame b)
append_frame b (ack f) = append_ack_frame b f
append_frame b (reset_stream f) = ok (append_reset_stream_frame b f)
append_frame b (stop_sending f) = ok (append_stop_sending_frame b f)
append_frame b (crypto f) = ok (append_crypto_frame b f)
append_frame b (stream f) = ok (append_stream_frame b f)
append_frame b (max_data f) = ok (append_max_data_frame b f)
append_frame b (max_stream_data f) = ok (append_max_stream_data_frame b f)
append_frame b (max_streams f) = ok (append_max_streams_frame b f)
append_frame b (data_blocked f) = ok (append_data_blocked_frame b f)
append_frame b (stream_data_blocked f) = ok (append_stream_data_blocked_frame b f)
append_frame b (streams_blocked f) = ok (append_streams_blocked_frame b f)
append_frame b (path_challenge f) = ok (append_path_challenge_frame b f)
append_frame b (path_response f) = ok (append_path_response_frame b f)
append_frame b (connection_close f) = ok (append_connection_close_frame b f)

-- The method Length. PING has length 1, and the two PATH frames 9.
unfoldable pub length_frame : Frame → Result ℕ
length_frame (padding f) = ok (length_padding_frame f)
length_frame ping = ok 1
length_frame (ack f) = length_ack_frame f
length_frame (reset_stream f) = ok (length_reset_stream_frame f)
length_frame (stop_sending f) = ok (length_stop_sending_frame f)
length_frame (crypto f) = ok (length_crypto_frame f)
length_frame (stream f) = ok (length_stream_frame f)
length_frame (max_data f) = ok (length_max_data_frame f)
length_frame (max_stream_data f) = ok (length_max_stream_data_frame f)
length_frame (max_streams f) = ok (length_max_streams_frame f)
length_frame (data_blocked f) = ok (length_data_blocked_frame f)
length_frame (stream_data_blocked f) = ok (length_stream_data_blocked_frame f)
length_frame (streams_blocked f) = ok (length_streams_blocked_frame f)
length_frame (path_challenge f) = ok 9
length_frame (path_response f) = ok 9
length_frame (connection_close f) = ok (length_connection_close_frame f)
