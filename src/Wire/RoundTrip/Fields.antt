-- ===== src/Wire/RoundTrip/Fields.antt =====
-- The parsers of the frames that hold one to three varints, on the images of those frames.
use quic_test.Prelude.{ℕ, ◌+◌, ◌≡◌, refl, ◌∷◌, ◌++◌, arith, Bytes, ok}
use quic_test.Varint
use quic_test.Wire.Control.{
  ResetStreamFrame, StopSendingFrame, parse_reset_stream_frame, parse_stop_sending_frame,
}
use quic_test.Wire.Limits.{
  by_type, bidi, uni, StreamType, MaxDataFrame, MaxStreamDataFrame, DataBlockedFrame,
  StreamDataBlockedFrame, parse_max_data_frame, parse_max_stream_data_frame,
  parse_max_streams_frame, parse_data_blocked_frame, parse_stream_data_blocked_frame,
  parse_streams_blocked_frame,
}
use quic_test.Wire.Field.{varint, next_varint_lem, two_varints, IsField}

pub parse_reset_stream_lem :
    (f : ResetStreamFrame) (rest : Bytes)
    → IsField f.stream_id
    → IsField f.error_code
    → IsField f.final_size
    → parse_reset_stream_frame
        (0x04 ∷ (varint f.stream_id ++ (varint f.error_code ++ (varint f.final_size ++ rest))))
      ≡ ok (f, 1 + Varint.len f.stream_id + Varint.len f.error_code + Varint.len f.final_size)
unfolding parse_reset_stream_frame
parse_reset_stream_lem f rest h1 h2 h3 =
    let r3 : Bytes = varint f.final_size ++ rest in
    let input : Bytes = 0x04 ∷ (varint f.stream_id ++ (varint f.error_code ++ r3)) in
    let (e1, e2, d) = two_varints input r3 1 f.stream_id f.error_code refl h1 h2 in
    rw (e1, e2, (next_varint_lem input rest _ f.final_size d h3).0) (ground arith)

pub parse_max_data_lem :
    (f : MaxDataFrame) (rest : Bytes)
    → IsField f.maximum_data
    → parse_max_data_frame (0x10 ∷ (varint f.maximum_data ++ rest))
      ≡ ok (f, 1 + Varint.len f.maximum_data)
unfolding parse_max_data_frame
parse_max_data_lem f rest h1 =
    let input : Bytes = 0x10 ∷ (varint f.maximum_data ++ rest) in
    rw (next_varint_lem input rest 1 f.maximum_data refl h1).0 (ground arith)

pub parse_max_stream_data_lem :
    (f : MaxStreamDataFrame) (rest : Bytes)
    → IsField f.stream_id
    → IsField f.maximum_stream_data
    → parse_max_stream_data_frame
        (0x11 ∷ (varint f.stream_id ++ (varint f.maximum_stream_data ++ rest)))
      ≡ ok (f, 1 + Varint.len f.stream_id + Varint.len f.maximum_stream_data)
unfolding parse_max_stream_data_frame
parse_max_stream_data_lem f rest h1 h2 =
    let input : Bytes = 0x11 ∷ (varint f.stream_id ++ (varint f.maximum_stream_data ++ rest)) in
    let (e1, e2, d) = two_varints input rest 1 f.stream_id f.maximum_stream_data refl h1 h2 in
    rw (e1, e2) (ground arith)

pub parse_data_blocked_lem :
    (f : DataBlockedFrame) (rest : Bytes)
    → IsField f.max_data
    → parse_data_blocked_frame (0x14 ∷ (varint f.max_data ++ rest))
      ≡ ok (f, 1 + Varint.len f.max_data)
unfolding parse_data_blocked_frame
parse_data_blocked_lem f rest h1 =
    let input : Bytes = 0x14 ∷ (varint f.max_data ++ rest) in
    rw (next_varint_lem input rest 1 f.max_data refl h1).0 (ground arith)

pub parse_stream_data_blocked_lem :
    (f : StreamDataBlockedFrame) (rest : Bytes)
    → IsField f.stream_id
    → IsField f.maximum_stream_data
    → parse_stream_data_blocked_frame
        (0x15 ∷ (varint f.stream_id ++ (varint f.maximum_stream_data ++ rest)))
      ≡ ok (f, 1 + Varint.len f.stream_id + Varint.len f.maximum_stream_data)
unfolding parse_stream_data_blocked_frame
parse_stream_data_blocked_lem f rest h1 h2 =
    let input : Bytes = 0x15 ∷ (varint f.stream_id ++ (varint f.maximum_stream_data ++ rest)) in
    let (e1, e2, d) = two_varints input rest 1 f.stream_id f.maximum_stream_data refl h1 h2 in
    rw (e1, e2) (ground arith)

pub parse_stop_sending_lem :
    (f : StopSendingFrame) (rest : Bytes)
    → IsField f.stream_id
    → IsField f.error_code
    → parse_stop_sending_frame (0x05 ∷ (varint f.stream_id ++ (varint f.error_code ++ rest)))
      ≡ ok (f, 1 + Varint.len f.stream_id + Varint.len f.error_code)
unfolding parse_stop_sending_frame
parse_stop_sending_lem f rest h1 h2 =
    let input : Bytes = 0x05 ∷ (varint f.stream_id ++ (varint f.error_code ++ rest)) in
    let (e1, e2, d) = two_varints input rest 1 f.stream_id f.error_code refl h1 h2 in
    rw (e1, e2) (ground arith)

pub parse_max_streams_lem :
    (t : StreamType) (n : ℕ) (rest : Bytes)
    → IsField n
    → parse_max_streams_frame (by_type t 0x12 0x13 ∷ (varint n ++ rest))
      ≡ ok (record { stream_type = t; max_streams = n }, 1 + Varint.len n)
unfolding parse_max_streams_frame
parse_max_streams_lem bidi n rest h =
    let input : Bytes = 0x12 ∷ (varint n ++ rest) in
    rw (next_varint_lem input rest 1 n refl h).0 (ground arith)
parse_max_streams_lem uni n rest h =
    let input : Bytes = 0x13 ∷ (varint n ++ rest) in
    rw (next_varint_lem input rest 1 n refl h).0 (ground arith)

pub parse_streams_blocked_lem :
    (t : StreamType) (n : ℕ) (rest : Bytes)
    → IsField n
    → parse_streams_blocked_frame (by_type t 0x16 0x17 ∷ (varint n ++ rest))
      ≡ ok (record { stream_type = t; streams = n }, 1 + Varint.len n)
unfolding parse_streams_blocked_frame
parse_streams_blocked_lem bidi n rest h =
    let input : Bytes = 0x16 ∷ (varint n ++ rest) in
    rw (next_varint_lem input rest 1 n refl h).0 (ground arith)
parse_streams_blocked_lem uni n rest h =
    let input : Bytes = 0x17 ∷ (varint n ++ rest) in
    rw (next_varint_lem input rest 1 n refl h).0 (ground arith)
