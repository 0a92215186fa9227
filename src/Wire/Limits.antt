-- ===== src/Wire/Limits.antt =====
-- The flow control frames: max_data_frame.go, max_stream_data_frame.go, max_streams_frame.go and
-- the three BLOCKED frames of frame.go. An int64 field is its two's complement pattern.
use quic_test.Prelude.{
  ℕ, ◌+◌, Bool, ◌||◌, not, [], ◌∷◌, ◌++◌, ltb, ◌==◌, if◌then◌else◌, length, Bytes, unexpected_eof,
  wrong_type, Result, ok, err, ◌>>=◌,
}
use quic_test.Varint
use quic_test.Varint.{at}
use quic_test.Wire.Field.{next_varint}

pub data StreamType : Type 0 where
  bidi uni : StreamType

pub record MaxDataFrame : Type 0 where
  pub maximum_data : ℕ

pub record MaxStreamDataFrame : Type 0 where
  pub stream_id : ℕ
  pub maximum_stream_data : ℕ

pub record MaxStreamsFrame : Type 0 where
  pub stream_type : StreamType
  pub max_streams : ℕ

pub record DataBlockedFrame : Type 0 where
  pub max_data : ℕ

pub record StreamDataBlockedFrame : Type 0 where
  pub stream_id : ℕ
  pub maximum_stream_data : ℕ

pub record StreamsBlockedFrame : Type 0 where
  pub stream_type : StreamType
  pub streams : ℕ

-- `len(data) < 1 || data[0] != t`, the test that most parsers begin with.
abbrev pub is_not : Bytes → ℕ → Bool
is_not input t = ltb (length input) 1 || not (at input 0 == t)

unfoldable pub parse_max_data_frame : Bytes → Result (MaxDataFrame × ℕ)
unfolding next_varint
parse_max_data_frame input =
    if is_not input 0x10
    then err wrong_type
    else do (val, offset) ← next_varint input 1; ok (record { maximum_data = val }, offset)

unfoldable pub append_max_data_frame : Bytes → MaxDataFrame → Bytes
append_max_data_frame b f = Varint.append (b ++ (0x10 ∷ [])) f.maximum_data

unfoldable pub length_max_data_frame : MaxDataFrame → ℕ
length_max_data_frame f = 1 + Varint.len f.maximum_data

unfoldable pub parse_max_stream_data_frame : Bytes → Result (MaxStreamDataFrame × ℕ)
unfolding next_varint
parse_max_stream_data_frame input = if is_not input 0x11 then err wrong_type else do
  (sid, offset) ← next_varint input 1
  (val, offset') ← next_varint input offset
  ok (record { stream_id = sid; maximum_stream_data = val }, offset')

unfoldable pub append_max_stream_data_frame : Bytes → MaxStreamDataFrame → Bytes
append_max_stream_data_frame b f =
    Varint.append (Varint.append (b ++ (0x11 ∷ [])) f.stream_id) f.maximum_stream_data

unfoldable pub length_max_stream_data_frame : MaxStreamDataFrame → ℕ
length_max_stream_data_frame f = 1 + (Varint.len f.stream_id + Varint.len f.maximum_stream_data)

unfoldable pub parse_max_streams_frame : Bytes → Result (MaxStreamsFrame × ℕ)
unfolding next_varint
parse_max_streams_frame input = if ltb (length input) 1 then err unexpected_eof else do
  t ← if at input 0 == 0x12 then ok bidi else if at input 0 == 0x13 then ok uni else err wrong_type
  (val, offset) ← next_varint input 1
  ok (record { stream_type = t; max_streams = val }, offset)

-- `f.Type == protocol.StreamTypeBidi`
abbrev pub by_type : StreamType → ℕ → ℕ → ℕ
by_type bidi x y = x
by_type uni x y = y

unfoldable pub append_max_streams_frame : Bytes → MaxStreamsFrame → Bytes
append_max_streams_frame b f =
    Varint.append (b ++ (by_type f.stream_type 0x12 0x13 ∷ [])) f.max_streams

unfoldable pub length_max_streams_frame : MaxStreamsFrame → ℕ
length_max_streams_frame f = 1 + Varint.len f.max_streams

unfoldable pub parse_data_blocked_frame : Bytes → Result (DataBlockedFrame × ℕ)
unfolding next_varint
parse_data_blocked_frame input =
    if is_not input 0x14
    then err wrong_type
    else do (val, offset) ← next_varint input 1; ok (record { max_data = val }, offset)

unfoldable pub append_data_blocked_frame : Bytes → DataBlockedFrame → Bytes
append_data_blocked_frame b f = Varint.append (b ++ (0x14 ∷ [])) f.max_data

unfoldable pub length_data_blocked_frame : DataBlockedFrame → ℕ
length_data_blocked_frame f = 1 + Varint.len f.max_data

unfoldable pub parse_stream_data_blocked_frame : Bytes → Result (StreamDataBlockedFrame × ℕ)
unfolding next_varint
parse_stream_data_blocked_frame input = if is_not input 0x15 then err wrong_type else do
  (sid, offset) ← next_varint input 1
  (val, offset') ← next_varint input offset
  ok (record { stream_id = sid; maximum_stream_data = val }, offset')

unfoldable pub append_stream_data_blocked_frame : Bytes → StreamDataBlockedFrame → Bytes
append_stream_data_blocked_frame b f =
    Varint.append (Varint.append (b ++ (0x15 ∷ [])) f.stream_id) f.maximum_stream_data

unfoldable pub length_stream_data_blocked_frame : StreamDataBlockedFrame → ℕ
length_stream_data_blocked_frame f = 1 + (Varint.len f.stream_id + Varint.len f.maximum_stream_data)

unfoldable pub parse_streams_blocked_frame : Bytes → Result (StreamsBlockedFrame × ℕ)
unfolding next_varint
parse_streams_blocked_frame input = if ltb (length input) 1 then err unexpected_eof else do
  t ← if at input 0 == 0x16 then ok bidi else if at input 0 == 0x17 then ok uni else err wrong_type
  (val, offset) ← next_varint input 1
  ok (record { stream_type = t; streams = val }, offset)

unfoldable pub append_streams_blocked_frame : Bytes → StreamsBlockedFrame → Bytes
append_streams_blocked_frame b f =
    Varint.append (b ++ (by_type f.stream_type 0x16 0x17 ∷ [])) f.streams

unfoldable pub length_streams_blocked_frame : StreamsBlockedFrame → ℕ
length_streams_blocked_frame f = 1 + Varint.len f.streams
