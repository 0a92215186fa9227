-- ===== src/Wire/Control.antt =====
-- The frames of frame.go without stream data (PADDING, PING, PATH_CHALLENGE, PATH_RESPONSE), and
-- reset_stream_frame.go, stop_sending_frame.go and connection_close_frame.go.
use quic_test.Prelude.{
  ℕ, ◌+◌, Bool, true, false, ◌||◌, not, [], ◌∷◌, ◌++◌, ltb, ◌==◌, if◌then◌else◌, length, take, drop,
  replicate, Bytes, unexpected_eof, wrong_type, Result, ok, err, ◌>>=◌,
}
use quic_test.Varint
use quic_test.Varint.{at}
use quic_test.Wire.Field.{next_varint, take_bytes}
use quic_test.Wire.Limits.{is_not}

pub record PaddingFrame : Type 0 where
  pub pad_length : ℕ

pub record PathChallengeFrame : Type 0 where
  pub challenge : Bytes

pub record PathResponseFrame : Type 0 where
  pub response : Bytes

pub record ResetStreamFrame : Type 0 where
  pub stream_id : ℕ
  pub error_code : ℕ
  pub final_size : ℕ

pub record StopSendingFrame : Type 0 where
  pub stream_id : ℕ
  pub error_code : ℕ

-- A Go string is its bytes.
pub record ConnectionCloseFrame : Type 0 where
  pub is_application : Bool
  pub error_code : ℕ
  pub reason_phrase : Bytes

-- `for i < len(data) && data[i] == 0x00 { i++ }`, from i on, over what is left of the data.
unfoldable pub count_zeros : Bytes → ℕ → ℕ
count_zeros [] i = i
count_zeros (x ∷ xs) i = elim (x == 0) [ true ↦ count_zeros xs (i + 1) | false ↦ i ]

unfoldable pub parse_padding_frame : Bytes → Result (PaddingFrame × ℕ)
unfolding count_zeros
parse_padding_frame input = let i = count_zeros input 0 in ok (record { pad_length = i }, i)

unfoldable pub append_padding_frame : Bytes → PaddingFrame → Bytes
append_padding_frame b f = b ++ replicate f.pad_length 0

unfoldable pub length_padding_frame : PaddingFrame → ℕ
length_padding_frame f = f.pad_length

unfoldable pub parse_ping_frame : Bytes → Result (Unit {0} × ℕ)
parse_ping_frame input = if is_not input 0x01 then err wrong_type else ok (tt, 1)

unfoldable pub append_ping_frame : Bytes → Bytes
append_ping_frame b = b ++ (0x01 ∷ [])

-- Both tests read `len(data) < 9`.
abbrev pub is_not_path : Bytes → ℕ → Bool
is_not_path input t = ltb (length input) 9 || not (at input 0 == t)

unfoldable pub parse_path_challenge_frame : Bytes → Result (PathChallengeFrame × ℕ)
parse_path_challenge_frame input =
    if is_not_path input 0x1a
    then err wrong_type
    else ok (record { challenge = take 8 (drop 1 input) }, 9)

unfoldable pub append_path_challenge_frame : Bytes → PathChallengeFrame → Bytes
append_path_challenge_frame b f = b ++ (0x1a ∷ []) ++ f.challenge

unfoldable pub parse_path_response_frame : Bytes → Result (PathResponseFrame × ℕ)
parse_path_response_frame input =
    if is_not_path input 0x1b
    then err wrong_type
    else ok (record { response = take 8 (drop 1 input) }, 9)

unfoldable pub append_path_response_frame : Bytes → PathResponseFrame → Bytes
append_path_response_frame b f = b ++ (0x1b ∷ []) ++ f.response

unfoldable pub parse_reset_stream_frame : Bytes → Result (ResetStreamFrame × ℕ)
unfolding next_varint
parse_reset_stream_frame input = if is_not input 0x04 then err wrong_type else do
  (sid, offset) ← next_varint input 1
  (ec, offset') ← next_varint input offset
  (fs, offset'') ← next_varint input offset'
  ok (record { stream_id = sid; error_code = ec; final_size = fs }, offset'')

unfoldable pub append_reset_stream_frame : Bytes → ResetStreamFrame → Bytes
append_reset_stream_frame b f =
    Varint.append (Varint.append (Varint.append (b ++ (0x04 ∷ [])) f.stream_id) f.error_code)
      f.final_size

unfoldable pub length_reset_stream_frame : ResetStreamFrame → ℕ
length_reset_stream_frame f =
    1 + (Varint.len f.stream_id + Varint.len f.error_code + Varint.len f.final_size)

unfoldable pub parse_stop_sending_frame : Bytes → Result (StopSendingFrame × ℕ)
unfolding next_varint
parse_stop_sending_frame input = if is_not input 0x05 then err wrong_type else do
  (sid, offset) ← next_varint input 1
  (ec, offset') ← next_varint input offset
  ok (record { stream_id = sid; error_code = ec }, offset')

unfoldable pub append_stop_sending_frame : Bytes → StopSendingFrame → Bytes
append_stop_sending_frame b f =
    Varint.append (Varint.append (b ++ (0x05 ∷ [])) f.stream_id) f.error_code

unfoldable pub length_stop_sending_frame : StopSendingFrame → ℕ
length_stop_sending_frame f = 1 + (Varint.len f.stream_id + Varint.len f.error_code)

unfoldable pub parse_connection_close_frame : Bytes → Result (ConnectionCloseFrame × ℕ)
unfolding next_varint take_bytes
parse_connection_close_frame input = if ltb (length input) 1 then err unexpected_eof else do
  app ←
      if at input 0 == 0x1c
      then ok false
      else if at input 0 == 0x1d
      then ok true
      else err wrong_type
  (ec, offset) ← next_varint input 1
  (trigger, offset') ← if app then ok (0, offset) else next_varint input offset
  (n, offset'') ← next_varint input offset'
  (reason, end) ← take_bytes input offset'' n
  ok (record { is_application = app; error_code = ec; reason_phrase = reason }, end)

unfoldable pub append_connection_close_frame : Bytes → ConnectionCloseFrame → Bytes
append_connection_close_frame b f =
    let b1 = b ++ ((if f.is_application then 0x1d else 0x1c) ∷ []) in
    let b2 = Varint.append b1 f.error_code in
    let b3 = if f.is_application then b2 else Varint.append b2 0 in
    Varint.append b3 (length f.reason_phrase) ++ f.reason_phrase

unfoldable pub length_connection_close_frame : ConnectionCloseFrame → ℕ
length_connection_close_frame f =
    1
    + Varint.len f.error_code
    + (if f.is_application then 0 else Varint.len 0)
    + Varint.len (length f.reason_phrase)
    + length f.reason_phrase
