-- ===== src/Wire/Stream.antt =====
-- quic/wire/stream_frame.go, and the CRYPTO frame of frame.go.
pub mod Splitting
use quic_test.Prelude.{
  ℕ, zero, suc, ◌+◌, ◌-◌, bit_and, bit_or, Bool, true, false, not, Option, none, some, [], ◌∷◌,
  ◌++◌, ltb, leb, ◌==◌, if◌then◌else◌, length, take, drop, Bytes, add64, lt_int64, unexpected_eof,
  wrong_type, Result, ok, err, panics, ◌>>=◌,
}
use quic_test.Varint
use quic_test.Varint.{at}
use quic_test.Wire.Field.{next_varint, take_bytes}
use quic_test.Wire.Limits.{is_not}

-- Offsets are int64 patterns.
pub record StreamFrame : Type 0 where
  pub stream_id : ℕ
  pub offset : ℕ
  pub payload : Bytes
  pub fin : Bool
  pub data_len_present : Bool

pub record CryptoFrame : Type 0 where
  pub offset : ℕ
  pub payload : Bytes

unfoldable pub parse_stream_frame : Bytes → Result (StreamFrame × ℕ)
unfolding next_varint take_bytes
parse_stream_frame input =
    let first = at input 0 in
    let fin = ltb 0 (bit_and first 0x01) in
    let present = ltb 0 (bit_and first 0x02) in
    let has_offset = ltb 0 (bit_and first 0x04) in
    if ltb (length input) 1
    then err unexpected_eof
    else if not (bit_and first 0xf8 == 0x08)
    then err wrong_type
    else do
      (sid, p) ← next_varint input 1
      (off, p') ← if has_offset then next_varint input p else ok (0, p)
      (n, p'') ← if present then next_varint input p' else ok (length input - p', p')
      (bytes, end) ← take_bytes input p'' n
      ok (
        record {
          stream_id = sid;
          offset = off;
          payload = bytes;
          fin = fin;
          data_len_present = present;
        },
        end,
      )

-- `f.Offset > 0`
unfoldable pub has_offset : StreamFrame → Bool
has_offset f = lt_int64 0 f.offset

-- The type byte 0x08 with `|=` of each flag.
unfoldable pub flag_byte : Bool → Bool → Bool → ℕ
flag_byte fin present offset =
    let b1 : ℕ = if fin then bit_or 0x08 0x01 else 0x08 in
    let b2 : ℕ = if present then bit_or b1 0x02 else b1 in if offset then bit_or b2 0x04 else b2

unfoldable pub stream_first_byte : StreamFrame → ℕ
stream_first_byte f = flag_byte f.fin f.data_len_present (has_offset f)

unfoldable pub append_stream_frame : Bytes → StreamFrame → Bytes
append_stream_frame b f =
    let b1 = Varint.append (b ++ (stream_first_byte f ∷ [])) f.stream_id in
    let b2 = if has_offset f then Varint.append b1 f.offset else b1 in
    let b3 = if f.data_len_present then Varint.append b2 (length f.payload) else b2 in
    b3 ++ f.payload

unfoldable pub length_stream_frame : StreamFrame → ℕ
length_stream_frame f =
    1
    + Varint.len f.stream_id
    + (if has_offset f then Varint.len f.offset else 0)
    + (if f.data_len_present then Varint.len (length f.payload) else 0)
    + length f.payload

-- The loop of MaxDataLen, from `n` down: the first length that fits with its varint.
unfoldable pub fitting_len : ℕ → ℕ → ℕ → ℕ
fitting_len base max_size zero = 0
fitting_len base max_size (suc n) = elim (leb (base + Varint.len (suc n) + suc n) max_size) [
  | true ↦ suc n
  | false ↦ fitting_len base max_size n
]

-- The header without the length of the data.
unfoldable pub base_header_len : StreamFrame → ℕ
base_header_len f = 1 + Varint.len f.stream_id + (if has_offset f then Varint.len f.offset else 0)

-- `max_size` is a ByteCount that is not negative. The loop begins at max_size - base - 1, which stops
-- at 0 here; below 1 Go's loop makes no round either.
unfoldable pub max_data_len : StreamFrame → ℕ → ℕ
unfolding fitting_len base_header_len
max_data_len f max_size =
    fitting_len (base_header_len f) max_size (max_size - base_header_len f - 1)

-- `some (f', g)`: the frame as it is left, and the frame split off. Slicing past the end panics.
unfoldable pub maybe_split_off_frame : StreamFrame → ℕ → Result (Option (StreamFrame × StreamFrame))
unfolding max_data_len length_stream_frame
maybe_split_off_frame f max_size =
    let n = max_data_len f max_size in
    if leb (length_stream_frame f) max_size
    then ok none
    else if n == 0
    then ok none
    else if ltb (length f.payload) n
    then panics
    else ok (
        some (
          record f { payload = take n f.payload; fin = false },
          record f { offset = add64 f.offset n; payload = drop n f.payload },
        ))

unfoldable pub parse_crypto_frame : Bytes → Result (CryptoFrame × ℕ)
unfolding next_varint take_bytes
parse_crypto_frame input = if is_not input 0x06 then err wrong_type else do
  (off, p) ← next_varint input 1
  (n, p') ← next_varint input p
  (bytes, end) ← take_bytes input p' n
  ok (record { offset = off; payload = bytes }, end)

unfoldable pub append_crypto_frame : Bytes → CryptoFrame → Bytes
append_crypto_frame b f =
    Varint.append (Varint.append (b ++ (0x06 ∷ [])) f.offset) (length f.payload) ++ f.payload

unfoldable pub length_crypto_frame : CryptoFrame → ℕ
length_crypto_frame f = 1 + (Varint.len f.offset + Varint.len (length f.payload)) + length f.payload
