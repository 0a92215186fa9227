-- ===== src/Stream.antt =====
-- quic/stream.go: the state of a stream and its operations under its mutex. Offsets are int64
-- patterns. The deadlines, the condition variables and the connection are left out: a call of
-- sendMaxStreamData is a value that the operation returns.
mod Tests
pub mod Pending
pub mod Slice
pub mod Invariant
pub mod Delivery
pub mod Reassembly
pub mod Segments
pub mod Completion
use quic_test.Prelude.{
  ℕ, zero, suc, min, Bool, true, false, ◌&&◌, ◌||◌, not, Option, none, some, [], ◌∷◌, ◌++◌, ◌==◌,
  if◌then◌else◌, length, take, drop, Bytes, add64, sub64, lt_int64,
}
use Pending.{Chunks, find, delete, store}

pub record Stream : Type 0 where
  pub stream_id : ℕ
  pub read_buf : Bytes
  pub closed : Bool
  pub reset : Bool
  pub write_err : Bool
  pub read_offset : ℕ
  pub write_offset : ℕ
  pub max_data : ℕ
  pub read_max_data : ℕ
  pub reassembly_offset : ℕ
  pub pending : Chunks
  pub pending_fn : Bool
  pub final_size : ℕ
  pub fin_read : Bool
  pub fin_sent : Bool

abbrev pub window : ℕ
window = 1048576

unfoldable pub new_stream : ℕ → Stream
new_stream stream_id = record {
  stream_id = stream_id;
  read_buf = [];
  closed = false;
  reset = false;
  write_err = false;
  read_offset = 0;
  write_offset = 0;
  max_data = window;
  read_max_data = window;
  reassembly_offset = 0;
  pending = [];
  pending_fn = false;
  final_size = 0;
  fin_read = false;
  fin_sent = false;
}

abbrev pub deliver : Stream → Bytes → Stream
deliver s chunk = record s {
  read_buf = s.read_buf ++ chunk;
  reassembly_offset = add64 s.reassembly_offset (length chunk);
}

-- The loop of tryFlushPending, which deletes a chunk in each round: as many rounds as chunks.
unfoldable pub flush_chunks : ℕ → Stream → Stream
unfolding find delete
flush_chunks zero s = s
flush_chunks (suc n) s = elim (find s.reassembly_offset s.pending) [
  | none ↦ s
  | some chunk ↦
      flush_chunks n (deliver (record s { pending = delete s.reassembly_offset s.pending }) chunk)
]

abbrev pub is_empty : Chunks → Bool
is_empty [] = true
is_empty (c ∷ cs) = false

abbrev pub finish : Stream → Stream
finish s =
    if is_empty s.pending && s.pending_fn
    then record s { fin_read = true; pending_fn = false }
    else s

unfoldable pub try_flush_pending : Stream → Stream
unfolding flush_chunks
try_flush_pending s = finish (flush_chunks (length s.pending) s)

-- The window after data came in, with the limit that is sent to the peer when it moves.
unfoldable pub update_window : Stream → Stream × Option ℕ
update_window s =
    let limit = add64 s.reassembly_offset window in
    if lt_int64 (sub64 s.read_max_data s.reassembly_offset) 524288
    then (record s { read_max_data = limit }, some limit)
    else (s, none)

-- Data that is expected next, and data that is not.
abbrev pub in_order : Stream → ℕ → Bytes → Bool → Stream
in_order s end input fin = record s {
  read_buf = s.read_buf ++ input;
  reassembly_offset = end;
  fin_read = if fin then true else s.fin_read;
}

abbrev pub set_aside : Stream → ℕ → Bytes → Bool → Stream
set_aside s offset input fin = record s {
  pending = store offset input s.pending;
  pending_fn = if fin then true else s.pending_fn;
}

unfoldable pub handle_stream_data : Stream → ℕ → Bytes → Bool → Stream × Option ℕ
handle_stream_data s offset input fin =
    let end = add64 offset (length input) in
    if s.fin_read || s.reset
    then (s, none)
    else if not (lt_int64 s.reassembly_offset end)
    then (if fin then try_flush_pending s else s, none)
    else if offset == s.reassembly_offset
    then update_window (try_flush_pending (in_order s end input fin))
    else update_window (set_aside s offset input fin)

unfoldable pub update_max_data : Stream → ℕ → Stream
update_max_data s max_data =
    if lt_int64 s.max_data max_data then record s { max_data = max_data } else s

-- One round of the loop of Read: it returns bytes, it fails, or it waits for a signal after it has
-- told the peer of a limit.
pub data ReadRound : Type 0 where
  returns : Bytes → ReadRound
  eof : ReadRound
  was_reset : ReadRound
  waits : Option ℕ → ReadRound

-- The bytes that `copy` moves, and the round that finds none.
unfoldable pub copy_out : Stream → ℕ → Stream × ReadRound
copy_out s size =
    let n = min size (length s.read_buf) in
    (
      record s { read_buf = drop n s.read_buf; read_offset = add64 s.read_offset n },
      returns (take n s.read_buf),
    )

unfoldable pub wait : Stream → Stream × ReadRound
wait s =
    let limit = add64 s.read_max_data window in
    if lt_int64 0 s.reassembly_offset
    then (record s { read_max_data = limit }, waits (some limit))
    else (s, waits none)

unfoldable pub read_round : Stream → ℕ → Stream × ReadRound
unfolding copy_out wait
read_round s size =
    let no_data = length s.read_buf == 0 in
    if s.fin_read && no_data
    then (s, eof)
    else if s.reset
    then (s, was_reset)
    else if s.closed && no_data
    then (s, eof)
    else if not no_data
    then copy_out s size
    else wait s

-- `some offset`: the FIN that is sent at that offset, with no data.
unfoldable pub close : Stream → Stream × Option ℕ
close s = if s.fin_sent then (s, none) else (record s { fin_sent = true }, some s.write_offset)

unfoldable pub cancel_read : Stream → Stream
cancel_read s = record s { reset = true; read_buf = [] }

unfoldable pub cancel_write : Stream → Stream
cancel_write s = record s { write_err = true }
