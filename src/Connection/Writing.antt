-- ===== src/Connection/Writing.antt =====
-- stream.go: Write. A round that finds no room in the peer's window waits for a signal; the deadline and
-- the pause of a millisecond are left out.
use quic_test.Prelude.{
  ℕ, zero, suc, ◌+◌, min, false, ◌&&◌, not, ltb, ◌==◌, if◌then◌else◌, length, take, drop, Bytes,
  add64, lt_int64, Result, ok, ◌>>=◌, map_ok,
}
use quic_test.Stream.{Stream}
use quic_test.Wire.Stream.{StreamFrame}
use quic_test.Wire.Frame.{Frame, append_frame}
use quic_test.Connection.State.{World, Connection}
use quic_test.Connection.Loss.{short_header}
use quic_test.Connection.Sending.{
  Sent, payload_len, max_stream_payload, cut_stream_frame, pack, refused, send_appended,
  send_packet, send_stream_frame, send_frame, send_stream_data,
}
pub mod Rounds
pub mod Progress
pub mod Completion
pub mod AfterClose

-- How Write begins.
pub data WriteStart : Type 0 where
  writes : WriteStart
  has_failed : WriteStart
  is_closed : WriteStart

unfoldable pub write_start : Stream → WriteStart
write_start s = if s.write_err then has_failed else if s.closed then is_closed else writes

-- One round: all is written, `n` more bytes have gone out, the round waits, or Write returns an error.
pub data WriteRound (S : Type 0) : Type 0 where
  all_written : WriteRound S
  wrote : Connection S → Stream → ℕ → WriteRound S
  waits_for_window : WriteRound S
  fails : WriteRound S
  closed_pipe : WriteRound S

-- protocol.MinInitialPacketSize
abbrev pub chunk_size : ℕ
chunk_size = 1200

module _ {S : Type 0} (w : World S) (now : ℕ) where
  -- With the bytes that are left.
  unfoldable pub write_round : Connection S → Stream → Bytes → Result (WriteRound S)
  unfolding send_stream_data
  write_round c s left =
      let size = min (length left) chunk_size in
      if length left == 0
      then ok all_written
      else if lt_int64 s.max_data (add64 s.write_offset size) && not s.closed
      then ok (if s.write_err then fails else waits_for_window)
      else if s.closed
      then ok closed_pipe
      else map_ok
          (λ (r : Connection S × ℕ).
            wrote r.0
              (if ltb 0 r.1 then record s { write_offset = add64 s.write_offset r.1 } else s) r.1)
          (send_stream_data w now c s.stream_id s.write_offset (take size left) false)

-- How Write ends, with the bytes that it has written: it returns, fails, finds the stream closed, or
-- waits for the peer's window. With too little fuel it is not at its end.
pub data WriteEnd (S : Type 0) : Type 0 where
  returned : Connection S → Stream → ℕ → WriteEnd S
  failed : Connection S → Stream → ℕ → WriteEnd S
  pipe_closed : Connection S → Stream → ℕ → WriteEnd S
  waiting : Connection S → Stream → ℕ → WriteEnd S
  unfinished : Connection S → Stream → ℕ → WriteEnd S

abbrev pub Continue : Type 0 → Type 0
Continue S = Connection S → Stream → Bytes → ℕ → Result (WriteEnd S)

-- What a round means for the loop that goes on by `next`.
unfoldable pub go_on :
    {S : Type 0}
    → Continue S
    → Connection S
    → Stream
    → Bytes
    → ℕ
    → WriteRound S
    → Result (WriteEnd S)
go_on next c s left n all_written = ok (returned c s n)
go_on next c s left n (wrote d t m) = next d t (drop m left) (n + m)
go_on next c s left n waits_for_window = ok (waiting c s n)
go_on next c s left n fails = ok (failed c s n)
go_on next c s left n closed_pipe = ok (pipe_closed c s n)

module _ {S : Type 0} (w : World S) (clock : ℕ → ℕ) where
  -- The loop, at most as many rounds as the fuel says, at the times of the clock.
  unfoldable pub write_rounds : ℕ → Continue S
  unfolding write_round go_on
  write_rounds zero c s left n = ok (unfinished c s n)
  write_rounds (suc k) c s left n =
      write_round w (clock k) c s left >>= go_on (write_rounds k) c s left n

  abbrev pub write_from : WriteStart → ℕ → Connection S → Stream → Bytes → Result (WriteEnd S)
  write_from writes fuel c s b = write_rounds fuel c s b 0
  write_from has_failed fuel c s b = ok (failed c s 0)
  write_from is_closed fuel c s b = ok (pipe_closed c s 0)

  unfoldable pub write : ℕ → Connection S → Stream → Bytes → Result (WriteEnd S)
  unfolding write_start write_rounds
  write fuel c s b = write_from (write_start s) fuel c s b
