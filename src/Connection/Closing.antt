-- ===== src/Connection/Closing.antt =====
-- conn.go: opening streams, closing the connection and the probe timeout.
pub mod Timeouts
use quic_test.Prelude.{
  ℕ, true, ◌&&◌, not, Option, none, some, List, [], ◌∷◌, ◌++◌, ◌==◌, if◌then◌else◌, length, Bytes,
  add64, sub64, lt_int64, le_int64, Result, ok, ◌>>=◌,
}
use quic_test.Wire.Limits.{StreamType, bidi, uni}
use quic_test.Protocol.StreamId.{Perspective, client, server, stream_id_from_parts}
use quic_test.Wire.Frame.{Frame}
use quic_test.Stream.{Stream, new_stream}
use quic_test.Congestion.Rtt.{pto}
use quic_test.Connection.State.{
  World, SentPacket, Connection, CloseError, local_close, remote_close,
}
use quic_test.Connection.Loss.{queue_lost, flush_retransmit_queue}
use quic_test.Connection.Sending.{Sent, send_frame}

-- A map from stream identifiers.
abbrev pub stream_at : ℕ → List (ℕ × Stream) → Option Stream
stream_at id [] = none
stream_at id (e ∷ es) = if e.0 == id then some e.1 else stream_at id es

abbrev pub put_stream : ℕ → Stream → List (ℕ × Stream) → List (ℕ × Stream)
put_stream id s [] = (id, s) ∷ []
put_stream id s (e ∷ es) = if e.0 == id then (id, s) ∷ es else e ∷ put_stream id s es

abbrev pub close_streams : List (ℕ × Stream) → List (ℕ × Stream)
close_streams [] = []
close_streams (e ∷ es) = (e.0, record e.1 { closed = true }) ∷ close_streams es

abbrev pub count_stream : {S : Type 0} → Connection S → StreamType → Connection S
count_stream c bidi = record c { next_bidi = add64 c.next_bidi 1 }
count_stream c uni = record c { next_uni = add64 c.next_uni 1 }

-- `none`: io.ErrClosedPipe.
unfoldable pub open_stream : {S : Type 0} → Connection S → StreamType → Connection S × Option ℕ
open_stream c t =
    let num : ℕ = elim t [ bidi ↦ c.next_bidi | uni ↦ c.next_uni ] in
    let id = stream_id_from_parts num t client in
    if c.closed
    then (c, none)
    else (record (count_stream c t) { streams = put_stream id (new_stream id) c.streams }, some id)

-- What runs once: `close_once` also tells that `done` is closed.
unfoldable pub handle_connection_close_frame :
    {S : Type 0} → Connection S → ℕ → Bytes → Connection S
handle_connection_close_frame c code reason = if c.close_once then c else record c {
  close_once = true;
  closed = true;
  close_err = some (remote_close reason code);
  streams = close_streams c.streams;
}

module _ {S : Type 0} (w : World S) (now : ℕ) where
  unfoldable pub close_with_error : Connection S → ℕ → Bytes → Result (Connection S)
  unfolding send_frame
  close_with_error c code reason =
      let closing : Connection S = record c {
        close_once = true;
        closed = true;
        close_err = some (local_close reason code);
      } in
      if c.close_once then ok c else do
        sent ← send_frame w now closing (
            Frame.connection_close
              (record { is_application = true; error_code = code; reason_phrase = reason }))
        let left : Connection S = sent.conn
        ok (record left { streams = close_streams left.streams })

  -- "no response from peer"
  abbrev pub no_response : Bytes
  no_response =
      110 ∷ 111 ∷ 32 ∷ 114 ∷ 101 ∷ 115 ∷ 112 ∷ 111 ∷ 110 ∷ 115 ∷ 101 ∷ 32 ∷ 102 ∷ 114 ∷ 111 ∷ 109
      ∷ 32 ∷ 112 ∷ 101 ∷ 101 ∷ 114 ∷ []

  -- The timeout has passed: every packet that is no retransmission goes into the queue.
  unfoldable pub probe : Connection S → Connection S
  unfolding queue_lost
  probe c =
      let (history, queued, s) =
        queue_lost w (λ p. not p.is_retransmit) (λ s p. s) c.history
          (w.cc.on_packet_needs_retransmit c.congestion now) in
      record c {
        pto_count = add64 c.pto_count 1;
        history = history;
        retransmit_queue = c.retransmit_queue ++ queued;
        congestion = s;
        last_recv_ack_time = some now;
      }

  unfoldable pub check_pto : Connection S → Result (Connection S)
  unfolding close_with_error probe flush_retransmit_queue
  check_pto c = elim c.last_recv_ack_time [
    | none ↦ ok c
    | some last ↦
        let computed = pto c.rtt_stats in
        let timeout : ℕ = if lt_int64 computed 200000000 then 200000000 else computed in
        if (length c.history == 0) && (c.pto_count == 0)
        then ok c
        else if lt_int64 (sub64 now last) timeout
        then ok c
        else if le_int64 5 c.pto_count
        then close_with_error c 1 no_response
        else flush_retransmit_queue w now (probe c)
  ]
