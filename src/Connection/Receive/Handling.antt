-- ===== src/Connection/Receive/Handling.antt =====
-- conn.go: the handlers of what comes in, and the account of the packets in flight.
use quic_test.Prelude.{
  ℕ, ◌+◌, ◌^◌, ◌≤◌, ◌<◌, ◌≡◌, refl, inl, inr, true, false, ◌||◌, List, [], ◌∷◌, ◌++◌, arith, ltb,
  leb, ◌==◌, if-cases, Option-cases, length, length-append, Bytes, add64, le_int64, Result, ok,
  map_ok,
}
use quic_test.Wire.Ack.{AckRange}
use quic_test.Wire.Frame.{Frame}
use quic_test.Wire.Stream.{StreamFrame}
use quic_test.Wire.Limits.{StreamType, bidi, uni}
use quic_test.Wire.Writable.{Appends}
use quic_test.Wire.Image.{append_frame-image}
use quic_test.Wire.Header.Short.{length_for_header_bounds}
use quic_test.Stream.{Stream, new_stream, handle_stream_data}
use quic_test.Connection.AckRanges.{build_ack_ranges}
use quic_test.Connection.State.{World, Connection}
use quic_test.Connection.Closing.{stream_at, put_stream, handle_connection_close_frame}
use quic_test.Connection.Loss.Retransmission.{short_header_lem}
use quic_test.Connection.Loss.Settled.{Settled, handle_ack_frame-Settled}
use quic_test.Connection.Sending.{Sent, queue_frame, refused, send_frame, send_max_stream_data}
use quic_test.Connection.Sending.Accounting.{send_packet-Settled}
use quic_test.Connection.Sending.Streams.{queue_frame-Settled, flush_pending_frames-Settled}
use quic_test.Connection.Receive.{
  on_stream, handle_max_streams_frame, set_limit, accept_stream, deliver_to, handle_stream_frame,
  handle_frame, queue_ack, send_ack_if_needed, since,
}
use quic_test.Connection.Receive.Parsed.{IsParsed}
use quic_test.Connection.Receive.Core.{Settled-core}

module _ {S : Type 0} (w : World S) (now : ℕ) where
  -- A call returns with a settled state.
  abbrev pub Settles : Result (Connection S) → Type 0
  Settles r = (d : Connection S) × (r ≡ ok d) × Settled w d

  -- It also takes one packet number at most, and leaves the history.
  abbrev Steps : Connection S → Result (Connection S) → Type 0
  Steps c r =
      (d : Connection S) × (r ≡ ok d)
      × Settled w d
      × (d.send_pn ≤ c.send_pn + 1)
      × (d.history ≡ c.history)

  send_max_stream_data-Steps :
      (c : Connection S) (id v : ℕ)
      → Settled w c
      → c.send_pn + 1 < 2 ^ 64
      → Steps c (send_max_stream_data w now c id v)
  unfolding send_max_stream_data Appends
  send_max_stream_data-Steps c id v h small =
      let f = Frame.max_stream_data (record { stream_id = id; maximum_stream_data = v }) in
      let (d, e, settled, one, gone, same, still, next) =
        flush_pending_frames-Settled w now (queue_frame c f) (queue_frame-Settled w c f tt h)
          small in
      (d, e, settled, next, same)

  accept_stream-Steps :
      (c : Connection S) (id : ℕ)
      → Settled w c
      → c.send_pn + 1 < 2 ^ 64
      → Steps c (accept_stream w now c id)
  unfolding accept_stream
  accept_stream-Steps c id h small =
      let known : Connection S = record c {
        streams = put_stream id (new_stream id) c.streams;
        local_max_stream_data = set_limit id 1048576 c.local_max_stream_data;
      } in
      let (d, e, settled, next, same) =
        send_max_stream_data-Steps known id 1048576 (Settled-core w c known refl h) small in
      rw e (
        if-cases (λ (x : Connection S). Steps c (ok x)) (ltb (length d.accepted) 100)
          (λ t. (_, refl, Settled-core w d _ refl settled, next, same))
          (λ t. (d, refl, settled, next, same)))

  deliver_to-Settles :
      (c : Connection S) (s : Stream) (f : StreamFrame)
      → Settled w c
      → c.send_pn + 1 < 2 ^ 64
      → Settles (deliver_to w now c s f)
  unfolding deliver_to
  deliver_to-Settles c s f h small =
      let taken = handle_stream_data s f.offset f.payload f.fin in
      let stored : Connection S = record c { streams = put_stream f.stream_id taken.0 c.streams } in
      let ready = Settled-core w c stored refl h in
      elim (Option-cases taken.1) [
        | inl e ↦ rw (deliver_to, e) (stored, refl, ready)
        | inr (l, e) ↦
            rw (deliver_to, e)
              (let (d, r, settled, next, same) =
                  send_max_stream_data-Steps stored f.stream_id l ready small in
                (d, r, settled))
      ]

  handle_stream_frame-Settles :
      (c : Connection S) (f : StreamFrame)
      → Settled w c
      → c.send_pn + 2 < 2 ^ 64
      → Settles (handle_stream_frame w now c f)
  unfolding handle_stream_frame
  handle_stream_frame-Settles c f h small = elim (Option-cases (stream_at f.stream_id c.streams)) [
    | inr (s, e) ↦ rw (handle_stream_frame, e) (deliver_to-Settles c s f h (omega arith))
    | inl e ↦
        let (d, r, settled, next, same) = accept_stream-Steps c f.stream_id h (omega arith) in
        rw (handle_stream_frame, e)
          (rw r (deliver_to-Settles d (new_stream f.stream_id) f settled (omega arith)))
  ]

  -- The answer to PATH_CHALLENGE fits a packet.
  send_path_response-Settles :
      (c : Connection S) (response : Bytes)
      → length response ≡ 8
      → Settled w c
      → c.send_pn + 1 < 2 ^ 64
      → Settles (
          map_ok
            (λ (sent : Sent S). sent.conn)
            (send_frame w now c (Frame.path_response (record { response = response }))))
  unfolding send_frame
  send_path_response-Settles c response eight h small =
      let f = Frame.path_response (record { response = response }) in
      let (head, made, long) = short_header_lem c.dest_conn_id c.send_pn in
      let (l, m) = length_for_header_bounds c.send_pn 0 in
      let a = h.account in
      let out : Bytes = 0x1b ∷ response in
      let (s, e, settled, one, sent, same) =
        send_packet-Settled w now c f head (head ++ out) made (append_frame-image head f eight)
          (omega (arith, a.sized, a.conn_id, length-append head out)) h small in
      let P = λ (r : Result (Sent S)). Settles (map_ok (λ (sent : Sent S). sent.conn) r) in
      let no : P (refused w now c f) = (c, refl, h) in
      if-cases P c.closed (λ _. no)
        (λ _.
          if-cases P (leb 5000 (length c.history)) (λ _. no) (λ _. rw e (s.conn, refl, settled)))

  handle_max_streams_frame-Settled :
      (c : Connection S) (t : StreamType) (n : ℕ)
      → Settled w c
      → Settled w (handle_max_streams_frame c (record { stream_type = t; max_streams = n }))
  handle_max_streams_frame-Settled c bidi n h = Settled-core w c _ refl h
  handle_max_streams_frame-Settled c uni n h = Settled-core w c _ refl h

  on_stream-Settled :
      (c : Connection S) (id : ℕ) (change : Stream → Stream)
      → Settled w c
      → Settled w (on_stream c id change)
  on_stream-Settled c id change h = elim (Option-cases (stream_at id c.streams)) [
    | inl e ↦ rw (on_stream, e) h
    | inr (s, e) ↦ rw (on_stream, e) (Settled-core w c _ refl h)
  ]

  handle_connection_close_frame-Settled :
      (c : Connection S) (code : ℕ) (reason : Bytes)
      → Settled w c
      → Settled w (handle_connection_close_frame c code reason)
  unfolding handle_connection_close_frame
  handle_connection_close_frame-Settled c code reason h =
      if-cases (λ (d : Connection S). Settled w d) c.close_once (λ _. h)
        (λ _. Settled-core w c _ refl h)

  -- From a settled state, with fewer packets than numbers left, handling any frame that ParseNext returns,
  -- whatever the peer put into it, returns a settled state again, where WriteTo takes every datagram:
  -- it does not panic, and it does not fail.
  pub handle_frame-Settles :
      (always : (ds : List Bytes) (d : Bytes) → w.write_ok ds d ≡ true) (c : Connection S)
      (f : Frame)
      → IsParsed f
      → Settled w c
      → c.send_pn + length c.history + 2 < 2 ^ 64
      → Settles (handle_frame w now c f)
  unfolding handle_frame
  handle_frame-Settles always c (Frame.stream f) p h small =
      handle_stream_frame-Settles c f h (omega arith)
  handle_frame-Settles always c (Frame.ack f) (r, rs, e) h small =
      handle_ack_frame-Settled w now always c f r rs h e (omega arith)
  handle_frame-Settles always c (Frame.max_data f) p h small = (_, refl, Settled-core w c _ refl h)
  handle_frame-Settles always c (Frame.max_stream_data f) p h small =
      (_, refl, on_stream-Settled c f.stream_id _ h)
  handle_frame-Settles always c (Frame.max_streams f) p h small =
      (_, refl, handle_max_streams_frame-Settled c f.stream_type f.max_streams h)
  handle_frame-Settles always c (Frame.connection_close f) p h small =
      (_, refl, handle_connection_close_frame-Settled c f.error_code f.reason_phrase h)
  handle_frame-Settles always c (Frame.reset_stream f) p h small =
      (_, refl, on_stream-Settled c f.stream_id _ h)
  handle_frame-Settles always c (Frame.stop_sending f) p h small =
      (_, refl, on_stream-Settled c f.stream_id _ h)
  handle_frame-Settles always c (Frame.path_challenge f) p h small =
      send_path_response-Settles c f.challenge p h (omega arith)
  handle_frame-Settles always c (Frame.padding f) p h small = (c, refl, h)
  handle_frame-Settles always c Frame.ping p h small = (c, refl, h)
  handle_frame-Settles always c (Frame.crypto f) p h small = (c, refl, h)
  handle_frame-Settles always c (Frame.data_blocked f) p h small = (c, refl, h)
  handle_frame-Settles always c (Frame.stream_data_blocked f) p h small = (c, refl, h)
  handle_frame-Settles always c (Frame.streams_blocked f) p h small = (c, refl, h)
  handle_frame-Settles always c (Frame.path_response f) p h small = (c, refl, h)

  has_range :
      (rs : List AckRange) (delay : ℕ)
      → (length rs == 0) ≡ false
      → Appends (Frame.ack (record { ack_ranges = rs; delay_time = delay }))
  unfolding Appends
  has_range [] delay e = absurd (ground (arith, e))
  has_range (r ∷ rs) delay e = (r, rs, refl)

  -- The ACK that is due is sent with what waits.
  pub send_ack_if_needed-Settles :
      (c : Connection S)
      → Settled w c
      → c.send_pn + 1 < 2 ^ 64
      → Settles (send_ack_if_needed w now c)
  unfolding send_ack_if_needed queue_ack
  send_ack_if_needed-Settles c h small =
      let count = add64 c.ack_eliciting_since_last_ack 1 in
      let counted : Connection S = record c { ack_eliciting_since_last_ack = count } in
      let later = Settled-core w c counted refl h in
      let P : Result (Connection S) → Type 0 = λ r. Settles r in
      if-cases P (length c.recv_packet_history == 0) (λ _. (c, refl, h))
        (λ _.
          if-cases P (le_int64 2 count || le_int64 25000000 (since now c.last_ack_time))
            (λ _.
              if-cases P (length (build_ack_ranges c.recv_packet_history) == 0)
                (λ _. (counted, refl, later))
                (λ some_range.
                  let f = Frame.ack (record {
                    ack_ranges = build_ack_ranges c.recv_packet_history;
                    delay_time = since now c.last_ack_time;
                  }) in
                  let queued = queue_frame-Settled w counted f (has_range _ _ some_range) later in
                  let (d, e, settled, one, gone, same, still, next) =
                    flush_pending_frames-Settled w now (queue_ack w now counted)
                      (Settled-core w (queue_frame counted f) _ refl queued) small in
                  (d, e, settled)))
            (λ _. (counted, refl, later)))
