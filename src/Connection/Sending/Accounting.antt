-- ===== src/Connection/Sending/Accounting.antt =====
-- conn.go: sending, the account of the packets in flight and the size of the datagrams.
use quic_test.Prelude.{
  ℕ, ◌+◌, ◌^◌, ◌≤◌, ◌<◌, ◌≡◌, refl, ap, ◌∙◌, ◌⊎◌, inl, inr, Bool, true, false, [], ◌∷◌, ◌++◌, arith,
  leb, if-cases, length, Bytes, u64, Result, ok,
}
use quic_test.Wire.Header.Short.{length_for_header_bounds}
use quic_test.Wire.Frame.{Frame, append_frame}
use quic_test.Wire.Stream.{StreamFrame, append_stream_frame}
use quic_test.Connection.State.{World, Connection, new_sent_packet, take_number}
use quic_test.Connection.Loss.{short_header}
use quic_test.Connection.Loss.Retransmission.{short_header_lem, tracked_more}
use quic_test.Connection.Loss.Settled.{Settled, settled_at}
use quic_test.Connection.Sending.{
  Sent, payload_len, cut_stream_frame, is_ack_eliciting_frame, refused, record_and_write,
  send_appended, send_packet, send_stream_frame, send_frame,
}
use quic_test.Connection.Sending.Datagrams.{pack-ok, cut_stream_frame_size}

-- The datagrams that an operation adds: one at most, no larger than the packet size.
abbrev pub WritesOne : {S : Type 0} → Connection S → Connection S → Type 0
WritesOne c d =
    (d.written ≡ c.written)
    ⊎ ((b : Bytes) × (d.written ≡ c.written ++ (b ∷ [])) × (length b ≤ c.max_packet_size))

module _ {S : Type 0} (w : World S) (now : ℕ) where
  record_and_write-Settled :
      (c : Connection S) (b : Bytes) (eliciting : Bool)
      → Settled w c
      → c.send_pn + 1 < 2 ^ 64
      → length b ≤ 1449
      → Settled w (
          record_and_write w now
            (record (take_number c) { pending_frames = [] })
            c.send_pn
            b
            eliciting)
  unfolding record_and_write new_sent_packet
  record_and_write-Settled c b eliciting h small size =
      let fresh = new_sent_packet c.send_pn b now eliciting false in
      let (l, m) = length_for_header_bounds c.send_pn 0 in
      let e : u64 (length b) ≡ length b = omega arith in
      settled_at w (c.send_pn + 1) _
        (tracked_more w now [] c.send_pn c b fresh refl refl refl refl
          (rw e (omega arith, omega arith)) tt small
          (record_and_write w now (record (take_number c) { pending_frames = [] }) c.send_pn b
            eliciting)
          refl refl refl refl refl (tt, h.account.sized.1, h.account.sized.2) h.account)
        h.empty

  -- A frame that fits goes out in a packet of its own, with the frames that wait.
  pub send_packet-Settled :
      (c : Connection S) (f : Frame) (head t : Bytes)
      → short_header c.dest_conn_id c.send_pn ≡ ok head
      → append_frame head f ≡ ok t
      → length t ≤ c.max_packet_size
      → Settled w c
      → c.send_pn + 1 < 2 ^ 64
      → (s : Sent S) × (send_packet w now c f ≡ ok s)
        × Settled w s.conn
        × WritesOne c s.conn
        × (s.was_sent ≡ true)
        × (s.frame ≡ f)
  unfolding send_packet send_appended
  send_packet-Settled c f head t made e fits h small =
      let (b, packed, size) = pack-ok c.max_packet_size t c.pending_frames h.account.sized.0 in
      let bound : length b ≤ c.max_packet_size = elim size [ inl d ↦ rw d fits | inr d ↦ d ] in
      let most = h.account.sized.2 in
      let least = h.account.sized.1 in
      let eliciting = is_ack_eliciting_frame f in
      (
        record {
          conn =
              record_and_write w now (record (take_number c) { pending_frames = [] }) c.send_pn b
                eliciting;
          was_sent = true;
          frame = f;
        },
        rw made (rw e (rw (send_appended, packed) refl)),
        record_and_write-Settled c b eliciting h small (omega arith),
        inr (b, refl, bound),
        refl,
        refl,
      )

  -- What sending a stream frame comes to: a state that is ready, one datagram at most, and the frame
  -- with a part of the data, or with none when it was refused.
  abbrev pub Streamed : Connection S → StreamFrame → Result (Sent S) → Type 0
  Streamed c f r =
      (s : Sent S) × (r ≡ ok s)
      × Settled w s.conn
      × WritesOne c s.conn
      × (payload_len s.frame ≤ length f.payload)

  pub asked-Settled :
      (c : Connection S) (size : ℕ)
      → Settled w c
      → Settled w (record c { congestion = (w.cc.can_send c.congestion size now).0 })
  asked-Settled c size h =
      let a = h.account in
      record {
        account = record {
          keys = a.keys;
          next = a.next;
          numbers = a.numbers;
          packets = a.packets;
          flight = w.cc.flight-can_send c.congestion size now ∙ a.flight;
          conn_id = a.conn_id;
          sized = a.sized;
        };
        empty = h.empty;
      }

  send_stream_frame-Streamed :
      (c : Connection S) (f : StreamFrame)
      → Settled w c
      → c.send_pn + 1 < 2 ^ 64
      → Streamed c f (send_stream_frame w now c f)
  unfolding send_stream_frame append_frame
  send_stream_frame-Streamed c f h small =
      let g = cut_stream_frame c.max_packet_size c.dest_conn_id f in
      let asked : Connection S = record c {
        congestion = (w.cc.can_send c.congestion (length g.payload) now).0;
      } in
      let ready = asked-Settled c (length g.payload) h in
      let (head, made, size) = short_header_lem c.dest_conn_id c.send_pn in
      let (l, m) = length_for_header_bounds c.send_pn 0 in
      let (fits, less) =
        cut_stream_frame_size c.max_packet_size c.dest_conn_id head f h.account.sized.1
          h.account.conn_id (omega arith) in
      let (s, e, ready1, one, sent, same) =
        send_packet-Settled asked (Frame.stream g) head (append_stream_frame head g) made refl fits
          ready small in
      if-cases (λ (r : Result (Sent S)). Streamed c f r)
        (w.cc.can_send c.congestion (length g.payload) now).1
        (λ t. (s, e, ready1, one, omega (arith, ap payload_len same, less)))
        (λ t. (_, refl, ready, inl refl, omega arith))

  pub send_frame-Streamed :
      (c : Connection S) (f : StreamFrame)
      → Settled w c
      → c.send_pn + 1 < 2 ^ 64
      → Streamed c f (send_frame w now c (Frame.stream f))
  unfolding send_frame
  send_frame-Streamed c f h small =
      let no : Streamed c f (refused w now c (Frame.stream f)) =
        (_, refl, h, inl refl, omega arith) in
      let P = λ (r : Result (Sent S)). Streamed c f r in
      if-cases P c.closed (λ t. no)
        (λ t.
          if-cases P (leb 4000 (length c.history)) (λ t. no)
            (λ t.
              if-cases P (leb 5000 (length c.history)) (λ t. no)
                (λ t. send_stream_frame-Streamed c f h small)))
