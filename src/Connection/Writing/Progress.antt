-- ===== src/Connection/Writing/Progress.antt =====
-- stream.go: a round of Write on an open connection that the controller lets send.
use quic_test.Prelude.{
  ℕ, ◌+◌, ◌^◌, ◌≤◌, ◌<◌, min, ◌≡◌, refl, ap, subst, true, false, [], arith, ltb, leb, ◌==◌,
  if◌then◌else◌, if-cases, length, take, length-append, length-take, Bytes, add64, lt_int64, Result,
  ok, ok_injective,
}
use quic_test.Stream.{Stream}
use quic_test.Wire.Stream.{StreamFrame, append_stream_frame}
use quic_test.Wire.Frame.{Frame, append_frame}
use quic_test.Connection.State.{World, Connection, take_number}
use quic_test.Connection.Loss.Retransmission.{short_header_lem}
use quic_test.Connection.Loss.Settled.{Settled}
use quic_test.Connection.Sending.{
  Sent, payload_len, max_stream_payload, cut_stream_frame, is_ack_eliciting_frame, record_and_write,
  send_appended, send_packet, send_stream_frame, send_frame, send_stream_data,
}
use quic_test.Connection.Sending.Datagrams.{pack-ok, varint_len_bound}
use quic_test.Connection.Sending.Streams.{send_stream_data-Settled}
use quic_test.Connection.Sending.Accounting.{asked-Settled}
use quic_test.Connection.Writing.{wrote, chunk_size, write_round}

-- A frame that is cut keeps a byte.
cut_some :
    (size : ℕ) (conn_id : Bytes) (f : StreamFrame)
    → 1200 ≤ size
    → length conn_id ≤ 20
    → 1 ≤ length f.payload
    → 1 ≤ length (cut_stream_frame size conn_id f).payload
unfolding cut_stream_frame max_stream_payload
cut_some size conn_id f big short some_data =
    let most = max_stream_payload size conn_id f in
    ground (
      arith,
      length-take most f.payload,
      varint_len_bound f.stream_id,
      varint_len_bound f.offset,
      varint_len_bound (length f.payload),
    )

-- What a connection is after it has sent one more packet: open as before, with one packet more.
pub record OneMore {S : Type 0} (c d : Connection S) : Type 0 where
  pub closed : d.closed ≡ c.closed
  pub history : length d.history ≡ length c.history + 1
  pub number : d.send_pn ≤ c.send_pn + 1

module _ {S : Type 0} (w : World S) (now : ℕ) where
  -- A frame with data has gone out.
  abbrev WasSent : Connection S → Result (Sent S) → Type 0
  WasSent c r =
      (s : Sent S) × (r ≡ ok s) × (s.was_sent ≡ true) × (1 ≤ payload_len s.frame) × OneMore c s.conn

  send_packet-WasSent :
      (c : Connection S) (g : StreamFrame)
      → Settled w c
      → c.send_pn + 1 < 2 ^ 64
      → 1 ≤ length g.payload
      → WasSent c (send_packet w now c (Frame.stream g))
  unfolding send_packet send_appended append_frame record_and_write
  send_packet-WasSent c g h small some_data =
      let (head, made, size) = short_header_lem c.dest_conn_id c.send_pn in
      let t = append_stream_frame head g in
      let (b, packed, bound) = pack-ok c.max_packet_size t c.pending_frames h.account.sized.0 in
      (
        record {
          conn =
              record_and_write w now (record (take_number c) { pending_frames = [] }) c.send_pn b
                (is_ack_eliciting_frame (Frame.stream g));
          was_sent = true;
          frame = Frame.stream g;
        },
        rw made (rw (send_appended, packed) refl),
        refl,
        some_data,
        record { closed = refl; history = length-append c.history _; number = omega arith },
      )

  send_frame-WasSent :
      (c : Connection S) (f : StreamFrame)
      → Settled w c
      → c.send_pn + 1 < 2 ^ 64
      → c.closed ≡ false
      → length c.history < 4000
      → ((t : S) (n : ℕ) → (w.cc.can_send t n now).1 ≡ true)
      → 1 ≤ length f.payload
      → WasSent c (send_frame w now c (Frame.stream f))
  unfolding send_frame send_stream_frame
  send_frame-WasSent c f h small unclosed room admits some_data =
      let g = cut_stream_frame c.max_packet_size c.dest_conn_id f in
      let P : Result (Sent S) → Type 0 = λ r. WasSent c r in
      let asked : Connection S = record c {
        congestion = (w.cc.can_send c.congestion (length g.payload) now).0;
      } in
      let (s, e, sent, some_left, more) =
        send_packet-WasSent asked g (asked-Settled w now c (length g.payload) h) small (
          cut_some c.max_packet_size c.dest_conn_id f h.account.sized.1 h.account.conn_id
            some_data) in
      let here : WasSent c (send_packet w now asked (Frame.stream g)) = (
        s,
        e,
        sent,
        some_left,
        record { closed = more.closed; history = more.history; number = more.number },
      ) in
      if-cases P c.closed (λ t. absurd (cc))
        (λ t.
          if-cases P (leb 4000 (length c.history)) (λ t. absurd (ground (arith, t)))
            (λ t.
              if-cases P (leb 5000 (length c.history)) (λ t. absurd (ground (arith, t)))
                (λ t.
                  if-cases P (w.cc.can_send c.congestion (length g.payload) now).1 (λ t. here)
                    (λ t. absurd (cc (t, admits c.congestion (length g.payload)))))))

  -- A round: it goes on with a byte less or more, on a settled connection.
  pub record Goes (c : Connection S) (s : Stream) (left : Bytes) (d : Connection S) (t : Stream)
      (n : ℕ) : Type 0 where
    pub ran : write_round w now c s left ≡ ok (wrote d t n)
    pub some_sent : 1 ≤ n
    pub few : n ≤ length left
    pub settled : Settled w d
    pub more : OneMore c d
    pub stream : t ≡ record s { write_offset = s.write_offset + n }

  pub write_round-Goes :
      (c : Connection S) (s : Stream) (left : Bytes)
      → Settled w c
      → c.send_pn + 1 < 2 ^ 64
      → c.closed ≡ false
      → length c.history < 4000
      → ((t : S) (n : ℕ) → (w.cc.can_send t n now).1 ≡ true)
      → s.closed ≡ false
      → 1 ≤ length left
      → s.write_offset + length left ≤ s.max_data
      → s.max_data < 2 ^ 62
      → (d : Connection S) × (t : Stream) × (n : ℕ) × Goes c s left d t n
  unfolding write_round send_stream_data
  write_round-Goes c s left h small unclosed room admits open_stream some_left window limit =
      let chunk = take (min (length left) chunk_size) left in
      let size : length chunk ≡ min (length left) chunk_size =
        omega (arith, length-take (min (length left) chunk_size) left) in
      let f : StreamFrame = record {
        stream_id = s.stream_id;
        offset = s.write_offset;
        payload = chunk;
        fin = false;
        data_len_present = true;
      } in
      let (x, e, sent, some_data, more) =
        send_frame-WasSent c f h small unclosed room admits (omega arith) in
      let (d, n, e2, settled, one, few) =
        send_stream_data-Settled w now c s.stream_id s.write_offset chunk false h small in
      let no_wait : lt_int64 s.max_data (add64 s.write_offset (min (length left) chunk_size))
          ≡ false =
        ground arith in
      let sent_bytes : Sent S → Connection S × ℕ =
        λ r. (r.conn, if r.was_sent then payload_len r.frame else 0) in
      let same : sent_bytes x ≡ (d, n) =
        ok_injective (sent_bytes x) (d, n) (rw (send_stream_data, e) at e2) in
      let conn : x.conn ≡ d = ap (λ (q : Connection S × ℕ). q.0) same in
      let count : payload_len x.frame ≡ n = rw sent at (ap (λ (q : Connection S × ℕ). q.1) same) in
      let nonempty : (length left == 0) ≡ false = ground arith in
      let positive : ltb 0 n ≡ true = ground arith in
      let next : add64 s.write_offset n ≡ s.write_offset + n = ground arith in
      (
        d,
        record s { write_offset = s.write_offset + n },
        n,
        record {
          ran = rw (nonempty, no_wait, open_stream, e2, positive, next) refl;
          some_sent = omega (arith, count, some_data);
          few = omega arith;
          settled = settled;
          more = subst (λ (y : Connection S). OneMore c y) conn more;
          stream = refl;
        },
      )
