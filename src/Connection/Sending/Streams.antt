-- ===== src/Connection/Sending/Streams.antt =====
-- sendStreamData and the control frames that wait.
use quic_test.Prelude.{
  ℕ, ◌+◌, ◌^◌, ◌≤◌, ◌<◌, ◌≡◌, refl, ◌⊎◌, inl, inr, Bool, true, ◌||◌, List, [], ◌∷◌, ◌++◌, arith,
  ◌==◌, if◌then◌else◌, if-cases, length, All-append, Bytes, add64, Result, ok,
}
use quic_test.Wire.Stream.{StreamFrame}
use quic_test.Wire.Frame.{Frame}
use quic_test.Wire.Writable.{Appends}
use quic_test.Wire.Header.Short.{length_for_header_bounds}
use quic_test.Connection.State.{World, SentPacket, Connection, take_number, written_to}
use quic_test.Connection.Loss.History.{Ascending}
use quic_test.Connection.Loss.Retransmission.{short_header_lem}
use quic_test.Connection.Loss.Settled.{Settled, settled_at}
use quic_test.Connection.Sending.{payload_len, queue_frame, send_stream_data, flush_pending_frames}
use quic_test.Connection.Sending.Datagrams.{pack-ok}
use quic_test.Connection.Sending.Accounting.{WritesOne, send_frame-Streamed}

none_left :
    (fs : List Frame) (closed : Bool)
    → ((length fs == 0) || closed) ≡ true
    → (closed ≡ true) ⊎ (fs ≡ [])
none_left [] closed e = inr refl
none_left (f ∷ fs) closed e = inl (ground arith)

module _ {S : Type 0} (w : World S) where
  pub queue_frame-Settled :
      (c : Connection S) (f : Frame) → Appends f → Settled w c → Settled w (queue_frame c f)
  queue_frame-Settled c f a h =
      let k = h.account in
      record {
        account = record {
          keys = k.keys;
          next = k.next;
          numbers = k.numbers;
          packets = k.packets;
          flight = k.flight;
          conn_id = k.conn_id;
          sized = (
            All-append Appends c.pending_frames (f ∷ []) k.sized.0 (a, tt),
            k.sized.1,
            k.sized.2,
          );
        };
        empty = h.empty;
      }

module _ {S : Type 0} (w : World S) (now : ℕ) where
  -- From a settled state, with a packet number left, sendStreamData returns with a settled state. It writes
  -- one datagram at most, no larger than the packet size, and reports no more bytes than it was given.
  pub send_stream_data-Settled :
      (c : Connection S) (stream_id offset : ℕ) (payload : Bytes) (fin : Bool)
      → Settled w c
      → c.send_pn + 1 < 2 ^ 64
      → (d : Connection S) × (n : ℕ) × (send_stream_data w now c stream_id offset payload fin
          ≡ ok (d, n))
        × Settled w d
        × WritesOne c d
        × (n ≤ length payload)
  unfolding send_stream_data
  send_stream_data-Settled c stream_id offset payload fin h small =
      let f : StreamFrame = record {
        stream_id = stream_id;
        offset = offset;
        payload = payload;
        fin = fin;
        data_len_present = true;
      } in
      let (s, e, ready, one, less) = send_frame-Streamed w now c f h small in
      (
        s.conn,
        if s.was_sent then payload_len s.frame else 0,
        rw e refl,
        ready,
        one,
        ground (arith, less),
      )

  Ascending-later :
      (lo : ℕ) (ps : List SentPacket) (hi : ℕ) → Ascending lo ps hi → Ascending lo ps (hi + 1)
  Ascending-later lo [] hi h = omega arith
  Ascending-later lo (p ∷ ps) hi (a, h) = (a, Ascending-later (p.pn + 1) ps hi h)

  -- What flushPendingFrames comes to.
  abbrev pub Flushed : Connection S → Result (Connection S) → Type 0
  Flushed c r =
      (d : Connection S) × (r ≡ ok d)
      × Settled w d
      × WritesOne c d
      × ((c.closed ≡ true) ⊎ (d.pending_frames ≡ []))
      × (d.history ≡ c.history)
      × (d.congestion ≡ c.congestion)
      × (d.send_pn ≤ c.send_pn + 1)

  later :
      (c : Connection S) (ds : List Bytes)
      → Settled w c
      → c.send_pn + 1 < 2 ^ 64
      → Settled w (record (take_number c) { pending_frames = []; written = ds })
  later c ds h small =
      let a = h.account in
      let next : add64 c.send_pn 1 ≡ c.send_pn + 1 = omega arith in
      settled_at w (c.send_pn + 1) _
        (record {
          keys = a.keys;
          next = next;
          numbers = Ascending-later 0 c.history c.send_pn a.numbers;
          packets = a.packets;
          flight = a.flight;
          conn_id = a.conn_id;
          sized = (tt, a.sized.1, a.sized.2);
        })
        h.empty

  nothing_waits :
      (c : Connection S)
      → ((length c.pending_frames == 0) || c.closed) ≡ true
      → (c.closed ≡ true) ⊎ (c.pending_frames ≡ [])
  nothing_waits c e = none_left c.pending_frames c.closed e

  pub flush_pending_frames-Settled :
      (c : Connection S)
      → Settled w c
      → c.send_pn + 1 < 2 ^ 64
      → Flushed c (flush_pending_frames w now c)
  unfolding flush_pending_frames
  flush_pending_frames-Settled c h small =
      let (head, made, size) = short_header_lem c.dest_conn_id c.send_pn in
      let (b, packed, bound) = pack-ok c.max_packet_size head c.pending_frames h.account.sized.0 in
      let (l, m) = length_for_header_bounds c.send_pn 0 in
      let least = h.account.sized.1 in
      let cid = h.account.conn_id in
      let fits : length b ≤ c.max_packet_size = elim bound [
        | inl e ↦ rw e (omega arith)
        | inr d ↦ d
      ] in
      let packed_conn : Connection S = record (take_number c) { pending_frames = [] } in
      if-cases (λ (r : Result (Connection S)). Flushed c r)
        ((length c.pending_frames == 0) || c.closed)
        (λ t. (c, refl, h, inl refl, nothing_waits c t, refl, refl, omega arith))
        (λ t. rw made (
          rw packed (
            if-cases (λ (d : Connection S). Flushed c (ok d)) (length b == 0)
              (λ u. (
                packed_conn,
                refl,
                later c c.written h small,
                inl refl,
                inr refl,
                refl,
                refl,
                omega arith,
              ))
              (λ u. (
                written_to packed_conn b,
                refl,
                later c (c.written ++ (b ∷ [])) h small,
                inr (b, refl, fits),
                inr refl,
                refl,
                refl,
                omega arith,
              )))))
