-- ===== src/Connection/Sending.antt =====
-- conn.go: sending a frame in a packet, and the control frames that wait.
pub mod Datagrams
pub mod Streams
pub mod Accounting
use quic_test.Prelude.{
  ℕ, ◌+◌, ◌-◌, Bool, true, false, ◌&&◌, ◌||◌, List, [], ◌∷◌, ◌++◌, ltb, leb, ◌==◌, if◌then◌else◌,
  length, take, Bytes, u64, lt_int64, le_int64, Result, ok, err, panics, ◌>>=◌,
}
use quic_test.Varint
use quic_test.Wire.Frame.{Frame, append_frame}
use quic_test.Wire.Stream.{StreamFrame}
use quic_test.Connection.State.{
  World, SentPacket, Connection, max_packet_buffer_size, new_sent_packet, take_number, track,
  written_to,
}
use quic_test.Connection.Loss.{short_header}

-- The loop over the frames that wait: it puts frames into the packet up to the first that does not fit.
-- After an error the buffer is nil, and cutting it back panics.
unfoldable pub pack : ℕ → Bytes → List Frame → Result Bytes
pack mtu b [] = ok b
pack mtu b (f ∷ fs) = elim (append_frame b f) [
  | ok b1 ↦ let rest = pack mtu b1 fs in if ltb mtu (length b1) then ok b else rest
  | err e ↦ if length b == 0 then ok b else panics
  | panics ↦ panics
]

-- isAckElicitingFrame
unfoldable pub is_ack_eliciting_frame : Frame → Bool
is_ack_eliciting_frame (Frame.padding f) = false
is_ack_eliciting_frame (Frame.ack f) = false
is_ack_eliciting_frame _ = true

abbrev pub is_stream_frame : Frame → Bool
is_stream_frame (Frame.stream f) = true
is_stream_frame _ = false

-- The most data that a stream frame may carry: no less than 0.
unfoldable pub max_stream_payload : ℕ → Bytes → StreamFrame → ℕ
max_stream_payload max_packet_size conn_id f =
    max_packet_size
    - (1 + length conn_id + 4)
    - (1
        + Varint.len f.stream_id
        + (if lt_int64 0 f.offset then Varint.len f.offset else 0)
        + Varint.len (length f.payload))

unfoldable pub cut_stream_frame : ℕ → Bytes → StreamFrame → StreamFrame
unfolding max_stream_payload
cut_stream_frame max_packet_size conn_id f =
    let most = max_stream_payload max_packet_size conn_id f in
    if ltb most (length f.payload)
    then record f { payload = take most f.payload; data_len_present = true }
    else f

-- What sendFrame returns, and the frame as it leaves it.
pub record Sent (S : Type 0) : Type 0 where
  pub conn : Connection S
  pub was_sent : Bool
  pub frame : Frame

abbrev pub queue_frame : {S : Type 0} → Connection S → Frame → Connection S
queue_frame c f = record c { pending_frames = c.pending_frames ++ (f ∷ []) }

abbrev pub payload_len : Frame → ℕ
payload_len (Frame.stream f) = length f.payload
payload_len _ = 0

module _ {S : Type 0} (w : World S) (now : ℕ) where
  abbrev pub refused : Connection S → Frame → Result (Sent S)
  refused c f = ok (record { conn = c; was_sent = false; frame = f })

  -- The end of sendFrame and sendInitialPacket: the packet is tracked, counted and written. An error of
  -- WriteTo is only logged.
  unfoldable pub record_and_write : Connection S → ℕ → Bytes → Bool → Connection S
  record_and_write c pn b eliciting =
      let tracked = track c (new_sent_packet pn b now eliciting false) in
      written_to
        (record tracked { congestion = w.cc.on_packet_sent tracked.congestion (u64 (length b)) }) b

  -- sendFrame behind the append of the frame: the frames that wait join it.
  unfoldable pub send_appended : Connection S → Frame → Result Bytes → Result (Sent S)
  unfolding is_ack_eliciting_frame record_and_write pack
  send_appended c f (err e) = refused (take_number c) f
  send_appended c f panics = panics
  send_appended c f (ok b) = do
    packet ← pack c.max_packet_size b c.pending_frames
    ok (record {
      conn =
          record_and_write (record (take_number c) { pending_frames = [] }) c.send_pn packet
            (is_ack_eliciting_frame f);
      was_sent = true;
      frame = f;
    })

  -- sendFrame from "Build packet" on.
  unfoldable pub send_packet : Connection S → Frame → Result (Sent S)
  unfolding send_appended
  send_packet c f = do
    head ← short_header c.dest_conn_id c.send_pn
    send_appended c f (append_frame head f)

  -- A stream frame is cut to the packet and waits for the congestion window.
  unfoldable pub send_stream_frame : Connection S → StreamFrame → Result (Sent S)
  unfolding cut_stream_frame send_packet
  send_stream_frame c f =
      let g = cut_stream_frame c.max_packet_size c.dest_conn_id f in
      let (s, allowed) = w.cc.can_send c.congestion (length g.payload) now in
      let asked : Connection S = record c { congestion = s } in
      if allowed
      then send_packet asked (Frame.stream g)
      else refused asked (Frame.stream (record g { payload = [] }))

  abbrev pub send_by_type : Connection S → Frame → Result (Sent S)
  send_by_type c (Frame.stream f) = send_stream_frame c f
  send_by_type c f = send_packet c f

  unfoldable pub send_frame : Connection S → Frame → Result (Sent S)
  unfolding send_stream_frame send_packet
  send_frame c f =
      let count = length c.history in
      if c.closed
      then refused c f
      else if is_stream_frame f && leb 4000 count
      then refused c f
      else if leb 5000 count
      then refused c f
      else send_by_type c f

  -- With the number of bytes that went out.
  unfoldable pub send_stream_data : Connection S → ℕ → ℕ → Bytes → Bool → Result (Connection S × ℕ)
  unfolding send_frame
  send_stream_data c stream_id offset payload fin = do
    sent ← send_frame c (
        Frame.stream (record {
          stream_id = stream_id;
          offset = offset;
          payload = payload;
          fin = fin;
          data_len_present = true;
        }))
    ok (sent.conn, if sent.was_sent then payload_len sent.frame else 0)

  -- The packet is neither tracked nor counted.
  unfoldable pub flush_pending_frames : Connection S → Result (Connection S)
  unfolding pack
  flush_pending_frames c = if length c.pending_frames == 0 || c.closed then ok c else do
    head ← short_header c.dest_conn_id c.send_pn
    b ← pack c.max_packet_size head c.pending_frames
    let packed : Connection S = record (take_number c) { pending_frames = [] }
    ok (if length b == 0 then packed else written_to packed b)

  unfoldable pub send_max_stream_data : Connection S → ℕ → ℕ → Result (Connection S)
  unfolding flush_pending_frames
  send_max_stream_data c stream_id max_data = flush_pending_frames (
      queue_frame c
        (Frame.max_stream_data (record { stream_id = stream_id; maximum_stream_data = max_data })))

unfoldable pub set_max_packet_size : {S : Type 0} → Connection S → ℕ → Connection S
set_max_packet_size c size =
    let capped = if lt_int64 max_packet_buffer_size size then max_packet_buffer_size else size in
    if le_int64 1200 capped then record c { max_packet_size = capped } else c
