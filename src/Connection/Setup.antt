-- ===== src/Connection/Setup.antt =====
-- conn.go: a new connection, and the Initial packets that a client begins with. The read loop and
-- the socket are left out; a connection identifier is its bytes.
use quic_test.Prelude.{
  ℕ, ◌+◌, ◌-◌, false, none, [], ◌++◌, ltb, if◌then◌else◌, length, take, replicate, Bytes, add64,
  Result, ok, err, panics, ◌>>=◌,
}
use quic_test.Wire.Limits.{bidi}
use quic_test.Wire.Frame.{Frame, append_frame}
use quic_test.Wire.LongHeader.{initial}
use quic_test.Wire.LongHeader.Writing.{ExtendedHeader, append_long_header, set_length}
use quic_test.Congestion.Rtt.{new_rtt_stats}
use quic_test.Connection.State.{World, Connection}
use quic_test.Connection.Sending.{record_and_write}

module _ {S : Type 0} (w : World S) where
  -- newServerConnection and newClientConnection, for the controller that newController makes; the two
  -- differ in the read loop and in the log.
  unfoldable pub new_connection : S → Bytes → Connection S
  unfolding new_rtt_stats
  new_connection controller dest_conn_id = record {
    dest_conn_id = dest_conn_id;
    streams = [];
    next_bidi = 0;
    next_uni = 0;
    accepted = [];
    ready = false;
    closed = false;
    close_once = false;
    close_err = none;
    send_pn = 0;
    recv_pn = 0;
    largest_recv_pn = 0;
    pending_frames = [];
    max_streams_bidi = 100;
    max_streams_uni = 100;
    conn_max_data = 1048576;
    recv_packet_history = [];
    history = [];
    tracked = [];
    ack_signals = 0;
    ack_eliciting_since_last_ack = 0;
    last_ack_time = none;
    rtt_stats = new_rtt_stats;
    congestion = w.cc.on_packet_sent controller 0;
    retransmit_queue = [];
    last_recv_ack_time = none;
    pto_count = 0;
    largest_sent_pn = 0;
    largest_acked_pn = 0;
    local_max_stream_data = [];
    max_packet_size = 1280;
    written = [];
  }

  abbrev pub initial_header : Connection S → ℕ → Bytes → ExtendedHeader
  initial_header c version src_conn_id = record {
    packet_type = initial;
    version = version;
    src_connection_id = src_conn_id;
    dest_connection_id = c.dest_conn_id;
    token = [];
    packet_number_len = 4;
    packet_number = c.send_pn;
  }

  -- Zeros up to 1200 bytes, and a cut to the greatest packet.
  abbrev pub pad_and_trim : ℕ → Bytes → Bytes
  pad_and_trim most b =
      let padded = b ++ replicate (1200 - length b) 0 in
      if ltb most (length padded) then take most padded else padded

  -- The Initial packet that sendInitialPacket builds around a frame.
  unfoldable pub initial_packet : Connection S → ℕ → Bytes → Frame → Result Bytes
  unfolding append_long_header append_frame set_length
  initial_packet c version src_conn_id f = do
    head ← append_long_header [] (initial_header c version src_conn_id)
    b ← append_frame head f
    sized ← set_length b (4 + (length b - length head))
    ok (pad_and_trim c.max_packet_size sized)

  -- sendInitialPacket, which takes a number first; an error is logged, and nothing is sent.
  unfoldable pub send_initial_packet : ℕ → Connection S → ℕ → Bytes → Frame → Result (Connection S)
  unfolding initial_packet record_and_write
  send_initial_packet now c version src_conn_id f =
      let next : Connection S = record c { send_pn = add64 c.send_pn 1 } in
      elim (initial_packet c version src_conn_id f) [
        | panics ↦ panics
        | err e ↦ ok next
        | ok b ↦ ok (record_and_write w now next c.send_pn b false)
      ]

  unfoldable pub send_connection_setup : ℕ → Connection S → ℕ → Bytes → Result (Connection S)
  unfolding send_initial_packet
  send_connection_setup now c version src = do
    c1 ← send_initial_packet now c version src Frame.ping
    c2 ←
        send_initial_packet now c1 version src
          (Frame.max_data (record { maximum_data = c1.conn_max_data }))
    send_initial_packet now c2 version src
        (Frame.max_streams (record { stream_type = bidi; max_streams = c2.max_streams_bidi }))
