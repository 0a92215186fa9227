-- ===== src/Connection/Receive.antt =====
-- conn.go: what comes in. A packet is parsed, recorded for the ACK, and its frames are handled.
pub mod Core
pub mod Handling
pub mod Unpacking
pub mod Packets
pub mod Parsed
use quic_test.Prelude.{
  ℕ, ◌+◌, ◌-◌, ◌^◌, true, ◌||◌, Option, none, some, List, [], ◌∷◌, ◌++◌, ltb, ◌==◌, if◌then◌else◌,
  length, drop, Bytes, add64, sub64, le_int64, Result, ok, err, panics, ◌>>=◌, map_ok,
}
use quic_test.Protocol.PacketNumber.{decode_packet_number}
use quic_test.Wire.Limits.{MaxStreamsFrame, bidi, uni}
use quic_test.Wire.Frame.{Frame}
use quic_test.Wire.Stream.{StreamFrame}
use quic_test.Wire.Header.{parse_short_header}
use quic_test.Wire.LongHeader.{Header, parse_packet, parse_extended}
use quic_test.Stream.{Stream, new_stream, handle_stream_data, update_max_data, cancel_write}
use quic_test.Connection.State.{World, Connection, larger_int64}
use quic_test.Connection.AckRanges.{build_ack_ranges}
use quic_test.Connection.Frames.{parse_and_handle_frames}
use quic_test.Connection.Loss.{handle_ack_frame}
use quic_test.Connection.Sending.{
  send_frame, send_max_stream_data, queue_frame, flush_pending_frames,
}
use quic_test.Connection.Closing.{stream_at, put_stream, handle_connection_close_frame}

-- `s.reset = true; s.finalSize = f.FinalSize`
abbrev pub on_reset : ℕ → Stream → Stream
on_reset final_size s = record s { reset = true; final_size = final_size }

abbrev pub set_limit : ℕ → ℕ → List (ℕ × ℕ) → List (ℕ × ℕ)
set_limit id v [] = (id, v) ∷ []
set_limit id v (e ∷ es) = if e.0 == id then (id, v) ∷ es else e ∷ set_limit id v es

-- A time minus the zero time is the greatest duration.
abbrev pub since : ℕ → Option ℕ → ℕ
since now none = 2 ^ 63 - 1
since now (some t) = sub64 now t

module _ {S : Type 0} where
  -- A change of the stream, if there is one of that number.
  abbrev pub on_stream : Connection S → ℕ → (Stream → Stream) → Connection S
  on_stream c id change = elim (stream_at id c.streams) [
    | none ↦ c
    | some s ↦ record c { streams = put_stream id (change s) c.streams }
  ]

  abbrev pub handle_max_streams_frame : Connection S → MaxStreamsFrame → Connection S
  handle_max_streams_frame c f = elim f.stream_type [
    | bidi ↦ record c { max_streams_bidi = f.max_streams }
    | uni ↦ record c { max_streams_uni = f.max_streams }
  ]

  -- The last 1000 numbers, cut by 100 at a time, and a signal to acknowledge if there is room for it.
  unfoldable pub record_received_packet : Connection S → ℕ → Connection S
  record_received_packet c pn =
      let longer = c.recv_packet_history ++ (pn ∷ []) in
      record c {
        recv_packet_history = if ltb 1000 (length longer) then drop 100 longer else longer;
        ack_signals = if ltb c.ack_signals 100 then c.ack_signals + 1 else c.ack_signals;
      }

  abbrev pub receive_number : Connection S → ℕ → ℕ → Connection S
  receive_number c len truncated =
      let pn = decode_packet_number len c.largest_recv_pn truncated in
      record_received_packet
        (record c { largest_recv_pn = larger_int64 c.largest_recv_pn pn; recv_pn = pn }) pn

module _ {S : Type 0} (w : World S) (now : ℕ) where
  -- The new stream is announced, its window is sent, and it waits for AcceptStream if there is room.
  unfoldable pub accept_stream : Connection S → ℕ → Result (Connection S)
  unfolding send_max_stream_data
  accept_stream c id = do
    let known : Connection S = record c {
      streams = put_stream id (new_stream id) c.streams;
      local_max_stream_data = set_limit id 1048576 c.local_max_stream_data;
    }
    told ← send_max_stream_data w now known id 1048576
    ok (
        if ltb (length told.accepted) 100
        then record told { accepted = told.accepted ++ (id ∷ []) }
        else told)

  -- The stream takes the data, and the connection sends the limit that it asks for.
  unfoldable pub deliver_to : Connection S → Stream → StreamFrame → Result (Connection S)
  unfolding handle_stream_data send_max_stream_data
  deliver_to c s f =
      let (s1, limit) = handle_stream_data s f.offset f.payload f.fin in
      let stored : Connection S = record c { streams = put_stream f.stream_id s1 c.streams } in
      elim limit [ none ↦ ok stored | some l ↦ send_max_stream_data w now stored f.stream_id l ]

  unfoldable pub handle_stream_frame : Connection S → StreamFrame → Result (Connection S)
  unfolding accept_stream deliver_to
  handle_stream_frame c f = elim (stream_at f.stream_id c.streams) [
    | some s ↦ deliver_to c s f
    | none ↦ do
      accepted ← accept_stream c f.stream_id
      deliver_to accepted (new_stream f.stream_id) f
  ]

  unfoldable pub handle_frame : Connection S → Frame → Result (Connection S)
  unfolding handle_stream_frame handle_ack_frame send_frame handle_connection_close_frame
  handle_frame c (Frame.stream f) = handle_stream_frame c f
  handle_frame c (Frame.ack f) = handle_ack_frame w now c f
  handle_frame c (Frame.max_data f) = ok (record c { conn_max_data = f.maximum_data })
  handle_frame c (Frame.max_stream_data f) =
      ok (on_stream c f.stream_id (λ s. update_max_data s f.maximum_stream_data))
  handle_frame c (Frame.max_streams f) = ok (handle_max_streams_frame c f)
  handle_frame c (Frame.connection_close f) =
      ok (handle_connection_close_frame c f.error_code f.reason_phrase)
  handle_frame c (Frame.reset_stream f) = ok (on_stream c f.stream_id (on_reset f.final_size))
  handle_frame c (Frame.stop_sending f) = ok (on_stream c f.stream_id cancel_write)
  handle_frame c (Frame.path_challenge f) =
      map_ok (λ sent. sent.conn)
        (send_frame w now c (Frame.path_response (record { response = f.challenge })))
  handle_frame c _ = ok c

  unfoldable pub handle_frames : Connection S → List Frame → Result (Connection S)
  unfolding handle_frame
  handle_frames c [] = ok c
  handle_frames c (f ∷ fs) = do c1 ← handle_frame c f; handle_frames c1 fs

  -- parseAndHandleFrames: the parser keeps no state.
  unfoldable pub handle_payload : Connection S → Bytes → Result (Connection S)
  unfolding parse_and_handle_frames handle_frames
  handle_payload c input = do fs ← parse_and_handle_frames input; handle_frames c fs

  -- A packet that cannot be parsed is dropped.
  unfoldable pub handle_long_header_packet : Connection S → Header → Bytes → Result (Connection S)
  unfolding parse_extended record_received_packet handle_payload
  handle_long_header_packet c h payload = elim (parse_extended h payload) [
    | err e ↦ ok c
    | panics ↦ panics
    | ok r ↦
        let received = receive_number c r.1 r.0 in
        let start = r.2 - h.parsed_len in
        if ltb start (length payload)
        then handle_payload received (drop start payload)
        else ok received
  ]

  unfoldable pub handle_short_header_packet : Connection S → Bytes → Result (Connection S)
  unfolding parse_short_header record_received_packet handle_payload
  handle_short_header_packet c input = elim (parse_short_header input (length c.dest_conn_id)) [
    | err e ↦ ok c
    | panics ↦ panics
    | ok r ↦ handle_payload (receive_number c r.2 r.1) (drop r.0 input)
  ]

  unfoldable pub handle_received_packet : Connection S → Bytes → Result (Connection S)
  unfolding parse_packet handle_long_header_packet handle_short_header_packet
  handle_received_packet c0 input =
      let c : Connection S = record c0 { ready = true } in
      elim (parse_packet input) [
        | err e ↦ ok c
        | panics ↦ panics
        | ok r ↦ elim r.0 [
          | some h ↦ handle_long_header_packet c h r.1
          | none ↦ handle_short_header_packet c r.1
        ]
      ]

  -- The ACK frame that is queued, and what is reset.
  unfoldable pub queue_ack : Connection S → Connection S
  unfolding build_ack_ranges
  queue_ack c =
      let n = length c.recv_packet_history in
      record (queue_frame c (
        Frame.ack (record {
          ack_ranges = build_ack_ranges c.recv_packet_history;
          delay_time = since now c.last_ack_time;
        }))) {
          ack_eliciting_since_last_ack = 0;
          last_ack_time = some now;
          recv_packet_history =
              if ltb 2000 n then drop (n - 1000) c.recv_packet_history else c.recv_packet_history;
        }

  unfoldable pub send_ack_if_needed : Connection S → Result (Connection S)
  unfolding queue_ack flush_pending_frames
  send_ack_if_needed c =
      let count = add64 c.ack_eliciting_since_last_ack 1 in
      let counted : Connection S = record c { ack_eliciting_since_last_ack = count } in
      if length c.recv_packet_history == 0
      then ok c
      else if le_int64 2 count || le_int64 25000000 (since now c.last_ack_time)
      then if length (build_ack_ranges c.recv_packet_history) == 0
        then ok counted
        else flush_pending_frames w now (queue_ack counted)
      else ok counted
