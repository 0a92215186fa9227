-- ===== src/Connection/Transfer.antt =====
-- conn.go: sendStreamData on one connection and handleReceivedPacket on another.
pub mod Packets
pub mod Carried
use quic_test.Prelude.{
  ℕ, ◌+◌, ◌*◌, ◌%◌, ◌^◌, ◌≤◌, ◌<◌, ◌≡◌, refl, sym, ◌∙◌, subst, ◌⊎◌, inl, inr, Bool, true, none,
  List, [], ◌∷◌, ◌++◌, arith, if◌then◌else◌, length, take, All, length-take, drop-length, All-take,
  Bytes, ok, ok_injective, Result-cases,
}
use quic_test.Protocol.PacketNumber.{packet_number_length_for_header}
use quic_test.Protocol.PacketNumber.Decoding.{decode_packet_number-near}
use quic_test.Wire.Field.{IsField}
use quic_test.Wire.Header.{is_long_header_packet, parse_short_header}
use quic_test.Wire.Header.Short.{parse_short_header-append, length_for_header_bounds}
use quic_test.Wire.LongHeader.{parse_packet}
use quic_test.Wire.Frame.{Frame}
use quic_test.Wire.Stream.{StreamFrame}
use quic_test.Connection.State.{World, Connection, larger_int64}
use quic_test.Connection.Loss.{short_header}
use quic_test.Connection.Sending.{Sent, payload_len, send_frame, send_stream_data}
use quic_test.Connection.Receive.{
  record_received_packet, handle_frames, handle_payload, handle_short_header_packet,
  handle_received_packet,
}
use Packets.{IsPackable, images, parse_and_handle_frames-images}
use Carried.{cut_to, Carries, send_frame-Carries}

-- A connection that has seen the packet `pn`.
abbrev pub numbered : {S : Type 0} → Connection S → ℕ → Connection S
unfolding record_received_packet
numbered r pn =
    record_received_packet
      (record r { ready = true; largest_recv_pn = larger_int64 r.largest_recv_pn pn; recv_pn = pn })
      pn

module _ {S : Type 0} (w : World S) (now : ℕ) where
  parse_packet-short :
      (input : Bytes) (n : ℕ) (r : ℕ × ℕ × ℕ)
      → parse_short_header input n ≡ ok r
      → parse_packet input ≡ ok (none, input)
  unfolding parse_packet parse_short_header is_long_header_packet
  parse_packet-short input n r e = ground (arith, e)

  -- The packet of a header and frames is handled as these frames.
  handle_received_packet-images :
      (r : Connection S) (conn_id head : Bytes) (pn : ℕ) (fs : List Frame)
      → short_header conn_id pn ≡ ok head
      → length conn_id ≡ length r.dest_conn_id
      → pn ≤ 2 ^ 31
      → r.largest_recv_pn + 1 < pn + 128
      → All IsPackable fs
      → handle_received_packet w now r (head ++ images fs) ≡ handle_frames w now (numbered r pn) fs
  unfolding handle_received_packet handle_short_header_packet handle_payload
  handle_received_packet-images r conn_id head pn fs made same few near h =
      let len = packet_number_length_for_header pn 0 in
      let (l, m) = length_for_header_bounds pn 0 in
      let (head', made', read) = parse_short_header-append conn_id (images fs) pn len l m in
      let one : head' ≡ head = ok_injective head' head (sym made' ∙ made) in
      let input = head ++ images fs in
      let here : parse_short_header input (length r.dest_conn_id)
          ≡ ok (length head, pn % 2 ^ (len * 8), len) =
        subst (λ (n : ℕ). parse_short_header input n ≡ ok (length head, pn % 2 ^ (len * 8), len))
          same
          (subst
            (λ (x : Bytes).
              parse_short_header (x ++ images fs) (length conn_id)
              ≡ ok (length x, pn % 2 ^ (len * 8), len))
            one read) in
      let number = decode_packet_number-near r.largest_recv_pn pn near few in
      let short = parse_packet-short input _ _ here in
      rw (handle_received_packet, short)
        (rw (handle_short_header_packet, here)
          (rw number
            (rw (drop-length head (images fs)) (rw (parse_and_handle_frames-images fs h) refl))))

-- The frame that sendStreamData hands to sendFrame.
abbrev pub stream_frame : ℕ → ℕ → Bytes → Bool → StreamFrame
stream_frame stream_id offset payload fin = record {
  stream_id = stream_id;
  offset = offset;
  payload = payload;
  fin = fin;
  data_len_present = true;
}

-- The packet `b` makes the receiver handle `n` bytes of the frame and a beginning of the others.
abbrev pub Arrives :
    {T : Type 0} → World T → ℕ → Connection T → ℕ → Bytes → StreamFrame → ℕ → List Frame → Type 0
Arrives v later r pn b f n waiting =
    (k : ℕ) × (handle_received_packet v later r b
      ≡ handle_frames v later (numbered r pn) (Frame.stream (cut_to f n) ∷ take k waiting))

module _ {S T : Type 0} (w : World S) (now : ℕ) (v : World T) (later : ℕ) where
  -- sendStreamData on any connection returns with a number `n` of bytes, and has written one packet or
  -- none. The packet makes the connection that gets it note its number, and handle first a STREAM
  -- frame of that stream with the first `n` bytes at that offset, then a beginning of the frames that
  -- waited, unchanged; without a packet, `n` is 0. (The identifiers are of one length, the packet
  -- number is at most 2 ^ 31 and less than 127 behind the largest one received, the stream, the
  -- offset and the data fit 62 bits, and so do the fields of the frames that wait, none of which is
  -- PADDING, and of which STREAM frames have a length and ACK frames a delay of whole milliseconds.)
  pub handle_received_packet-send_stream_data :
      (c : Connection S) (r : Connection T) (stream_id offset : ℕ) (payload : Bytes) (fin : Bool)
      → All IsPackable c.pending_frames
      → IsField stream_id
      → IsField offset
      → IsField (length payload)
      → length c.dest_conn_id ≡ length r.dest_conn_id
      → c.send_pn ≤ 2 ^ 31
      → r.largest_recv_pn + 1 < c.send_pn + 128
      → (d : Connection S) × (n : ℕ) × (send_stream_data w now c stream_id offset payload fin
          ≡ ok (d, n))
        × (((n ≡ 0) × (d.written ≡ c.written))
            ⊎ ((b : Bytes) × (d.written ≡ c.written ++ (b ∷ []))
                × Arrives v later r c.send_pn b
                    (stream_frame stream_id offset payload fin)
                    n
                    c.pending_frames))
  unfolding send_stream_data
  handle_received_packet-send_stream_data c r stream_id offset payload fin h i o size same few
        near =
      let f = stream_frame stream_id offset payload fin in
      let carried = send_frame-Carries w now c f refl h in
      elim (Result-cases (send_frame w now c (Frame.stream f))) [
        | inl (s, e) ↦ (
          s.conn,
          if s.was_sent then payload_len s.frame else 0,
          rw e refl,
          elim (subst (Carries w now c f) e carried) [
            | inl (unsent, unwritten) ↦ inl (rw unsent refl, unwritten)
            | inr (n, k, head, made, sent, reported, cut, written) ↦
                let g = Frame.stream (cut_to f n) in
                let count : (if s.was_sent then payload_len s.frame else 0) ≡ n =
                  rw sent reported in
                let fits : IsField (length (take n payload)) =
                  omega (arith, length-take n payload) in
                inr (
                  head ++ images (g ∷ take k c.pending_frames),
                  written,
                  subst
                      (λ (x : ℕ).
                        Arrives v later r c.send_pn (head ++ images (g ∷ take k c.pending_frames)) f
                          x c.pending_frames)
                      (sym count)
                      (
                        k,
                        handle_received_packet-images v later r c.dest_conn_id head c.send_pn
                            (g ∷ take k c.pending_frames) made same few near
                            (((i, o, fits), refl), All-take IsPackable k c.pending_frames h),
                      ),
                )
          ],
        )
        | inr (inl (x, e)) ↦ absurd (subst (Carries w now c f) e carried)
        | inr (inr e) ↦ absurd (subst (Carries w now c f) e carried)
      ]
