-- ===== src/Connection/Runs.antt =====
-- The states that a connection reaches.
use quic_test.Prelude.{
  ℕ, ◌+◌, ◌^◌, ◌≤◌, ◌<◌, ◌≡◌, refl, sym, ◌∙◌, subst, Bool, true, List, arith, length, All, IsByte,
  Bytes, Result, ok, ok_injective,
}
use quic_test.Wire.Frame.{Frame}
use quic_test.Wire.Writable.{Appends}
use quic_test.Connection.State.{World, Connection}
use quic_test.Connection.Setup.{new_connection}
use quic_test.Connection.Sending.{send_stream_data, flush_pending_frames, queue_frame}
use quic_test.Connection.Closing.{close_with_error, check_pto}
use quic_test.Connection.Loss.Settled.{Settled}
use quic_test.Connection.Receive.Packets.{Lasts, handle_received_packet-Settles}
use quic_test.Connection.Receive.Unpacking.{unpack}
use quic_test.Connection.Receive.{
  handle_received_packet, receive_number, handle_frame, send_ack_if_needed,
}
use quic_test.Connection.Receive.Parsed.{IsParsed}
use quic_test.Connection.Receive.Handling.{handle_frame-Settles, send_ack_if_needed-Settles}
use quic_test.Connection.Receive.Core.{receive_number-Settled}
use quic_test.Connection.Sending.Streams.{
  queue_frame-Settled, send_stream_data-Settled, flush_pending_frames-Settled,
}
use quic_test.Connection.Closing.Timeouts.{check_pto-Settled, close_with_error-Settled}

module _ {S : Type 0} (w : World S) where
  -- The operations, each while packet numbers are left for what it may send.
  pub data Reached : Connection S → Type 0 where
    new :
        (s : S) (conn_id : Bytes)
        → w.cc.bytes_in_flight s ≡ 0
        → length conn_id ≤ 20
        → Reached (new_connection w s conn_id)
    streamed :
        {c d : Connection S} (now id offset : ℕ) (payload : Bytes) (fin : Bool) (n : ℕ)
        → c.send_pn + 1 < 2 ^ 64
        → send_stream_data w now c id offset payload fin ≡ ok (d, n)
        → Reached c
        → Reached d
    queued : {c : Connection S} (f : Frame) → Appends f → Reached c → Reached (queue_frame c f)
    flushed :
        {c d : Connection S} (now : ℕ)
        → c.send_pn + 1 < 2 ^ 64
        → flush_pending_frames w now c ≡ ok d
        → Reached c
        → Reached d
    timed :
        {c d : Connection S} (now : ℕ)
        → c.send_pn + length c.history < 2 ^ 64
        → check_pto w now c ≡ ok d
        → Reached c
        → Reached d
    handled :
        {c d : Connection S} (now : ℕ) (f : Frame)
        → IsParsed f
        → c.send_pn + length c.history + 2 < 2 ^ 64
        → handle_frame w now c f ≡ ok d
        → Reached c
        → Reached d
    received :
        {c d : Connection S} (now : ℕ) (input : Bytes)
        → All IsByte input
        → Lasts w now (unpack c input)
        → handle_received_packet w now c input ≡ ok d
        → Reached c
        → Reached d
    numbered :
        {c : Connection S} (len truncated : ℕ)
        → Reached c
        → Reached (receive_number c len truncated)
    answered :
        {c d : Connection S} (now : ℕ)
        → c.send_pn + 1 < 2 ^ 64
        → send_ack_if_needed w now c ≡ ok d
        → Reached c
        → Reached d
    closed :
        {c d : Connection S} (now code : ℕ) (reason : Bytes)
        → close_with_error w now c code reason ≡ ok d
        → Reached c
        → Reached d

  new_connection-Settled :
      (s : S) (conn_id : Bytes)
      → w.cc.bytes_in_flight s ≡ 0
      → length conn_id ≤ 20
      → Settled w (new_connection w s conn_id)
  unfolding new_connection
  new_connection-Settled s conn_id e short = record {
    account = record {
      keys = refl;
      next = refl;
      numbers = omega arith;
      packets = tt;
      flight = w.cc.flight-sent s 0 ∙ rw e refl;
      conn_id = short;
      sized = (tt, omega arith, omega arith);
    };
    empty = refl;
  }

  -- What holds of the state that an operation returns holds of the one that it is known to return.
  returned :
      {A : Type 0} (state : A → Connection S) (a b : A) (r : Result A)
      → r ≡ ok a
      → r ≡ ok b
      → Settled w (state a)
      → Settled w (state b)
  returned state a b r e f h =
      subst (λ (x : _). Settled w (state x)) (ok_injective a b (sym e ∙ f)) h

  pub Reached-Settled :
      (always : (ds : List Bytes) (d : Bytes) → w.write_ok ds d ≡ true) (c : Connection S)
      → Reached c
      → Settled w c
  Reached-Settled always _ (new s conn_id e short) = new_connection-Settled s conn_id e short
  Reached-Settled always d (streamed {c} now id offset payload fin n small e r) =
      let (d1, n1, e1, h, one, less) =
        send_stream_data-Settled w now c id offset payload fin (Reached-Settled always c r) small in
      returned (λ (x : Connection S × ℕ). x.0) (d1, n1) (d, n) _ e1 e h
  Reached-Settled always _ (queued {c} f a r) =
      queue_frame-Settled w c f a (Reached-Settled always c r)
  Reached-Settled always d (flushed {c} now small e r) =
      let (d1, e1, h, one, gone, same, still, next) =
        flush_pending_frames-Settled w now c (Reached-Settled always c r) small in
      returned (λ (x : Connection S). x) d1 d _ e1 e h
  Reached-Settled always d (timed {c} now small e r) =
      let (d1, e1, h) = check_pto-Settled w now always c (Reached-Settled always c r) small in
      returned (λ (x : Connection S). x) d1 d _ e1 e h
  Reached-Settled always d (handled {c} now f p small e r) =
      let (d1, e1, h) =
        handle_frame-Settles w now always c f p (Reached-Settled always c r) small in
      returned (λ (x : Connection S). x) d1 d _ e1 e h
  Reached-Settled always d (received {c} now input bytes last e r) =
      let (d1, e1, h) =
        handle_received_packet-Settles w now always c input bytes (Reached-Settled always c r)
          last in
      returned (λ (x : Connection S). x) d1 d _ e1 e h
  Reached-Settled always _ (numbered {c} len truncated r) =
      receive_number-Settled w c len truncated (Reached-Settled always c r)
  Reached-Settled always d (answered {c} now small e r) =
      let (d1, e1, h) = send_ack_if_needed-Settles w now c (Reached-Settled always c r) small in
      returned (λ (x : Connection S). x) d1 d _ e1 e h
  Reached-Settled always d (closed {c} now code reason e r) =
      let (d1, e1, h) = close_with_error-Settled w now c code reason (Reached-Settled always c r) in
      returned (λ (x : Connection S). x) d1 d _ e1 e h
