-- ===== src/Connection/Closing/Timeouts.antt =====
-- The probe timeout, and what closing sends.
use quic_test.Prelude.{
  ℕ, ◌+◌, ◌^◌, ◌<◌, ◌≡◌, refl, ◌⊎◌, inl, inr, true, ◌&&◌, not, List, ◌==◌, if◌then◌else◌, if-cases,
  Option-cases, length, Bytes, sub64, lt_int64, le_int64, Result, ok,
}
use quic_test.Congestion.Rtt.{pto}
use quic_test.Connection.State.{World, Connection}
use quic_test.Connection.Loss.Settled.{
  Settled, Waiting, queue_lost-Waiting, flush_retransmit_queue-Settled,
}
use quic_test.Connection.Sending.{send_frame}
use quic_test.Connection.Closing.{close_streams, close_with_error, probe, check_pto, no_response}

module _ {S : Type 0} (w : World S) (now : ℕ) where
  -- What a call of CloseWithError comes to.
  abbrev pub Silent : Connection S → ℕ → Bytes → Result (Connection S) → Type 0
  Silent c code reason r =
      (d : Connection S) × (r ≡ ok d)
      × (d.written ≡ c.written)
      × (d.send_pn ≡ c.send_pn)
      × (d.history ≡ c.history)
      × (d.congestion ≡ c.congestion)
      × (d.close_once ≡ true)
      × ((c.close_once ≡ true) ⊎ ((d.closed ≡ true) × (d.streams ≡ close_streams c.streams)))
      × (close_with_error w now d code reason ≡ ok d)

  -- CloseWithError marks the connection closed before it calls sendFrame, which refuses every frame
  -- then: on any connection it returns without a packet, and nothing is written to the peer, tracked or
  -- counted. The first call closes the connection and every stream; a later one changes nothing.
  pub close_with_error-Silent :
      (c : Connection S) (code : ℕ) (reason : Bytes)
      → Silent c code reason (close_with_error w now c code reason)
  unfolding close_with_error send_frame
  close_with_error-Silent c code reason =
      if-cases (λ (r : Result (Connection S)). Silent c code reason r) c.close_once
        (λ t. (c, refl, refl, refl, refl, refl, t, inl t, rw t refl))
        (λ t. (_, refl, refl, refl, refl, refl, refl, inr (refl, refl), refl))

  pub close_with_error-Settled :
      (c : Connection S) (code : ℕ) (reason : Bytes)
      → Settled w c
      → (d : Connection S) × (close_with_error w now c code reason ≡ ok d) × Settled w d
  unfolding close_with_error send_frame
  close_with_error-Settled c code reason h =
      let a = h.account in
      if-cases (λ (r : Result (Connection S)). (d : Connection S) × (r ≡ ok d) × Settled w d)
        c.close_once (λ t. (c, refl, h))
        (λ t. (
          _,
          refl,
          record {
            account = record {
              keys = a.keys;
              next = a.next;
              numbers = a.numbers;
              packets = a.packets;
              flight = a.flight;
              conn_id = a.conn_id;
              sized = a.sized;
            };
            empty = h.empty;
          },
        ))

  probe-Waiting :
      (c : Connection S) → Settled w c → Waiting w now c.send_pn (length c.history) (probe w now c)
  unfolding probe
  probe-Waiting c h =
      let lost =
        queue_lost-Waiting w now c.send_pn c (λ p. not p.is_retransmit) (λ s p. s)
          (w.cc.on_packet_needs_retransmit c.congestion now) (λ s p. refl)
          (w.cc.flight-needs_retransmit c.congestion now) h.account h.empty in
      let a = lost.account in
      record {
        account = record {
          keys = a.keys;
          next = a.next;
          numbers = a.numbers;
          packets = a.packets;
          flight = a.flight;
          conn_id = a.conn_id;
          sized = a.sized;
        };
        waiting = lost.waiting;
        fewer = lost.fewer;
      }

  -- From a settled state, with fewer packets than numbers left, checkPTO returns a settled state again,
  -- where WriteTo takes every datagram: whether it finds nothing to do, closes the connection, or sends
  -- what was lost once more.
  pub check_pto-Settled :
      (always : (ds : List Bytes) (d : Bytes) → w.write_ok ds d ≡ true) (c : Connection S)
      → Settled w c
      → c.send_pn + length c.history < 2 ^ 64
      → (d : Connection S) × (check_pto w now c ≡ ok d) × Settled w d
  unfolding check_pto
  check_pto-Settled always c h small =
      let P = λ (r : Result (Connection S)). (d : Connection S) × (r ≡ ok d) × Settled w d in
      let flushed =
        flush_retransmit_queue-Settled w now always c.send_pn (length c.history) (probe w now c)
          (probe-Waiting c h) small in
      let none_due : P (ok c) = (c, refl, h) in
      let computed = pto c.rtt_stats in
      let timeout : ℕ = if lt_int64 computed 200000000 then 200000000 else computed in
      elim (Option-cases c.last_recv_ack_time) [
        | inl e ↦ rw (e, check_pto) none_due
        | inr (last, e) ↦
            rw (e, check_pto)
              (if-cases P ((length c.history == 0) && (c.pto_count == 0)) (λ t. none_due)
                (λ t.
                  if-cases P (lt_int64 (sub64 now last) timeout) (λ t. none_due)
                    (λ t.
                      if-cases P (le_int64 5 c.pto_count)
                        (λ t. close_with_error-Settled c 1 (no_response w now) h) (λ t. flushed))))
      ]
