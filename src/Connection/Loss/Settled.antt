-- ===== src/Connection/Loss/Settled.antt =====
-- The state of a connection between two operations.
use quic_test.Prelude.{
  ℕ, ◌+◌, ◌^◌, ◌≤◌, ◌<◌, ◌≡◌, refl, sym, ap, ◌∙◌, subst, Bool, true, some, List, [], ◌∷◌, ◌++◌,
  arith, length, Bytes, Result, ok, panics,
}
use quic_test.Wire.Ack.{AckRange, AckFrame}
use quic_test.Congestion.Rtt.{loss_delay}
use quic_test.Connection.State.{World, SentPacket, Connection, compact_sent_history, larger_int64}
use quic_test.Connection.Loss.{
  detect_losses, queue_lost, is_late, flush_retransmit_queue, process_ack, handle_ack_frame,
}
use quic_test.Connection.Loss.History.{pns}
use quic_test.Connection.Loss.Loops.{
  Within, queue_lost-Queued, Ascending-compact, Consistent-compact, outstanding-compact,
  compact_keys-pns,
}
use quic_test.Connection.Loss.Flight.{Accounted, Idle, ack_ranges-Idle, measure_rtt-Idle}
use quic_test.Connection.Loss.Acks.{retransmit_all-Accounted}

-- The map has the packets of the history, in the order of their numbers, which are below the next
-- one. Every packet that was lost counts as acknowledged, nothing waits for retransmission, each
-- packet fits the array that keeps it, and the bytes in flight are those of the packets that are not
-- acknowledged.
pub record Settled {S : Type 0} (w : World S) (c : Connection S) : Type 0 where
  pub account : Accounted w [] c.send_pn c
  pub empty : c.retransmit_queue ≡ []

pub settled_at :
    {S : Type 0} (w : World S) (sent : ℕ) (c : Connection S)
    → Accounted w [] sent c
    → c.retransmit_queue ≡ []
    → Settled w c
settled_at w sent c a e = record {
  account = subst (λ (n : ℕ). Accounted w [] n c) (sym a.next) a;
  empty = e;
}

module _ {S : Type 0} (w : World S) (now : ℕ) where
  pub record Waiting (sent most : ℕ) (c : Connection S) : Type 0 where
    pub account : Accounted w (pns c.retransmit_queue) sent c
    pub waiting : Within 0 sent c.retransmit_queue
    pub fewer : length c.retransmit_queue ≤ most

  -- What both loops that queue packets leave.
  pub queue_lost-Waiting :
      (sent : ℕ) (c : Connection S) (test : SentPacket → Bool) (on_lost : S → SentPacket → S)
      (s : S)
      → ((t : S) (p : SentPacket) → w.cc.bytes_in_flight (on_lost t p) ≡ w.cc.bytes_in_flight t)
      → w.cc.bytes_in_flight s ≡ w.cc.bytes_in_flight c.congestion
      → Accounted w [] sent c
      → c.retransmit_queue ≡ []
      → let r = queue_lost w test on_lost c.history s in
        Waiting sent (length c.history) (record c {
          history = r.0;
          retransmit_queue = c.retransmit_queue ++ r.1;
          congestion = r.2;
        })
  queue_lost-Waiting sent c test on_lost s same e a empty =
      let q =
        queue_lost-Queued w test on_lost same 0 c.history sent s 0 a.numbers a.packets
          (omega (arith, e, a.flight)) in
      let r = queue_lost w test on_lost c.history s in
      let queue : c.retransmit_queue ++ r.1 ≡ r.1 = ap (λ (x : List SentPacket). x ++ r.1) empty in
      record {
        account = record {
          keys = a.keys ∙ sym q.numbers;
          next = a.next;
          numbers = q.ascending;
          packets = rw queue q.packets;
          flight = omega (arith, q.flight);
          conn_id = a.conn_id;
          sized = a.sized;
        };
        waiting = rw queue q.queue;
        fewer = rw queue q.most;
      }

  compact-Waiting :
      (sent most : ℕ) (c : Connection S)
      → Waiting sent most c
      → Waiting sent most (compact_sent_history c)
  unfolding compact_sent_history
  compact-Waiting sent most c h =
      let a = h.account in
      record {
        account = record {
          keys = rw a.keys (compact_keys-pns c.history sent a.numbers);
          next = a.next;
          numbers = Ascending-compact 0 c.history sent a.numbers;
          packets = Consistent-compact (pns c.retransmit_queue) c.history a.packets;
          flight = rw (outstanding-compact c.history) a.flight;
          conn_id = a.conn_id;
          sized = a.sized;
        };
        waiting = h.waiting;
        fewer = h.fewer;
      }

  settle :
      (c : Connection S) (sent : ℕ)
      → Accounted w [] sent c
      → Settled w (record c { retransmit_queue = [] })
  settle c sent a = record {
    account = record {
      keys = a.keys;
      next = refl;
      numbers = rw a.next a.numbers;
      packets = a.packets;
      flight = a.flight;
      conn_id = a.conn_id;
      sized = a.sized;
    };
    empty = refl;
  }

  module _ (always : (ds : List Bytes) (d : Bytes) → w.write_ok ds d ≡ true) where
    pub flush_retransmit_queue-Settled :
        (sent most : ℕ) (c : Connection S)
        → Waiting sent most c
        → sent + most < 2 ^ 64
        → (d : Connection S) × (flush_retransmit_queue w now c ≡ ok d) × Settled w d
    unfolding flush_retransmit_queue
    flush_retransmit_queue-Settled sent most c h small =
        let (d, later, e, a) =
          retransmit_all-Accounted w now always sent c c.retransmit_queue h.account h.waiting
            (omega (arith, h.fewer)) in
        (record d { retransmit_queue = [] }, rw e refl, settle d later a)

    detect_losses-Waiting :
        (sent most : ℕ) (c : Connection S)
        → Idle w now sent most c
        → Waiting sent (length c.history) (detect_losses w now c)
    unfolding detect_losses
    detect_losses-Waiting sent most c idle =
        queue_lost-Waiting sent c (is_late w now (loss_delay w.nine_eighths c.rtt_stats))
          (λ s p. w.cc.on_packet_lost s p.pn now) c.congestion (λ s p. w.cc.flight-lost s p.pn now)
          refl idle.account idle.empty

    pub handle_ack_frame-Settled :
        (c : Connection S) (f : AckFrame) (r : AckRange) (rs : List AckRange)
        → Settled w c
        → f.ack_ranges ≡ r ∷ rs
        → c.send_pn + length c.history < 2 ^ 64
        → (d : Connection S) × (handle_ack_frame w now c f ≡ ok d) × Settled w d
    unfolding handle_ack_frame process_ack
    handle_ack_frame-Settled c f r rs h e small =
        let most = length c.history in
        let start : Connection S = record c {
          last_recv_ack_time = some now;
          pto_count = 0;
          largest_acked_pn = larger_int64 c.largest_acked_pn r.largest;
        } in
        let a = h.account in
        let idle : Idle w now c.send_pn most start = record {
          account = record {
            keys = a.keys;
            next = a.next;
            numbers = a.numbers;
            packets = a.packets;
            flight = a.flight;
            conn_id = a.conn_id;
            sized = a.sized;
          };
          empty = h.empty;
          fewer = omega arith;
        } in
        let measured = measure_rtt-Idle w now c.send_pn most start r.largest f.delay_time idle in
        let acked = ack_ranges-Idle w now c.send_pn most f.ack_ranges _ measured in
        let lost = detect_losses-Waiting c.send_pn most _ acked in
        let (d, done, settled) =
          flush_retransmit_queue-Settled c.send_pn _ _ (compact-Waiting c.send_pn _ _ lost)
            (omega (arith, acked.fewer)) in
        (
          d,
          ap
                (λ (ranges : List AckRange). elim ranges as (λ _. Result (Connection S)) [
                  | [] ↦ panics
                  | x ∷ xs ↦ flush_retransmit_queue w now (process_ack w now f x c)
                ])
                e
              ∙ done,
          settled,
        )
