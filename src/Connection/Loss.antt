-- ===== src/Connection/Loss.antt =====
-- conn.go: handleAckFrame, the detection of lost packets, and their retransmission under new numbers.
pub mod History
pub mod Loops
pub mod Flight
pub mod Settled
pub mod Acks
pub mod Retransmission
use quic_test.Prelude.{
  ℕ, zero, suc, ◌+◌, ◌-◌, bit_and, Bool, true, ◌&&◌, ◌||◌, not, none, some, List, [], ◌∷◌, ◌++◌,
  ltb, if◌then◌else◌, length, take, drop, Bytes, u64, add64, sub64, lt_int64, le_int64, Result, ok,
  panics, ◌>>=◌, map_ok,
}
use quic_test.Varint.{at}
use quic_test.Protocol.PacketNumber.{packet_number_length_for_header}
use quic_test.Wire.Ack.{AckRange, AckFrame, range_len}
use quic_test.Wire.Header.{append_short_header}
use quic_test.Congestion.Rtt.{update_rtt, loss_delay}
use quic_test.Connection.State.{
  World, SentPacket, Connection, max_packet_buffer_size, new_sent_packet, larger_int64, member,
  find_packet, lookup, mark_acked, acknowledge, take_number, track, written_to,
  compact_sent_history,
}

-- A short header with the next number.
abbrev pub short_header : Bytes → ℕ → Result Bytes
short_header conn_id pn = append_short_header [] conn_id pn (packet_number_length_for_header pn 0)

-- What the old packet carries behind its header; the slice panics when the packet was longer than the
-- array that keeps it.
unfoldable pub old_payload : Bytes → SentPacket → Result Bytes
old_payload conn_id p =
    let old = 1 + length conn_id + packet_number_length_for_header p.pn 0 in
    if ltb old p.data_len
    then if ltb max_packet_buffer_size p.data_len
      then panics
      else ok (take (p.data_len - old) (drop old p.buf))
    else ok []

abbrev pub is_long : SentPacket → Bool
is_long p = ltb 0 p.data_len && ltb 0 (bit_and (at p.buf 0) 0x80)

-- A loop over the history: it queues the packets that the test holds for, unless they are acknowledged
-- or were queued before. The history, what is added to the queue, and the congestion controller.
module _ {S : Type 0} (w : World S) (test : SentPacket → Bool) (on_lost : S → SentPacket → S) where
  abbrev pub is_queued : SentPacket → Bool
  is_queued p = not (p.acked || p.retransmitted) && test p

  abbrev pub after_queued : S → SentPacket → S
  after_queued s p =
      if p.lost then on_lost s p else w.cc.on_packet_discarded (on_lost s p) p.data_len

  unfoldable pub queue_lost : List SentPacket → S → List SentPacket × List SentPacket × S
  queue_lost [] s = ([], [], s)
  queue_lost (p ∷ ps) s =
      let queued = queue_lost ps (after_queued s p) in
      let kept = queue_lost ps s in
      if is_queued p
      then (
        record p { retransmitted = true; lost = true } ∷ queued.0,
        record p { retransmitted = true } ∷ queued.1,
        queued.2,
      )
      else (p ∷ kept.0, kept.1, kept.2)

-- A range up to 2 ^ 63 - 1, where the loop of the source does not end, has as many rounds as numbers.
unfoldable pub rounds_of : AckRange → ℕ
unfolding range_len
rounds_of r = if le_int64 r.smallest r.largest then range_len r else 0

module _ {S : Type 0} (w : World S) (now : ℕ) where
  -- The packet went out again: the new one is tracked, and the old one counts as acknowledged.
  unfoldable pub resent : Connection S → SentPacket → Bytes → Connection S
  resent c p b =
      let sent =
        track (record c { congestion = w.cc.on_packet_sent c.congestion (u64 (length b)) })
          (new_sent_packet c.send_pn b now true true) in
      record (take_number (written_to sent b)) {
        history = acknowledge sent.tracked p.pn sent.history;
      }

  -- One round of the loop of flushRetransmitQueue, with what it adds to `remaining`.
  unfoldable pub retransmit : Connection S → SentPacket → Result (Connection S × List SentPacket)
  unfolding old_payload resent
  retransmit c0 p =
      let c : Connection S = record c0 {
        congestion = (w.cc.can_send c0.congestion p.data_len now).0;
      } in
      if is_long p then ok (record c { history = acknowledge c.tracked p.pn c.history }, []) else do
        payload ← old_payload c.dest_conn_id p
        head ← short_header c.dest_conn_id c.send_pn
        let b = head ++ payload
        ok (
            if w.write_ok c.written b
            then (resent c p b, [])
            else (written_to (take_number c) b, p ∷ []))

  unfoldable pub retransmit_all :
      List SentPacket → Connection S → Result (Connection S × List SentPacket)
  unfolding retransmit
  retransmit_all [] c = ok (c, [])
  retransmit_all (p ∷ ps) c = do
    (c1, left) ← retransmit c p
    (c2, rest) ← retransmit_all ps c1
    ok (c2, left ++ rest)

  unfoldable pub flush_retransmit_queue : Connection S → Result (Connection S)
  unfolding retransmit_all
  flush_retransmit_queue c =
      map_ok (λ r. record r.0 { retransmit_queue = r.1 }) (retransmit_all c.retransmit_queue c)

  unfoldable pub ack_packet : Connection S → ℕ → Connection S
  ack_packet c n = elim (lookup c.tracked c.history n) [
    | none ↦ c
    | some p ↦ if p.acked then c else record c {
      congestion = (w.cc.on_packet_acked c.congestion p.data_len p.pn now).0;
      history = mark_acked n c.history;
    }
  ]

  -- `for pn := ar.Smallest; pn <= ar.Largest; pn++`, of so many rounds.
  unfoldable pub ack_numbers : ℕ → ℕ → Connection S → Connection S
  unfolding ack_packet
  ack_numbers zero n c = c
  ack_numbers (suc rounds) n c = ack_numbers rounds (add64 n 1) (ack_packet c n)

  unfoldable pub ack_ranges : List AckRange → Connection S → Connection S
  unfolding rounds_of ack_numbers
  ack_ranges [] c = c
  ack_ranges (r ∷ rs) c = ack_ranges rs (ack_numbers (rounds_of r) r.smallest c)

  -- The round trip time is measured by the largest packet, if it is tracked.
  unfoldable pub measure_rtt : Connection S → ℕ → ℕ → Connection S
  unfolding update_rtt
  measure_rtt c largest_acked delay_time = elim (lookup c.tracked c.history largest_acked) [
    | none ↦ c
    | some p ↦ record c { rtt_stats = update_rtt c.rtt_stats (sub64 now p.time) delay_time }
  ]

  abbrev pub is_late : ℕ → SentPacket → Bool
  is_late delay p = p.is_ack_eliciting && lt_int64 delay (sub64 now p.time)

  unfoldable pub detect_losses : Connection S → Connection S
  unfolding queue_lost loss_delay
  detect_losses c =
      let (history, queued, s) =
        queue_lost w (is_late (loss_delay w.nine_eighths c.rtt_stats))
          (λ s p. w.cc.on_packet_lost s p.pn now) c.history c.congestion in
      record c {
        history = history;
        retransmit_queue = c.retransmit_queue ++ queued;
        congestion = s;
      }

  -- Up to the unlocking of historyMu, for the first range of the frame.
  unfoldable pub process_ack : AckFrame → AckRange → Connection S → Connection S
  unfolding measure_rtt ack_ranges detect_losses compact_sent_history
  process_ack f r c =
      let c1 : Connection S = record c {
        last_recv_ack_time = some now;
        pto_count = 0;
        largest_acked_pn = larger_int64 c.largest_acked_pn r.largest;
      } in
      compact_sent_history
        (detect_losses (ack_ranges f.ack_ranges (measure_rtt c1 r.largest f.delay_time)))

  -- The index of the first range panics when there is none.
  unfoldable pub handle_ack_frame : Connection S → AckFrame → Result (Connection S)
  unfolding process_ack flush_retransmit_queue
  handle_ack_frame c f = elim f.ack_ranges [
    | [] ↦ panics
    | r ∷ rs ↦ flush_retransmit_queue (process_ack f r c)
  ]
