-- ===== src/Connection/Loss/Flight.antt =====
-- The account of the bytes in flight against the history of sent packets.
use quic_test.Prelude.{
  ℕ, zero, suc, ◌%◌, ◌^◌, ◌≤◌, ◌≡◌, refl, sym, ap, ◌∙◌, inl, inr, false, some, List, [], ◌∷◌, arith,
  if-cases, Option-cases, length, All, add64,
}
use quic_test.Wire.Ack.{AckRange}
use quic_test.Wire.Writable.{Appends}
use quic_test.Connection.State.{World, SentPacket, Connection, find_packet, lookup, mark_acked}
use quic_test.Connection.Loss.{rounds_of, ack_packet, ack_numbers, ack_ranges, measure_rtt}
use quic_test.Connection.Loss.History.{
  pns, outstanding, Ascending, Consistent, Ascending-mark, pns-mark, outstanding-mark,
  Consistent-mark,
}

-- The frames that wait can be written, and a packet is at most 1449 bytes long, so that it fits its
-- array also with a longer number.
abbrev pub IsSized : {S : Type 0} → Connection S → Type 0
IsSized c = All Appends c.pending_frames × (1200 ≤ c.max_packet_size) × (c.max_packet_size ≤ 1449)

-- `q` are the numbers that wait for retransmission.
pub record Accounted {S : Type 0} (w : World S) (q : List ℕ) (sent : ℕ) (c : Connection S)
    : Type 0 where
  -- sendPacketMap has the packets of the history, which stand in the order of their numbers.
  pub keys : c.tracked ≡ pns c.history
  pub next : c.send_pn ≡ sent
  pub numbers : Ascending 0 c.history sent
  pub packets : All (Consistent q) c.history
  pub flight : w.cc.bytes_in_flight c.congestion ≡ outstanding c.history % 2 ^ 64
  pub conn_id : length c.dest_conn_id ≤ 20
  pub sized : IsSized c

module _ {S : Type 0} (w : World S) (now sent : ℕ) where
  -- What the operations up to the retransmission keep.
  pub record Idle (most : ℕ) (c : Connection S) : Type 0 where
    pub account : Accounted w [] sent c
    pub empty : c.retransmit_queue ≡ []
    pub fewer : length c.history ≤ most

  length-mark : (n : ℕ) (ps : List SentPacket) → length (mark_acked n ps) ≡ length ps
  length-mark n [] = refl
  length-mark n (p ∷ ps) = ap suc (length-mark n ps)

  abbrev acked_by : Connection S → ℕ → SentPacket → Connection S
  acked_by c n p = record c {
    congestion = (w.cc.on_packet_acked c.congestion p.data_len p.pn now).0;
    history = mark_acked n c.history;
  }

  acked_by-Idle :
      (most : ℕ) (c : Connection S) (n : ℕ) (p : SentPacket)
      → find_packet n c.history ≡ some p
      → p.acked ≡ false
      → Idle most c
      → Idle most (acked_by c n p)
  acked_by-Idle most c n p e u idle =
      let a = idle.account in
      let (less, bound) = outstanding-mark n 0 c.history sent p a.numbers a.packets e u in
      record {
        account = record {
          keys = a.keys ∙ sym (pns-mark n c.history);
          next = a.next;
          numbers = Ascending-mark n 0 c.history sent a.numbers;
          packets = Consistent-mark n [] c.history a.packets;
          flight =
              w.cc.flight-acked c.congestion p.data_len p.pn now
              ∙ ground (arith, a.flight, less, bound);
          conn_id = a.conn_id;
          sized = a.sized;
        };
        empty = idle.empty;
        fewer = ground (arith, length-mark n c.history, idle.fewer);
      }

  ack_packet-Idle :
      (most : ℕ) (c : Connection S) (n : ℕ) → Idle most c → Idle most (ack_packet w now c n)
  unfolding ack_packet
  ack_packet-Idle most c n idle = elim (Option-cases (lookup c.tracked c.history n)) [
    | inl e ↦ rw (e, ack_packet) idle
    | inr (p, e) ↦
        rw (e, ack_packet)
          (if-cases (λ (t : Connection S). Idle most t) p.acked (λ u. idle)
            (λ u. acked_by-Idle most c n p (ground arith) u idle))
  ]

  ack_numbers-Idle :
      (most rounds n : ℕ) (c : Connection S)
      → Idle most c
      → Idle most (ack_numbers w now rounds n c)
  unfolding ack_numbers
  ack_numbers-Idle most zero n c idle = idle
  ack_numbers-Idle most (suc rounds) n c idle =
      ack_numbers-Idle most rounds (add64 n 1) (ack_packet w now c n)
        (ack_packet-Idle most c n idle)

  pub ack_ranges-Idle :
      (most : ℕ) (rs : List AckRange) (c : Connection S)
      → Idle most c
      → Idle most (ack_ranges w now rs c)
  unfolding ack_ranges
  ack_ranges-Idle most [] c idle = idle
  ack_ranges-Idle most (r ∷ rs) c idle =
      ack_ranges-Idle most rs (ack_numbers w now (rounds_of r) r.smallest c)
        (ack_numbers-Idle most (rounds_of r) r.smallest c idle)

  pub measure_rtt-Idle :
      (most : ℕ) (c : Connection S) (largest delay : ℕ)
      → Idle most c
      → Idle most (measure_rtt w now c largest delay)
  unfolding measure_rtt
  measure_rtt-Idle most c largest delay idle =
      elim (Option-cases (lookup c.tracked c.history largest)) [
        | inl e ↦ rw (e, measure_rtt) idle
        | inr (p, e) ↦
            rw (e, measure_rtt)
              (record {
                account = record {
                  keys = idle.account.keys;
                  next = idle.account.next;
                  numbers = idle.account.numbers;
                  packets = idle.account.packets;
                  flight = idle.account.flight;
                  conn_id = idle.account.conn_id;
                  sized = idle.account.sized;
                };
                empty = idle.empty;
                fewer = idle.fewer;
              })
      ]
