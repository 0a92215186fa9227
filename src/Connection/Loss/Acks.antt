-- ===== src/Connection/Loss/Acks.antt =====
-- handleAckFrame and flushRetransmitQueue, and the account of the packets in flight.
use quic_test.Prelude.{
  ℕ, ◌+◌, ◌-◌, ◌^◌, ◌≤◌, ◌<◌, ◌≡◌, refl, ◌∙◌, inl, inr, true, List, [], ◌∷◌, ◌++◌, arith,
  Bool-cases, length, length-append, Bytes, u64, ok,
}
use quic_test.Protocol.PacketNumber.{packet_number_length_for_header}
use quic_test.Wire.Header.Short.{length_for_header_bounds}
use quic_test.Connection.State.{
  World, SentPacket, Connection, new_sent_packet, acknowledge, take_number, track, written_to,
}
use quic_test.Connection.Loss.{retransmit, retransmit_all, resent, is_long}
use quic_test.Connection.Loss.History.{pns, Fits}
use quic_test.Connection.Loss.Loops.{Within}
use quic_test.Connection.Loss.Flight.{Accounted}
use quic_test.Connection.Loss.Retransmission.{
  short_header_lem, old_payload_lem, Below, Below-Within, Within-weaken_hi, acknowledged,
  tracked_more,
}

resent_size :
    (conn_id : Bytes) (pn : ℕ) (p : SentPacket) (head payload : Bytes)
    → Fits p
    → length conn_id ≤ 20
    → length head ≡ 1 + length conn_id + packet_number_length_for_header pn 0
    → length payload ≤ p.data_len - (1 + length conn_id + packet_number_length_for_header p.pn 0)
    → (length (head ++ payload) ≤ 1452)
      × (length (head ++ payload) + 4 ≤ 1452 + packet_number_length_for_header pn 0)
resent_size conn_id pn p head payload f short e l =
    let bounds = length_for_header_bounds pn 0 in
    (omega (arith, length-append head payload), omega (arith, length-append head payload))

module _ {S : Type 0} (w : World S) (now : ℕ) where
  -- A round of flushRetransmitQueue, where WriteTo takes every datagram.
  abbrev Resent : List ℕ → ℕ → Connection S → SentPacket → Type 0
  Resent q sent c p =
      (d : Connection S) × (later : ℕ) × (retransmit w now c p ≡ ok (d, []))
      × Accounted w q later d
      × (sent ≤ later)
      × (later ≤ sent + 1)

  asked :
      (q : List ℕ) (sent size : ℕ) (c : Connection S)
      → Accounted w q sent c
      → Accounted w q sent (record c { congestion = (w.cc.can_send c.congestion size now).0 })
  asked q sent size c a = record {
    keys = a.keys;
    next = a.next;
    numbers = a.numbers;
    packets = a.packets;
    flight = w.cc.flight-can_send c.congestion size now ∙ a.flight;
    conn_id = a.conn_id;
    sized = a.sized;
  }

  -- The new packet stands for the old one.
  resent-Accounted :
      (q : List ℕ) (sent : ℕ) (c : Connection S) (p : SentPacket) (b : Bytes)
      → Accounted w (p.pn ∷ q) sent c
      → p.pn < sent
      → Below sent q
      → sent + 1 < 2 ^ 64
      → (length b ≤ 1452) × (length b + 4 ≤ 1452 + packet_number_length_for_header c.send_pn 0)
      → Accounted w q (sent + 1) (resent w now c p b)
  unfolding resent new_sent_packet
  resent-Accounted q sent c p b a l below small (fits, grown) =
      let fresh = new_sent_packet c.send_pn b now true true in
      let size : u64 (length b) ≡ length b = omega arith in
      let counted : Connection S =
        track (record c { congestion = w.cc.on_packet_sent c.congestion (u64 (length b)) }) fresh in
      acknowledged w now q (sent + 1) (take_number (written_to counted b)) p.pn (
        tracked_more w now (p.pn ∷ q) sent c b fresh a.next refl refl refl (rw size (fits, grown))
          (l, below) small _ refl refl refl refl refl a.sized a)

  module _ (always : (ds : List Bytes) (d : Bytes) → w.write_ok ds d ≡ true) where
    retransmit-Resent :
        (q : List ℕ) (sent : ℕ) (c : Connection S) (p : SentPacket)
        → Accounted w (p.pn ∷ q) sent c
        → p.pn < sent
        → Fits p
        → Below sent q
        → sent + 1 < 2 ^ 64
        → Resent q sent c p
    unfolding retransmit
    retransmit-Resent q sent c0 p a0 l f below small =
        let c : Connection S = record c0 {
          congestion = (w.cc.can_send c0.congestion p.data_len now).0;
        } in
        let a = asked (p.pn ∷ q) sent p.data_len c0 a0 in
        elim (Bool-cases (is_long p)) [
          | inl t ↦ (
            record c { history = acknowledge c.tracked p.pn c.history },
            sent,
            rw t refl,
            acknowledged w now q sent c p.pn a,
            omega arith,
            omega arith,
          )
          | inr t ↦
              let (payload, read, size) = old_payload_lem c.dest_conn_id p f in
              let (head, made, head_size) = short_header_lem c.dest_conn_id c.send_pn in
              let b = head ++ payload in
              (
                resent w now c p b,
                sent + 1,
                rw t (rw (read, made) (rw (always c.written b) refl)),
                resent-Accounted q sent c p b a l below small (
                    resent_size c.dest_conn_id c.send_pn p head payload f a.conn_id head_size size),
                omega arith,
                omega arith,
              )
        ]

    -- The whole queue.
    pub retransmit_all-Accounted :
        (sent : ℕ) (c : Connection S) (ps : List SentPacket)
        → Accounted w (pns ps) sent c
        → Within 0 sent ps
        → sent + length ps < 2 ^ 64
        → (d : Connection S) × (later : ℕ) × (retransmit_all w now ps c ≡ ok (d, []))
          × Accounted w [] later d
    unfolding retransmit_all
    retransmit_all-Accounted sent c [] a b small = (c, sent, refl, a)
    retransmit_all-Accounted sent c (p ∷ ps) a (b, bs) small =
        let (d, later, e, a1, l, m) =
          retransmit-Resent (pns ps) sent c p a b.1 b.2 (Below-Within 0 sent ps bs) (omega arith) in
        let (d2, later2, e2, a2) =
          retransmit_all-Accounted later d ps a1 (Within-weaken_hi 0 sent later ps l bs)
            (omega arith) in
        (d2, later2, rw e (rw e2 refl), a2)
