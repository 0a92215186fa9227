-- ===== src/Connection/Loss/Retransmission.antt =====
-- Acknowledgements, retransmission and the account of the bytes in flight.
use quic_test.Prelude.{
  ℕ, ◌+◌, ◌-◌, ◌%◌, ◌^◌, ◌≤◌, ◌<◌, bit_or, ◌≡◌, refl, sym, ap, ◌∙◌, inl, inr, false, List, [], ◌∷◌,
  ◌++◌, arith, ltb, Bool-cases, length, take, drop, All, length-append, length-take, All-append,
  Bytes, u8, u64, add64, ok,
}
use quic_test.Protocol.PacketNumber.{packet_number_length_for_header}
use quic_test.Protocol.PacketNumber.Encoding.{append_packet_number-encode}
use quic_test.Wire.Header.{append_short_header}
use quic_test.Wire.Header.Short.{length_for_header_bounds}
use quic_test.Connection.State.{World, SentPacket, Connection, member, mark_acked, acknowledge}
use quic_test.Connection.Loss.{short_header, old_payload}
use quic_test.Connection.Loss.History.{
  pns, Fits, Consistent, Ascending-mark, Ascending-append, pns-append, pns-mark, outstanding-append,
  outstanding-mark_lost, Consistent-mark_head, acknowledge-mark,
}
use quic_test.Connection.Loss.Loops.{Within}
use quic_test.Connection.Loss.Flight.{IsSized, Accounted}

pub short_header_lem :
    (conn_id : Bytes) (pn : ℕ)
    → (head : Bytes) × (short_header conn_id pn ≡ ok head)
      × (length head ≡ 1 + length conn_id + packet_number_length_for_header pn 0)
unfolding append_short_header
short_header_lem conn_id pn =
    let len = packet_number_length_for_header pn 0 in
    let (l, m) = length_for_header_bounds pn 0 in
    let prefix : Bytes = bit_or 0x40 (u8 (len + 255)) ∷ conn_id in
    let (bs, e, written, size, value) = append_packet_number-encode prefix pn len l m in
    (prefix ++ bs, written, ground (arith, size, length-append conn_id bs))

-- The payload of a packet that fits the array, and its size.
pub old_payload_lem :
    (conn_id : Bytes) (p : SentPacket)
    → Fits p
    → (b : Bytes) × (old_payload conn_id p ≡ ok b)
      × (length b ≤ p.data_len - (1 + length conn_id + packet_number_length_for_header p.pn 0))
unfolding old_payload
old_payload_lem conn_id p f =
    let old = 1 + length conn_id + packet_number_length_for_header p.pn 0 in
    elim (Bool-cases (ltb old p.data_len)) [
      | inl t ↦ (
        take (p.data_len - old) (drop old p.buf),
        rw t (ground arith),
        omega (arith, length-take (p.data_len - old) (drop old p.buf)),
      )
      | inr t ↦ ([], rw t refl, omega arith)
    ]

-- The numbers that wait are below the next one.
abbrev pub Below : ℕ → List ℕ → Type 0
Below sent q = All (λ n. n < sent) q

member-Below : (sent : ℕ) (q : List ℕ) → Below sent q → member sent q ≡ false
member-Below sent [] h = refl
member-Below sent (n ∷ q) (b, h) = ground (arith, member-Below sent q h)

pub Below-Within : (lo sent : ℕ) (q : List SentPacket) → Within lo sent q → Below sent (pns q)
Below-Within lo sent [] h = tt
Below-Within lo sent (p ∷ q) (b, h) = (b.1, Below-Within lo sent q h)

pub Within-weaken_hi :
    (lo sent later : ℕ) (q : List SentPacket) → sent ≤ later → Within lo sent q → Within lo later q
Within-weaken_hi lo sent later [] l h = tt
Within-weaken_hi lo sent later (p ∷ q) l (b, h) =
    ((b.0, omega arith, b.2), Within-weaken_hi lo sent later q l h)

module _ {S : Type 0} (w : World S) (now : ℕ) where
  -- The packet that waits counts as acknowledged, without a new one.
  pub acknowledged :
      (q : List ℕ) (sent : ℕ) (c : Connection S) (n : ℕ)
      → Accounted w (n ∷ q) sent c
      → Accounted w q sent (record c { history = acknowledge c.tracked n c.history })
  acknowledged q sent c n a =
      let e : acknowledge c.tracked n c.history ≡ mark_acked n c.history =
        rw a.keys (acknowledge-mark n c.history) in
      record {
        keys = rw e (a.keys ∙ sym (pns-mark n c.history));
        next = a.next;
        numbers = rw e (Ascending-mark n 0 c.history sent a.numbers);
        packets = rw e (Consistent-mark_head n q c.history a.packets);
        flight =
            a.flight
            ∙ ap (λ x. x % 2 ^ 64) (rw e (sym (outstanding-mark_lost n q c.history a.packets)));
        conn_id = a.conn_id;
        sized = a.sized;
      }

  -- A packet with the next number is tracked, and its bytes are counted.
  pub tracked_more :
      (q : List ℕ) (sent : ℕ) (c : Connection S) (b : Bytes) (p : SentPacket)
      → p.pn ≡ sent
      → p.acked ≡ false
      → p.lost ≡ false
      → p.data_len ≡ u64 (length b)
      → Fits p
      → Below sent q
      → sent + 1 < 2 ^ 64
      → (d : Connection S) → d.history ≡ c.history ++ (p ∷ [])
      → d.tracked ≡ c.tracked ++ (p.pn ∷ [])
      → d.congestion ≡ w.cc.on_packet_sent c.congestion (u64 (length b))
      → d.send_pn ≡ add64 c.send_pn 1
      → d.dest_conn_id ≡ c.dest_conn_id
      → IsSized d
      → Accounted w q sent c
      → Accounted w q (sent + 1) d
  tracked_more q sent c b p en ea el size fits below small d eh et ec es ed sized a = record {
    keys = et ∙ rw (eh, a.keys) (sym (pns-append c.history p));
    next = es ∙ rw a.next (omega arith);
    numbers = rw eh (Ascending-append 0 c.history sent p en a.numbers);
    packets = rw eh (
        All-append (Consistent q) c.history (p ∷ []) a.packets
          ((fits, inr (el ∙ rw en (sym (member-Below sent q below)))), tt));
    flight = rw ec (
        w.cc.flight-sent c.congestion (u64 (length b))
        ∙ rw eh (ground (arith, a.flight, outstanding-append c.history p)));
    conn_id = rw ed a.conn_id;
    sized = sized;
  }
