-- ===== src/Connection/Receive/Core.antt =====
-- conn.go: the part of a connection that the account of the packets in flight is about.
use quic_test.Prelude.{ℕ, ◌≡◌, refl, ap, ◌∙◌, true, List, Bytes}
use quic_test.Wire.Frame.{Frame}
use quic_test.Connection.State.{World, Connection, SentPacket}
use quic_test.Connection.Loss.Settled.{Settled}
use quic_test.Connection.Receive.{receive_number, record_received_packet}

-- What the account of the packets in flight is about.
abbrev pub Core : Type 0 → Type 0
Core S = List ℕ × ℕ × List SentPacket × S × Bytes × List Frame × ℕ × List SentPacket

abbrev pub core : {S : Type 0} → Connection S → Core S
core c = (
  c.tracked, c.send_pn, c.history, c.congestion, c.dest_conn_id, c.pending_frames,
  c.max_packet_size, c.retransmit_queue,
)

module _ {S : Type 0} (w : World S) where
  pub Settled-core : (c d : Connection S) → core d ≡ core c → Settled w c → Settled w d
  Settled-core c d e h =
      let a = h.account in
      let tracked : d.tracked ≡ c.tracked = ap (λ (t : Core S). t.0) e in
      let sent : d.send_pn ≡ c.send_pn = ap (λ (t : Core S). t.1) e in
      let history : d.history ≡ c.history = ap (λ (t : Core S). t.2) e in
      let congestion : d.congestion ≡ c.congestion = ap (λ (t : Core S). t.3) e in
      let conn_id : d.dest_conn_id ≡ c.dest_conn_id = ap (λ (t : Core S). t.4) e in
      let frames : d.pending_frames ≡ c.pending_frames = ap (λ (t : Core S). t.5) e in
      let size : d.max_packet_size ≡ c.max_packet_size = ap (λ (t : Core S). t.6) e in
      record {
        account = record {
          keys = rw (tracked, history) a.keys;
          next = refl;
          numbers = rw (sent, history) a.numbers;
          packets = rw history a.packets;
          flight = rw (congestion, history) a.flight;
          conn_id = rw conn_id a.conn_id;
          sized = rw (frames, size) a.sized;
        };
        empty = ap (λ (t : Core S). t.7) e ∙ h.empty;
      }

  -- A packet number that came in is only noted.
  pub receive_number-Settled :
      (c : Connection S) (len truncated : ℕ)
      → Settled w c
      → Settled w (receive_number c len truncated)
  unfolding record_received_packet
  receive_number-Settled c len truncated h = Settled-core c _ refl h

  pub ready-Settled : (c : Connection S) → Settled w c → Settled w (record c { ready = true })
  ready-Settled c h = Settled-core c _ refl h

  pub signals-Settled :
      (c : Connection S) (n : ℕ) → Settled w c → Settled w (record c { ack_signals = n })
  signals-Settled c n h = Settled-core c _ refl h
