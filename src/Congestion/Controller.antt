-- ===== src/Congestion/Controller.antt =====
-- quic/utils/congctl.go: the interface of a congestion controller, with what a connection relies on.
-- The clock is an argument of the methods that read it.
use quic_test.Prelude.{ℕ, ◌≡◌, Bool, add64, sub64}

pub record Controller (S : Type 0) : Type 0 where
  pub on_packet_sent : S → ℕ → S
  -- The bytes, the packet number and the time.
  pub on_packet_acked : S → ℕ → ℕ → ℕ → S × Bool
  pub on_packet_lost : S → ℕ → ℕ → S
  pub on_packet_discarded : S → ℕ → S
  pub on_packet_needs_retransmit : S → ℕ → S
  pub can_send : S → ℕ → ℕ → S × Bool
  pub cwnd : S → ℕ
  pub bytes_in_flight : S → ℕ
  pub in_recovery : S → Bool
  -- The bytes in flight change with the packets that are sent, acknowledged and discarded only.
  pub flight-sent :
      (s : S) (n : ℕ) → bytes_in_flight (on_packet_sent s n) ≡ add64 (bytes_in_flight s) n
  pub flight-acked :
      (s : S) (n pn now : ℕ)
      → bytes_in_flight (on_packet_acked s n pn now).0 ≡ sub64 (bytes_in_flight s) n
  pub flight-lost :
      (s : S) (pn now : ℕ) → bytes_in_flight (on_packet_lost s pn now) ≡ bytes_in_flight s
  pub flight-discarded :
      (s : S) (n : ℕ) → bytes_in_flight (on_packet_discarded s n) ≡ sub64 (bytes_in_flight s) n
  pub flight-needs_retransmit :
      (s : S) (now : ℕ) → bytes_in_flight (on_packet_needs_retransmit s now) ≡ bytes_in_flight s
  pub flight-can_send :
      (s : S) (n now : ℕ) → bytes_in_flight (can_send s n now).0 ≡ bytes_in_flight s
