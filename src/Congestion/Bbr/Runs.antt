-- ===== src/Congestion/Bbr/Runs.antt =====
-- The states that a BBR controller reaches, and how it leaves its startup.
use quic_test.Prelude.{ℕ, Option}
use quic_test.Congestion.Floats.{Floats}
use quic_test.Congestion.Bbr.{
  Bbr, new_bbr, on_packet_sent, on_packet_discarded, on_packet_needs_retransmit, on_packet_lost,
  can_send,
}
use quic_test.Congestion.Bbr.States.{on_packet_acked}

module _ (fl : Floats) where
  -- What the methods make of a new controller.
  pub data Reachable : Bbr fl → Type 0 where
    new : Reachable (new_bbr fl)
    sent : {b : Bbr fl} (bytes : ℕ) → Reachable b → Reachable (on_packet_sent fl b bytes)
    acked :
        {b : Bbr fl} (bytes pn now : ℕ) (min_rtt : Option ℕ)
        → Reachable b
        → Reachable (on_packet_acked fl b bytes pn now min_rtt).0
    lost : {b : Bbr fl} (largest : ℕ) → Reachable b → Reachable (on_packet_lost fl b largest)
    discarded : {b : Bbr fl} (bytes : ℕ) → Reachable b → Reachable (on_packet_discarded fl b bytes)
    timed_out : {b : Bbr fl} → Reachable b → Reachable (on_packet_needs_retransmit fl b)
    asked : {b : Bbr fl} (bytes now : ℕ) → Reachable b → Reachable (can_send fl b bytes now).0
