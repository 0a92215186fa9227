-- ===== src/Congestion/NewReno/Runs.antt =====
-- What holds of NewReno in every run.
use quic_test.Prelude.{ℕ, ◌+◌, ◌%◌, ◌^◌, ◌<◌, ◌≡◌, IsU64}
use quic_test.Congestion.NewReno.{
  NewReno, new_new_reno, on_packet_sent, on_packet_discarded, on_packet_lost,
  on_packet_needs_retransmit, set_max_datagram_size, on_packet_acked,
}

module _ (increase : ℕ → ℕ → ℕ → ℕ) where
  -- The states that calls of the methods lead to, with the bytes sent and the bytes that were
  -- acknowledged or discarded so far. An acknowledged packet has fewer than 2 ^ 31 bytes, and the
  -- window is below 2 ^ 62 when it may grow.
  pub data Run : NewReno → ℕ → ℕ → Type 0 where
    start : Run new_new_reno 0 0
    sent :
        {r : NewReno} {total gone : ℕ} (bytes : ℕ)
        → IsU64 bytes
        → Run r total gone
        → Run (on_packet_sent r bytes) (total + bytes) gone
    discarded :
        {r : NewReno} {total gone : ℕ} (bytes : ℕ)
        → IsU64 bytes
        → Run r total gone
        → Run (on_packet_discarded r bytes) total (gone + bytes)
    acked :
        {r : NewReno} {total gone : ℕ} (bytes packet_number : ℕ)
        → bytes < 2 ^ 31
        → r.cwnd < 2 ^ 62
        → Run r total gone
        → Run (on_packet_acked increase r bytes packet_number).0 total (gone + bytes)
    lost :
        {r : NewReno} {total gone : ℕ} (largest_sent : ℕ)
        → Run r total gone
        → Run (on_packet_lost r largest_sent) total gone
    timed_out :
        {r : NewReno} {total gone : ℕ}
        → Run r total gone
        → Run (on_packet_needs_retransmit r) total gone
    resized :
        {r : NewReno} {total gone : ℕ} (size : ℕ)
        → Run r total gone
        → Run (set_max_datagram_size r size) total gone

  IsBalanced : NewReno → ℕ → ℕ → Type 0
  IsBalanced r total gone = (r.bytes_in_flight + gone) % 2 ^ 64 ≡ total % 2 ^ 64
