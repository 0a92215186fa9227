-- ===== src/Congestion/Tests.antt =====
-- Runs of quic/utils, and its theorems at concrete inputs.
use quic_test.Prelude.{
  ℕ, ◌+◌, ◌*◌, ◌/◌, ◌≤◌, ◌≡◌, refl, ◌⊎◌, inr, ◌&&◌, not, arith, sub64, le_int64,
}
use quic_test.Congestion.NewReno.{NewReno, new_new_reno, on_packet_sent, on_packet_acked}
use quic_test.Congestion.NewReno.Window.{IsOpen, on_packet_acked-IsOpen}
use quic_test.Congestion.Rtt.{RttStats, new_rtt_stats, update_rtt, pto}
use quic_test.Congestion.Rtt.Bounds.{IsTimed, update_rtt-IsTimed}

-- The quotient of the floating point numbers, rounded down.
abbrev quotient : ℕ → ℕ → ℕ → ℕ
quotient bytes size cwnd = bytes * size / cwnd

new_new_reno-IsOpen : IsOpen new_new_reno
unfolding IsOpen new_new_reno
new_new_reno-IsOpen = (omega arith, omega arith, omega arith, omega arith, omega arith)

on_packet_acked-IsOpen_example :
    let (t, updated) = on_packet_acked quotient new_new_reno 1200 7 in
    IsOpen t
    × (t.bytes_in_flight ≡ sub64 new_new_reno.bytes_in_flight 1200)
    × (updated ≡ not (new_new_reno.in_recovery && le_int64 7 new_new_reno.recovery_point))
    × (t.in_recovery ≡ not updated)
    × (new_new_reno.cwnd ≤ t.cwnd)
unfolding new_new_reno
on_packet_acked-IsOpen_example =
    on_packet_acked-IsOpen quotient new_new_reno 1200 7 new_new_reno-IsOpen (omega arith)
      (omega arith)

abbrev two_sent : NewReno
two_sent = on_packet_sent (on_packet_sent new_new_reno 1200) 1000

abbrev one_acked : NewReno
one_acked = (on_packet_acked quotient two_sent 1200 0).0

new_rtt_stats-IsTimed : IsTimed new_rtt_stats
unfolding IsTimed new_rtt_stats
new_rtt_stats-IsTimed =
    (omega arith, omega arith, inr refl, omega arith, omega arith, omega arith, omega arith)

-- A packet that is acknowledged after 40 ms, with a delay of 10 ms.
abbrev after_40_ms : RttStats
after_40_ms = update_rtt new_rtt_stats 40000000 10000000

update_rtt-IsTimed_example :
    IsTimed after_40_ms
    × (1 ≤ after_40_ms.min_rtt)
    × ((new_rtt_stats.min_rtt ≡ 0) ⊎ (after_40_ms.min_rtt ≤ new_rtt_stats.min_rtt))
    × (200000000 ≤ pto after_40_ms)
    × (after_40_ms.smoothed_rtt + 4 * after_40_ms.rttvar ≤ pto after_40_ms)
update_rtt-IsTimed_example =
    update_rtt-IsTimed new_rtt_stats 40000000 10000000 new_rtt_stats-IsTimed (omega arith)
      (omega arith)
