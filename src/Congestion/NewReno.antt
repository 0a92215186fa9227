-- ===== src/Congestion/NewReno.antt =====
-- quic/utils/congestion.go. The numbers are int64 patterns; each method is one step, as its callers
-- hold a mutex.
pub mod Window
pub mod Runs
use quic_test.Prelude.{
  ℕ, ◌-◌, ◌*◌, ◌/◌, ◌^◌, Bool, true, false, ◌&&◌, if◌then◌else◌, add64, sub64, lt_int64, le_int64,
}

pub record NewReno : Type 0 where
  pub cwnd : ℕ
  pub ssthresh : ℕ
  pub min_cwnd : ℕ
  pub max_datagram_size : ℕ
  pub bytes_in_flight : ℕ
  pub recovery_bytes_acked : ℕ
  pub in_recovery : Bool
  pub recovery_point : ℕ

unfoldable pub new_new_reno : NewReno
new_new_reno = record {
  cwnd = 10 * 1200;
  ssthresh = 2 ^ 31 - 1;
  min_cwnd = 2 * 1200;
  max_datagram_size = 1200;
  bytes_in_flight = 0;
  recovery_bytes_acked = 0;
  in_recovery = false;
  recovery_point = 0;
}

unfoldable pub on_packet_sent : NewReno → ℕ → NewReno
on_packet_sent r bytes = record r { bytes_in_flight = add64 r.bytes_in_flight bytes }

unfoldable pub on_packet_discarded : NewReno → ℕ → NewReno
on_packet_discarded r bytes = record r { bytes_in_flight = sub64 r.bytes_in_flight bytes }

-- Slow start: up to the threshold.
unfoldable pub slow_start : NewReno → ℕ → ℕ
slow_start r acked =
    let larger = add64 r.cwnd acked in
    if lt_int64 r.ssthresh larger && lt_int64 0 r.ssthresh then r.ssthresh else larger

unfoldable pub at_least_minimum : NewReno → ℕ → ℕ
at_least_minimum r v = if lt_int64 v r.min_cwnd then r.min_cwnd else v

-- `cwnd / 2`, of an int64, which truncates towards zero.
unfoldable pub half : ℕ → ℕ
half v = if lt_int64 v 0 then sub64 0 ((2 ^ 64 - v) / 2) else v / 2

unfoldable pub on_packet_lost : NewReno → ℕ → NewReno
unfolding half at_least_minimum
on_packet_lost r largest_sent =
    let threshold = at_least_minimum r (half r.cwnd) in
    if r.in_recovery then r else record r {
      in_recovery = true;
      recovery_point = largest_sent;
      ssthresh = threshold;
      cwnd = threshold;
    }

unfoldable pub on_packet_needs_retransmit : NewReno → NewReno
unfolding half at_least_minimum
on_packet_needs_retransmit r = record r {
  in_recovery = false;
  ssthresh = at_least_minimum r (half r.cwnd);
  cwnd = r.min_cwnd;
}

unfoldable pub can_send : NewReno → ℕ → Bool
can_send r bytes =
    let total = add64 r.bytes_in_flight bytes in
    if r.in_recovery
    then le_int64 total (add64 r.cwnd r.max_datagram_size)
    else le_int64 total r.cwnd

unfoldable pub set_max_datagram_size : NewReno → ℕ → NewReno
set_max_datagram_size r size = record r { max_datagram_size = size }

-- `increase acked size cwnd` stands for int64(float64(acked) * float64(size) / float64(cwnd)).
module _ (increase : ℕ → ℕ → ℕ → ℕ) where
  unfoldable pub congestion_avoidance : NewReno → ℕ → ℕ
  congestion_avoidance r acked =
      let larger = add64 r.cwnd (increase acked r.max_datagram_size r.cwnd) in
      if le_int64 larger r.cwnd then add64 r.cwnd 1 else larger

  -- The window, once the packet counts.
  unfoldable pub grow : NewReno → ℕ → NewReno
  unfolding slow_start congestion_avoidance
  grow r acked = record r {
    cwnd = if lt_int64 r.cwnd r.ssthresh then slow_start r acked else congestion_avoidance r acked;
  }

  -- With what the method returns: whether the window was updated.
  unfoldable pub on_packet_acked : NewReno → ℕ → ℕ → NewReno × Bool
  unfolding grow
  on_packet_acked r0 acked packet_number =
      let r = if le_int64 r0.cwnd 0 then record r0 { cwnd = r0.min_cwnd } else r0 in
      let landed = sub64 r.bytes_in_flight acked in
      if r.in_recovery && le_int64 packet_number r.recovery_point
      then (record r { bytes_in_flight = landed }, false)
      else (grow (record r { in_recovery = false; bytes_in_flight = landed }) acked, true)
