-- ===== src/Congestion/Cubic.antt =====
-- quic/utils/cubic.go. The numbers are int64 patterns, a time is nanoseconds, and `none` is the zero
-- time; the clock is an argument.
pub mod Recovery
use quic_test.Prelude.{
  ℕ, ◌-◌, ◌*◌, ◌^◌, Bool, true, false, ◌&&◌, Option, none, some, if◌then◌else◌, add64, sub64,
  lt_int64, le_int64,
}
use quic_test.Congestion.Floats.{Floats}
use quic_test.Congestion.NewReno.{half}

pub record Cubic : Type 0 where
  pub cwnd : ℕ
  pub ssthresh : ℕ
  pub w_max : ℕ
  pub last_loss_time : Option ℕ
  pub in_slow_start : Bool
  pub min_cwnd : ℕ
  pub max_datagram_size : ℕ
  pub bytes_in_flight : ℕ
  pub in_recovery : Bool
  pub recovery_point : ℕ
  pub rtt : ℕ
  pub acked_bytes_since_loss : ℕ

unfoldable pub new_cubic : Cubic
new_cubic = record {
  cwnd = 10 * 1200;
  ssthresh = 2 ^ 31 - 1;
  w_max = 10 * 1200;
  last_loss_time = none;
  in_slow_start = true;
  min_cwnd = 2 * 1200;
  max_datagram_size = 1200;
  bytes_in_flight = 0;
  in_recovery = false;
  recovery_point = 0;
  rtt = 100000000;
  acked_bytes_since_loss = 0;
}

unfoldable pub set_rtt : Cubic → ℕ → Cubic
set_rtt c rtt = if lt_int64 0 rtt then record c { rtt = rtt } else c

unfoldable pub on_packet_sent : Cubic → ℕ → Cubic
on_packet_sent c bytes = record c { bytes_in_flight = add64 c.bytes_in_flight bytes }

unfoldable pub on_packet_discarded : Cubic → ℕ → Cubic
on_packet_discarded c bytes = record c { bytes_in_flight = sub64 c.bytes_in_flight bytes }

unfoldable pub no_less : ℕ → ℕ → ℕ
no_less least v = if lt_int64 v least then least else v

unfoldable pub on_packet_needs_retransmit : Cubic → ℕ → Cubic
unfolding no_less half
on_packet_needs_retransmit c now = record c {
  in_recovery = false;
  w_max = c.cwnd;
  ssthresh = no_less c.min_cwnd (half c.cwnd);
  cwnd = c.min_cwnd;
  last_loss_time = some now;
  acked_bytes_since_loss = 0;
}

unfoldable pub can_send : Cubic → ℕ → Bool
can_send c bytes =
    let total = add64 c.bytes_in_flight bytes in
    if c.in_recovery
    then le_int64 total (add64 c.cwnd c.max_datagram_size)
    else le_int64 total c.cwnd

unfoldable pub slow_start : Cubic → ℕ → Cubic
slow_start c acked =
    let larger = add64 c.cwnd acked in
    if lt_int64 c.ssthresh larger && lt_int64 0 c.ssthresh
    then record c { cwnd = c.ssthresh; in_slow_start = false }
    else record c { cwnd = larger }

module _ (fl : Floats) where
  open fl use {Float, of_int, to_int, ratio, seconds, add, sub, mul, quot, lt, cbrt}

  -- The window that cubicUpdate aims at, `elapsed` after the last loss.
  unfoldable pub cubic_target : Cubic → ℕ → Float
  cubic_target c elapsed =
      let w = of_int c.w_max in
      let beta = ratio 3 10 in
      let s = seconds elapsed in
      let t = if lt (of_int 0) s then s else ratio 1 1000 in
      let k = cbrt (quot (mul w beta) (ratio 4 10)) in
      let wt = sub t k in
      let w_cubic = add (mul (mul (mul (ratio 4 10) wt) wt) wt) w in
      let tcp = quot (mul (quot (mul (ratio 3 1) beta) (sub (ratio 2 1) beta)) t) (seconds c.rtt) in
      let w_tcp = add (mul w (sub (ratio 1 1) beta)) tcp in
      let target = if lt w_tcp w_cubic then w_cubic else w_tcp in
      if lt target (of_int c.min_cwnd) then of_int c.min_cwnd else target

  unfoldable pub cubic_update : Cubic → ℕ → ℕ → Cubic
  unfolding cubic_target
  cubic_update c acked now = elim c.last_loss_time [
    | none ↦ c
    | some then_ ↦
        let w = of_int c.cwnd in
        let target = cubic_target c (sub64 now then_) in
        let inc = quot (mul (sub target w) (of_int acked)) w in
        let reno = quot (mul (of_int acked) (of_int c.max_datagram_size)) w in
        let larger = add w (if lt inc (of_int 0) then reno else inc) in
        record c { cwnd = to_int (if lt larger w then add w (ratio 1 1) else larger) }
  ]

  unfoldable pub on_packet_acked : Cubic → ℕ → ℕ → Cubic × Bool
  unfolding slow_start cubic_update
  on_packet_acked c0 acked now =
      let c1 = record c0 {
        bytes_in_flight = sub64 c0.bytes_in_flight acked;
        acked_bytes_since_loss = add64 c0.acked_bytes_since_loss acked;
      } in
      let c = if le_int64 c1.cwnd 0 then record c1 { cwnd = c1.min_cwnd } else c1 in
      if lt_int64 c.cwnd c.ssthresh
      then (slow_start c acked, true)
      else (cubic_update (record c { in_slow_start = false }) acked now, true)

  unfoldable pub on_packet_lost : Cubic → ℕ → ℕ → Cubic
  unfolding no_less
  on_packet_lost c largest_sent now =
      let reduced = to_int (mul (of_int c.cwnd) (sub (ratio 1 1) (ratio 3 10))) in
      let window = no_less c.min_cwnd reduced in
      if c.in_recovery then c else record c {
        in_recovery = true;
        recovery_point = largest_sent;
        w_max = c.cwnd;
        ssthresh = no_less c.min_cwnd window;
        cwnd = window;
        last_loss_time = some now;
        acked_bytes_since_loss = 0;
      }
