-- ===== src/Congestion/Bbr.antt =====
-- quic/utils/bbr.go. The numbers are int64 patterns, a time is nanoseconds, and `none` is the zero
-- time; the clock, and MinRTT of the statistics when they are attached, are arguments.
pub mod States
pub mod Growth
pub mod Runs
pub mod Invariant
use quic_test.Prelude.{
  ℕ, ◌+◌, ◌%◌, Bool, true, false, ◌&&◌, ◌||◌, Option, none, some, List, [], ◌∷◌, ◌++◌,
  if◌then◌else◌, take, drop, replicate, add64, sub64, lt_int64, le_int64,
}
use quic_test.Congestion.Floats.{Floats}

pub data BbrState : Type 0 where
  startup drain probe_bw probe_rtt : BbrState

abbrev pub is_startup : BbrState → Bool
is_startup startup = true
is_startup _ = false

abbrev pub is_probe_bw : BbrState → Bool
is_probe_bw probe_bw = true
is_probe_bw _ = false

abbrev pub is_probe_rtt : BbrState → Bool
is_probe_rtt probe_rtt = true
is_probe_rtt _ = false

abbrev pub min_pipe_cwnd : ℕ
min_pipe_cwnd = 2097152

module _ (fl : Floats) where
  open fl use {Float, of_int, to_int, ratio, seconds, mul, quot, lt, eq, ceil}

  pub record Bbr : Type 0 where
    pub state : BbrState
    pub btl_bw : Float
    pub btl_bw_filter : List Float
    pub bw_filter_idx : ℕ
    pub rt_prop : ℕ
    pub rt_prop_stamp : Option ℕ
    pub round_count : ℕ
    pub round_start : Bool
    pub next_round_pkt_num : ℕ
    pub round_bytes_delivered : ℕ
    pub round_start_time : Option ℕ
    pub prev_round_bw : Float
    pub round_end_time : Option ℕ
    pub delivered : ℕ
    pub pacing_rate : ℕ
    pub cwnd : ℕ
    pub min_cwnd : ℕ
    pub bytes_in_flight : ℕ
    pub last_send_time : ℕ
    pub probe_cycle_idx : ℕ
    pub probe_rtt_done_at : Option ℕ
    pub probe_rtt_last_state : BbrState
    pub in_recovery : Bool
    pub recovery_point : ℕ
    pub loss_in_startup : ℕ

  abbrev pub zero_float : Float
  zero_float = of_int 0

  -- `float64(b.minCwnd) / b.rtProp.Seconds()`
  abbrev pub least_rate : ℕ → ℕ → Float
  least_rate min_cwnd rt_prop = quot (of_int min_cwnd) (seconds rt_prop)

  unfoldable pub new_bbr : Bbr
  new_bbr = record {
    state = startup;
    btl_bw = zero_float;
    btl_bw_filter = replicate 10 zero_float;
    bw_filter_idx = 0;
    rt_prop = 100000000;
    rt_prop_stamp = none;
    round_count = 0;
    round_start = false;
    next_round_pkt_num = 0;
    round_bytes_delivered = 0;
    round_start_time = none;
    prev_round_bw = zero_float;
    round_end_time = none;
    delivered = 0;
    pacing_rate = to_int (least_rate min_pipe_cwnd 100000000);
    cwnd = min_pipe_cwnd;
    min_cwnd = min_pipe_cwnd;
    bytes_in_flight = 0;
    last_send_time = 0;
    probe_cycle_idx = 0;
    probe_rtt_done_at = none;
    probe_rtt_last_state = startup;
    in_recovery = false;
    recovery_point = 0;
    loss_in_startup = 0;
  }

  unfoldable pub on_packet_sent : Bbr → ℕ → Bbr
  on_packet_sent b bytes = record b { bytes_in_flight = add64 b.bytes_in_flight bytes }

  unfoldable pub on_packet_discarded : Bbr → ℕ → Bbr
  on_packet_discarded b bytes = record b { bytes_in_flight = sub64 b.bytes_in_flight bytes }

  unfoldable pub on_packet_needs_retransmit : Bbr → Bbr
  on_packet_needs_retransmit b = record b {
    cwnd = b.min_cwnd;
    pacing_rate = to_int (least_rate b.min_cwnd b.rt_prop);
    in_recovery = false;
  }

  -- The third loss of the startup ends it.
  unfoldable pub on_packet_lost : Bbr → ℕ → Bbr
  on_packet_lost b largest_sent =
      let losses = add64 b.loss_in_startup 1 in
      if is_startup b.state
      then if le_int64 3 losses
        then record b { state = drain; loss_in_startup = 0 }
        else record b { loss_in_startup = losses }
      else record b { in_recovery = true; recovery_point = largest_sent }

  unfoldable pub can_send : Bbr → ℕ → ℕ → Bbr × Bool
  can_send b bytes now =
      let pause = to_int (mul (quot (of_int bytes) (of_int b.pacing_rate)) (of_int 1000000000)) in
      if lt_int64 b.cwnd (add64 b.bytes_in_flight bytes)
      then (b, false)
      else if lt_int64 0 b.pacing_rate
      then if lt_int64 now (add64 b.last_send_time pause)
        then (b, false)
        else (record b { last_send_time = now }, true)
      else (b, true)

  -- The greatest of the filter, from `top` on.
  abbrev pub greatest : Float → List Float → Float
  greatest top [] = top
  greatest top (v ∷ vs) = if lt top v then greatest v vs else greatest top vs

  unfoldable pub update_btl_bw : Bbr → Float → Bbr
  update_btl_bw b rate =
      let filter =
        take b.bw_filter_idx b.btl_bw_filter
        ++ (rate ∷ drop (b.bw_filter_idx + 1) b.btl_bw_filter) in
      record b {
        btl_bw_filter = filter;
        bw_filter_idx = (b.bw_filter_idx + 1) % 10;
        btl_bw = greatest zero_float filter;
      }

  abbrev pub measured : Bbr → ℕ → Bbr
  measured b duration =
      let rate = quot (of_int b.round_bytes_delivered) (seconds duration) in
      if lt_int64 0 b.round_bytes_delivered && lt_int64 0 duration
      then record (update_btl_bw b rate) { prev_round_bw = rate }
      else b

  unfoldable pub start_new_round : Bbr → ℕ → ℕ → Bbr
  unfolding update_btl_bw
  start_new_round b now duration = record (measured b duration) {
    round_start = true;
    round_count = add64 b.round_count 1;
    round_bytes_delivered = 0;
    round_start_time = some now;
    round_end_time = some now;
    next_round_pkt_num = add64 b.next_round_pkt_num 1000;
  }

  unfoldable pub bw_grew_this_round : Bbr → Bool
  bw_grew_this_round b =
      let least = mul (ratio 5 4) b.prev_round_bw in
      lt b.prev_round_bw zero_float
      || eq b.prev_round_bw zero_float
      || lt least b.btl_bw
      || eq least b.btl_bw

  unfoldable pub bdp : Bbr → Float
  bdp b = mul b.btl_bw (seconds b.rt_prop)
