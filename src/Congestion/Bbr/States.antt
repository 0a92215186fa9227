-- ===== src/Congestion/Bbr/States.antt =====
-- quic/utils/bbr.go: the state machine, and what an acknowledgement does.
use quic_test.Prelude.{
  ℕ, ◌+◌, ◌*◌, ◌%◌, Bool, true, false, ◌&&◌, ◌||◌, not, Option, none, some, List, ◌∷◌,
  if◌then◌else◌, get_or, replicate, u64, add64, sub64, lt_int64, le_int64,
}
use quic_test.Congestion.Floats.{Floats}
use quic_test.Congestion.Bbr.{
  BbrState, startup, drain, probe_bw, probe_rtt, is_probe_bw, is_probe_rtt, Bbr, zero_float,
  least_rate, start_new_round, bw_grew_this_round, bdp,
}

-- `none` is the zero time, which is before every other.
abbrev pub is_after : ℕ → Option ℕ → Bool
is_after now none = true
is_after now (some t) = lt_int64 t now

abbrev pub is_stale : ℕ → Option ℕ → Bool
is_stale now none = false
is_stale now (some t) = le_int64 10000000000 (sub64 now t)

module _ (fl : Floats) where
  open fl use {Float, of_int, to_int, ratio, seconds, mul, quot, lt, eq, ceil}

  abbrev pub leave_probe_rtt : Bbr fl → Bbr fl
  leave_probe_rtt b = record b {
    state = b.probe_rtt_last_state;
    probe_cycle_idx = if is_probe_bw b.probe_rtt_last_state then 0 else b.probe_cycle_idx;
  }

  abbrev pub cycle : Bbr fl → ℕ → Bbr fl
  cycle b now =
      let next : Bbr fl = record b { probe_cycle_idx = (b.probe_cycle_idx + 1) % 8 } in
      if is_stale now b.rt_prop_stamp
      then record next {
        probe_rtt_last_state = b.state;
        state = probe_rtt;
        probe_rtt_done_at = some (add64 now 200000000);
      }
      else next

  -- The switch of advanceState.
  unfoldable pub advance : BbrState → Bbr fl → ℕ → Bbr fl
  unfolding bw_grew_this_round bdp
  advance startup b now =
      if le_int64 3 b.round_count && not (bw_grew_this_round fl b)
      then record b { state = drain; loss_in_startup = 0 }
      else b
  advance drain b now =
      if lt (of_int b.bytes_in_flight) (bdp fl b) || eq (of_int b.bytes_in_flight) (bdp fl b)
      then record b { state = probe_bw; probe_cycle_idx = 0 }
      else b
  advance probe_bw b now = cycle b now
  advance probe_rtt b now =
      if is_after now b.probe_rtt_done_at || le_int64 b.bytes_in_flight b.min_cwnd
      then leave_probe_rtt b
      else b

  unfoldable pub advance_state : Bbr fl → ℕ → Bbr fl
  unfolding advance
  advance_state b now = advance b.state b now

  -- bbrPacingGains and bbrCWNDGains
  abbrev pub pacing_gains : List Float
  pacing_gains = ratio 5 4 ∷ ratio 3 4 ∷ replicate 6 (ratio 1 1)

  abbrev pub pacing_gain : Bbr fl → Float
  pacing_gain b = elim b.state [
    | startup ↦ ratio 2 1
    | drain ↦ ratio 100 277
    | probe_bw ↦ get_or pacing_gains b.probe_cycle_idx (zero_float fl)
    | probe_rtt ↦ ratio 1 1
  ]

  abbrev pub cwnd_gain : Bbr fl → Float
  cwnd_gain b = elim b.state [
    | startup ↦ ratio 8 1
    | drain ↦ ratio 2 1
    | probe_bw ↦ get_or (replicate 8 (ratio 2 1)) b.probe_cycle_idx (zero_float fl)
    | probe_rtt ↦ ratio 1 1
  ]

  unfoldable pub update_pacing_and_cwnd : Bbr fl → Bbr fl
  unfolding bdp
  update_pacing_and_cwnd b =
      let gained = mul (pacing_gain b) b.btl_bw in
      let rate = if eq gained (zero_float fl) then least_rate fl b.min_cwnd b.rt_prop else gained in
      let paced = if lt rate (of_int 4194304) then of_int 4194304 else rate in
      let window = to_int (ceil (mul (cwnd_gain b) (bdp fl b))) in
      let larger : ℕ = if lt_int64 window b.min_cwnd then b.min_cwnd else window in
      record b {
        pacing_rate = to_int paced;
        cwnd = if is_probe_rtt b.state then b.min_cwnd else larger;
      }

  -- The bytes count, and the shortest round trip time is taken over.
  abbrev pub count_acked : Bbr fl → ℕ → ℕ → Option ℕ → Bbr fl
  count_acked b acked now min_rtt =
      let counted : Bbr fl = record b {
        bytes_in_flight = sub64 b.bytes_in_flight acked;
        delivered = add64 b.delivered acked;
        round_bytes_delivered = add64 b.round_bytes_delivered acked;
        round_start_time = elim b.round_start_time [ none ↦ some now | some t ↦ some t ];
      } in
      elim min_rtt [
        | none ↦ counted
        | some rtt ↦
            if lt_int64 0 rtt && lt_int64 rtt b.rt_prop
            then record counted { rt_prop = rtt; rt_prop_stamp = some now }
            else counted
      ]

  -- A round ends when its time is over, or at the packet number that was set for it.
  abbrev pub end_round : Bbr fl → ℕ → ℕ → Bbr fl
  end_round b packet_number now = elim b.round_start_time [
    | none ↦ b
    | some start ↦
        let elapsed = sub64 now start in
        if lt_int64 (u64 (2 * b.rt_prop)) elapsed
        then start_new_round fl b now elapsed
        else if le_int64 b.next_round_pkt_num packet_number || le_int64 b.rt_prop elapsed
        then start_new_round fl b now b.rt_prop
        else b
  ]

  unfoldable pub on_packet_acked : Bbr fl → ℕ → ℕ → ℕ → Option ℕ → Bbr fl × Bool
  unfolding start_new_round advance_state update_pacing_and_cwnd
  on_packet_acked b acked packet_number now min_rtt =
      let c = end_round (count_acked b acked now min_rtt) packet_number now in
      if c.round_start
      then (update_pacing_and_cwnd (advance_state (record c { round_start = false }) now), true)
      else (c, true)
