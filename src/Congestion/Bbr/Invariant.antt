-- ===== src/Congestion/Bbr/Invariant.antt =====
-- quic/utils/bbr.go: the invariant of a BBR controller.
use quic_test.Prelude.{
  ℕ, ◌+◌, ◌*◌, ◌<◌, ◌≡◌, refl, ap, ◌⊎◌, inl, inr, Bool, true, false, ◌&&◌, ◌||◌, not, Option, none,
  some, ◌∷◌, arith, if-cases, Option-cases, length, take, drop, length-append, length-take,
  length-drop, u64, sub64, lt_int64, le_int64,
}
use quic_test.Congestion.Floats.{Floats}
use quic_test.Congestion.Bbr.{
  BbrState, startup, drain, probe_bw, probe_rtt, is_probe_rtt, Bbr, measured, update_btl_bw,
  start_new_round, min_pipe_cwnd, bw_grew_this_round, bdp,
}
use quic_test.Congestion.Bbr.States.{
  advance, advance_state, update_pacing_and_cwnd, on_packet_acked, count_acked, end_round,
  leave_probe_rtt, is_stale, is_after,
}

module _ (fl : Floats) where
  -- The window is no less than the least one, the indices are in range, the filter has ten rates, and
  -- ProbeRTT was entered from ProbeBW.
  pub record IsSound (b : Bbr fl) : Type 0 where
    pub least : b.min_cwnd ≡ min_pipe_cwnd
    pub window : le_int64 min_pipe_cwnd b.cwnd ≡ true
    pub cycle_idx : b.probe_cycle_idx < 8
    pub filter_idx : b.bw_filter_idx < 10
    pub filter : length b.btl_bw_filter ≡ 10
    pub probing : (is_probe_rtt b.state ≡ false) ⊎ (b.probe_rtt_last_state ≡ probe_bw)

  measured-IsSound : (b : Bbr fl) (duration : ℕ) → IsSound b → IsSound (measured fl b duration)
  unfolding update_btl_bw
  measured-IsSound b duration h =
      let rate = fl.quot (fl.of_int b.round_bytes_delivered) (fl.seconds duration) in
      let inside = h.filter_idx in
      let ten = h.filter in
      if-cases (λ (t : Bbr fl). IsSound t)
        (lt_int64 0 b.round_bytes_delivered && lt_int64 0 duration)
        (λ e. record {
          least = h.least;
          window = h.window;
          cycle_idx = h.cycle_idx;
          filter_idx = omega arith;
          filter = omega (
            arith,
            length-append (take b.bw_filter_idx b.btl_bw_filter)
                (rate ∷ drop (b.bw_filter_idx + 1) b.btl_bw_filter),
            length-take b.bw_filter_idx b.btl_bw_filter,
            length-drop (b.bw_filter_idx + 1) b.btl_bw_filter,
          );
          probing = h.probing;
        })
        (λ e. h)

  start_new_round-IsSound :
      (b : Bbr fl) (now duration : ℕ) → IsSound b → IsSound (start_new_round fl b now duration)
  unfolding start_new_round
  start_new_round-IsSound b now duration h =
      let m = measured-IsSound b duration h in
      record {
        least = m.least;
        window = m.window;
        cycle_idx = m.cycle_idx;
        filter_idx = m.filter_idx;
        filter = m.filter;
        probing = m.probing;
      }

  count_acked-IsSound :
      (b : Bbr fl) (acked now : ℕ) (min_rtt : Option ℕ)
      → IsSound b
      → IsSound (count_acked fl b acked now min_rtt)
  count_acked-IsSound b acked now none h = record {
    least = h.least;
    window = h.window;
    cycle_idx = h.cycle_idx;
    filter_idx = h.filter_idx;
    filter = h.filter;
    probing = h.probing;
  }
  count_acked-IsSound b acked now (some rtt) h =
      if-cases (λ (t : Bbr fl). IsSound t) (lt_int64 0 rtt && lt_int64 rtt b.rt_prop)
        (λ e. record {
          least = h.least;
          window = h.window;
          cycle_idx = h.cycle_idx;
          filter_idx = h.filter_idx;
          filter = h.filter;
          probing = h.probing;
        })
        (λ e. record {
          least = h.least;
          window = h.window;
          cycle_idx = h.cycle_idx;
          filter_idx = h.filter_idx;
          filter = h.filter;
          probing = h.probing;
        })

  end_round-IsSound : (b : Bbr fl) (pn now : ℕ) → IsSound b → IsSound (end_round fl b pn now)
  end_round-IsSound b pn now h = elim (Option-cases b.round_start_time) [
    | inl e ↦ rw (end_round, e) h
    | inr (start, e) ↦
        rw (end_round, e)
          (let elapsed = sub64 now start in
            if-cases (λ (t : Bbr fl). IsSound t) (lt_int64 (u64 (2 * b.rt_prop)) elapsed)
              (λ x. start_new_round-IsSound b now elapsed h)
              (λ x.
                if-cases (λ (t : Bbr fl). IsSound t)
                  (le_int64 b.next_round_pkt_num pn || le_int64 b.rt_prop elapsed)
                  (λ y. start_new_round-IsSound b now b.rt_prop h) (λ y. h)))
  ]

  not_probing :
      (b : Bbr fl)
      → b.state ≡ probe_rtt
      → is_probe_rtt b.state ≡ false
      → b.probe_rtt_last_state ≡ probe_bw
  not_probing b e f = absurd (ground (arith, ap is_probe_rtt e))

  leave-IsSound : (b : Bbr fl) → b.state ≡ probe_rtt → IsSound b → IsSound (leave_probe_rtt fl b)
  leave-IsSound b e h =
      let last : b.probe_rtt_last_state ≡ probe_bw = elim h.probing [
        | inl f ↦ not_probing b e f
        | inr l ↦ l
      ] in
      let inside = h.cycle_idx in
      record {
        least = h.least;
        window = h.window;
        cycle_idx = ground arith;
        filter_idx = h.filter_idx;
        filter = h.filter;
        probing = inl (ap is_probe_rtt last);
      }

  advance-IsSound :
      (s : BbrState) (b : Bbr fl) (now : ℕ) → b.state ≡ s → IsSound b → IsSound (advance fl s b now)
  unfolding advance
  advance-IsSound startup b now e h =
      if-cases (λ (t : Bbr fl). IsSound t)
        (le_int64 3 b.round_count && not (bw_grew_this_round fl b))
        (λ x. record {
          least = h.least;
          window = h.window;
          cycle_idx = h.cycle_idx;
          filter_idx = h.filter_idx;
          filter = h.filter;
          probing = inl refl;
        })
        (λ x. h)
  advance-IsSound drain b now e h =
      let flight = fl.of_int b.bytes_in_flight in
      if-cases (λ (t : Bbr fl). IsSound t) (fl.lt flight (bdp fl b) || fl.eq flight (bdp fl b))
        (λ x. record {
          least = h.least;
          window = h.window;
          cycle_idx = omega arith;
          filter_idx = h.filter_idx;
          filter = h.filter;
          probing = inl refl;
        })
        (λ x. h)
  advance-IsSound probe_bw b now e h =
      if-cases (λ (t : Bbr fl). IsSound t) (is_stale now b.rt_prop_stamp)
        (λ x. record {
          least = h.least;
          window = h.window;
          cycle_idx = omega arith;
          filter_idx = h.filter_idx;
          filter = h.filter;
          probing = inr e;
        })
        (λ x. record {
          least = h.least;
          window = h.window;
          cycle_idx = omega arith;
          filter_idx = h.filter_idx;
          filter = h.filter;
          probing = h.probing;
        })
  advance-IsSound probe_rtt b now e h =
      if-cases (λ (t : Bbr fl). IsSound t)
        (is_after now b.probe_rtt_done_at || le_int64 b.bytes_in_flight b.min_cwnd)
        (λ x. leave-IsSound b e h) (λ x. h)

  update-IsSound : (b : Bbr fl) → IsSound b → IsSound (update_pacing_and_cwnd fl b)
  unfolding update_pacing_and_cwnd
  update-IsSound b h =
      let least = h.least in
      record {
        least = least;
        window = rw least (ground arith);
        cycle_idx = h.cycle_idx;
        filter_idx = h.filter_idx;
        filter = h.filter;
        probing = h.probing;
      }

  pub on_packet_acked-IsSound :
      (b : Bbr fl) (acked pn now : ℕ) (min_rtt : Option ℕ)
      → IsSound b
      → IsSound (on_packet_acked fl b acked pn now min_rtt).0
  unfolding on_packet_acked advance_state
  on_packet_acked-IsSound b acked pn now min_rtt h =
      let c : Bbr fl = end_round fl (count_acked fl b acked now min_rtt) pn now in
      let k =
        end_round-IsSound (count_acked fl b acked now min_rtt) pn now
          (count_acked-IsSound b acked now min_rtt h) in
      let started : Bbr fl = record c { round_start = false } in
      let k1 : IsSound started = record {
        least = k.least;
        window = k.window;
        cycle_idx = k.cycle_idx;
        filter_idx = k.filter_idx;
        filter = k.filter;
        probing = k.probing;
      } in
      if-cases (λ (t : Bbr fl × Bool). IsSound t.0) c.round_start
        (λ e. update-IsSound _ (advance-IsSound c.state started now refl k1)) (λ e. k)
