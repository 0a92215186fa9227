-- ===== src/Congestion/Bbr/Growth.antt =====
-- The growth test of the startup.
use quic_test.Prelude.{
  ℕ, ◌+◌, ◌≡◌, refl, ap, ◌∙◌, true, false, List, ◌∷◌, ◌++◌, take, drop, add64, lt_int64, le_int64,
}
use quic_test.Congestion.Floats.{Floats}
use quic_test.Congestion.Bbr.{
  startup, drain, Bbr, zero_float, greatest, update_btl_bw, start_new_round, bw_grew_this_round,
}
use quic_test.Congestion.Bbr.States.{advance, advance_state}

module _ (fl : Floats) where
  open fl use {Float, of_int, ratio, seconds, mul, quot, lt, eq}

  -- The rate of the round, and the filter with it.
  abbrev pub round_rate : Bbr fl → ℕ → Float
  round_rate b duration = quot (of_int b.round_bytes_delivered) (seconds duration)

  abbrev pub new_filter : Bbr fl → Float → List Float
  new_filter b rate =
      take b.bw_filter_idx b.btl_bw_filter ++ (rate ∷ drop (b.bw_filter_idx + 1) b.btl_bw_filter)

  round_lem :
      (b : Bbr fl) (now duration : ℕ)
      → lt_int64 0 b.round_bytes_delivered ≡ true
      → lt_int64 0 duration ≡ true
      → greatest fl (zero_float fl) (new_filter b (round_rate b duration)) ≡ round_rate b duration
      → ((start_new_round fl b now duration).btl_bw ≡ round_rate b duration)
        × ((start_new_round fl b now duration).prev_round_bw ≡ round_rate b duration)
        × ((start_new_round fl b now duration).state ≡ b.state)
  unfolding start_new_round update_btl_bw
  round_lem b now duration d e top = rw (d, e) (top, refl, refl)

  not_grown :
      (b : Bbr fl) (rate : Float)
      → b.btl_bw ≡ rate
      → b.prev_round_bw ≡ rate
      → lt rate (zero_float fl) ≡ false
      → eq rate (zero_float fl) ≡ false
      → lt (mul (ratio 5 4) rate) rate ≡ false
      → eq (mul (ratio 5 4) rate) rate ≡ false
      → bw_grew_this_round fl b ≡ false
  unfolding bw_grew_this_round
  not_grown b rate e f l1 l2 l3 l4 = rw (e, f, l1, l2, l3, l4) refl

  -- A round that delivers data faster than every round in the filter ends the startup, from the third
  -- round on: startNewRound has made the round's own rate both btlBw and prevRoundBw before
  -- bwGrewThisRound compares them, so that no growth is seen. (The round took time, and the floating
  -- point rate is positive and below 1.25 times itself.)
  pub advance_state-fastest_round :
      (b : Bbr fl) (now duration : ℕ)
      → b.state ≡ startup
      → le_int64 3 (add64 b.round_count 1) ≡ true
      → lt_int64 0 b.round_bytes_delivered ≡ true
      → lt_int64 0 duration ≡ true
      → greatest fl (zero_float fl) (new_filter b (round_rate b duration)) ≡ round_rate b duration
      → lt (round_rate b duration) (zero_float fl) ≡ false
      → eq (round_rate b duration) (zero_float fl) ≡ false
      → lt (mul (ratio 5 4) (round_rate b duration)) (round_rate b duration) ≡ false
      → eq (mul (ratio 5 4) (round_rate b duration)) (round_rate b duration) ≡ false
      → (advance_state fl (start_new_round fl b now duration) now).state ≡ drain
  unfolding advance_state advance start_new_round
  advance_state-fastest_round b now duration s third d e top l1 l2 l3 l4 =
      let c = start_new_round fl b now duration in
      let (speed, prev, same) = round_lem b now duration d e top in
      let slow = not_grown c (round_rate b duration) speed prev l1 l2 l3 l4 in
      let begun : c.state ≡ startup = same ∙ s in
      ap (λ st. (advance fl st c now).state) begun ∙ rw third (rw slow refl)
