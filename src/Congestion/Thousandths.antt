-- ===== src/Congestion/Thousandths.antt =====
-- CUBIC and BBR over numbers of thousandths in place of float64: runs, and the theorems at concrete
-- inputs.
use quic_test.Prelude.{ℕ, ◌+◌, ◌-◌, ◌*◌, ◌/◌, ◌≡◌, refl, true, some, ltb, ◌==◌}
use quic_test.Congestion.Floats.{Floats}
use quic_test.Congestion.Cubic
use quic_test.Congestion.Cubic.{Cubic, new_cubic}
use quic_test.Congestion.Cubic.Recovery.{
  KeepsRecovery, done, and_then, sent, acked, lost, Run-KeepsRecovery,
}
use quic_test.Congestion.Bbr
use quic_test.Congestion.Bbr.{Bbr, new_bbr, drain, start_new_round}
use quic_test.Congestion.Bbr.States.{advance_state}
use quic_test.Congestion.Bbr.Runs
use quic_test.Congestion.Bbr.Growth.{advance_state-fastest_round}

abbrev thousandths : Floats
thousandths = record {
  Float = ℕ;
  of_int = λ n. n * 1000;
  to_int = λ x. x / 1000;
  ratio = λ a b. a * 1000 / b;
  seconds = λ d. d / 1000000;
  add = λ x y. x + y;
  sub = λ x y. x - y;
  mul = λ x y. x * y / 1000;
  quot = λ x y. x * 1000 / y;
  lt = ltb;
  eq = λ x y. x == y;
  cbrt = λ x. x;
  ceil = λ x. x;
}

-- A loss, and what comes behind it.
abbrev begun : Cubic
begun = Cubic.on_packet_lost thousandths new_cubic 5 1000

abbrev lost_again : Cubic
lost_again =
    Cubic.on_packet_lost thousandths
      (Cubic.on_packet_acked thousandths (Cubic.on_packet_sent begun 1200) 1200 2000).0 9 3000

in_recovery_now : begun.in_recovery ≡ true
unfolding Cubic.on_packet_lost new_cubic
in_recovery_now = refl

Run-KeepsRecovery_example :
    KeepsRecovery thousandths begun lost_again
    × ((largest now : ℕ) → Cubic.on_packet_lost thousandths lost_again largest now ≡ lost_again)
Run-KeepsRecovery_example =
    Run-KeepsRecovery thousandths begun lost_again
      (and_then (and_then (and_then done (sent 1200)) (acked 1200 2000)) (lost 9 3000))
      in_recovery_now

abbrev one_acked : Bbr thousandths
one_acked =
    (Bbr.States.on_packet_acked thousandths
      (Bbr.on_packet_sent thousandths (new_bbr thousandths) 1200) 1200 0 90000000 (some 80000000)).0

-- Two rounds are over, and a million bytes came in 100 ms.
abbrev third_round : Bbr thousandths
unfolding new_bbr
third_round = record (new_bbr thousandths) {
  round_count = 2;
  round_bytes_delivered = 1000000;
  round_start_time = some 0;
}

advance_state-fastest_round_example :
    (advance_state thousandths
      (start_new_round thousandths third_round 100000000 100000000)
      100000000).state
    ≡ drain
unfolding third_round
advance_state-fastest_round_example =
    advance_state-fastest_round thousandths third_round 100000000 100000000 refl refl refl refl refl
      refl refl refl refl
