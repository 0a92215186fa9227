-- ===== src/Congestion/Instances.antt =====
-- NewReno and CUBIC as congestion controllers.
use quic_test.Prelude.{ℕ, ◌≡◌, refl, arith, sub64}
use quic_test.Congestion.Floats.{Floats}
use quic_test.Congestion.Controller.{Controller}
use quic_test.Congestion.NewReno
use quic_test.Congestion.Cubic
use quic_test.Congestion.NewReno.{half, at_least_minimum, grow, slow_start, congestion_avoidance}

pub new_reno-acked :
    (increase : ℕ → ℕ → ℕ → ℕ) (s : NewReno.NewReno) (n pn : ℕ)
    → (NewReno.on_packet_acked increase s n pn).0.bytes_in_flight ≡ sub64 s.bytes_in_flight n
unfolding NewReno.on_packet_acked grow
new_reno-acked increase s n pn = ground arith

pub new_reno-lost :
    (s : NewReno.NewReno) (pn : ℕ)
    → (NewReno.on_packet_lost s pn).bytes_in_flight ≡ s.bytes_in_flight
unfolding NewReno.on_packet_lost
new_reno-lost s pn = ground arith

unfoldable pub new_reno_controller : (ℕ → ℕ → ℕ → ℕ) → Controller NewReno.NewReno
unfolding NewReno.on_packet_sent NewReno.on_packet_discarded NewReno.on_packet_needs_retransmit
    NewReno.can_send
new_reno_controller increase = record {
  on_packet_sent = NewReno.on_packet_sent;
  on_packet_acked = λ s n pn now. NewReno.on_packet_acked increase s n pn;
  on_packet_lost = λ s pn now. NewReno.on_packet_lost s pn;
  on_packet_discarded = NewReno.on_packet_discarded;
  on_packet_needs_retransmit = λ s now. NewReno.on_packet_needs_retransmit s;
  can_send = λ s n now. (s, NewReno.can_send s n);
  cwnd = λ s. s.cwnd;
  bytes_in_flight = λ s. s.bytes_in_flight;
  in_recovery = λ s. s.in_recovery;
  flight-sent = λ s n. refl;
  flight-acked = λ s n pn now. new_reno-acked increase s n pn;
  flight-lost = λ s pn now. new_reno-lost s pn;
  flight-discarded = λ s n. refl;
  flight-needs_retransmit = λ s now. refl;
  flight-can_send = λ s n now. refl;
}

module _ (fl : Floats) where
  pub cubic-acked :
      (s : Cubic.Cubic) (n now : ℕ)
      → (Cubic.on_packet_acked fl s n now).0.bytes_in_flight ≡ sub64 s.bytes_in_flight n
  unfolding Cubic.on_packet_acked Cubic.slow_start Cubic.cubic_update
  cubic-acked s n now = ground arith

  pub cubic-lost :
      (s : Cubic.Cubic) (pn now : ℕ)
      → (Cubic.on_packet_lost fl s pn now).bytes_in_flight ≡ s.bytes_in_flight
  unfolding Cubic.on_packet_lost
  cubic-lost s pn now = ground arith

  unfoldable pub cubic_controller : Controller Cubic.Cubic
  unfolding Cubic.on_packet_sent Cubic.on_packet_discarded Cubic.on_packet_needs_retransmit
      Cubic.can_send
  cubic_controller = record {
    on_packet_sent = Cubic.on_packet_sent;
    on_packet_acked = λ s n pn now. Cubic.on_packet_acked fl s n now;
    on_packet_lost = Cubic.on_packet_lost fl;
    on_packet_discarded = Cubic.on_packet_discarded;
    on_packet_needs_retransmit = Cubic.on_packet_needs_retransmit;
    can_send = λ s n now. (s, Cubic.can_send s n);
    cwnd = λ s. s.cwnd;
    bytes_in_flight = λ s. s.bytes_in_flight;
    in_recovery = λ s. s.in_recovery;
    flight-sent = λ s n. refl;
    flight-acked = λ s n pn now. cubic-acked s n now;
    flight-lost = cubic-lost;
    flight-discarded = λ s n. refl;
    flight-needs_retransmit = λ s now. refl;
    flight-can_send = λ s n now. refl;
  }
