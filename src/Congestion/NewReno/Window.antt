-- ===== src/Congestion/NewReno/Window.antt =====
-- The congestion window of NewReno, and the bytes in flight.
use quic_test.Prelude.{
  ℕ, ◌^◌, ◌≤◌, ◌<◌, ◌≡◌, refl, inl, inr, true, false, ◌&&◌, not, arith, Bool-cases, sub64, lt_int64,
  le_int64,
}
use quic_test.Congestion.NewReno.{
  NewReno, slow_start, at_least_minimum, half, on_packet_lost, congestion_avoidance, grow,
  on_packet_acked,
}

-- The window and the threshold are at least the least window, and all three are positive int64s.
unfoldable pub IsOpen : NewReno → Type 0
IsOpen r =
    (1 ≤ r.min_cwnd)
    × (r.min_cwnd ≤ r.cwnd)
    × (r.min_cwnd ≤ r.ssthresh)
    × (r.cwnd < 2 ^ 63)
    × (r.ssthresh < 2 ^ 63)

slow_start_bounds :
    (r : NewReno) (acked : ℕ)
    → IsOpen r
    → acked < 2 ^ 31
    → r.cwnd < 2 ^ 62
    → lt_int64 r.cwnd r.ssthresh ≡ true
    → (r.cwnd ≤ slow_start r acked) × (slow_start r acked ≤ r.ssthresh)
unfolding slow_start IsOpen
slow_start_bounds r acked h few small below = (ground arith, ground arith)

pub at_least_minimum_bounds :
    (r : NewReno)
    → IsOpen r
    → let v = at_least_minimum r (half r.cwnd) in (r.min_cwnd ≤ v) × (v ≤ r.cwnd)
unfolding at_least_minimum half IsOpen
at_least_minimum_bounds r h = (ground arith, ground arith)

module _ (increase : ℕ → ℕ → ℕ → ℕ) where
  congestion_avoidance_bounds :
      (r : NewReno) (acked : ℕ)
      → r.cwnd < 2 ^ 62
      → let v = congestion_avoidance increase r acked in (r.cwnd < v) × (v < 2 ^ 63)
  unfolding congestion_avoidance
  congestion_avoidance_bounds r acked small =
      let i = increase acked r.max_datagram_size r.cwnd in (ground arith, ground arith)

  grow-IsOpen :
      (r : NewReno) (bytes : ℕ)
      → IsOpen r
      → bytes < 2 ^ 31
      → r.cwnd < 2 ^ 62
      → IsOpen (grow increase r bytes) × (r.cwnd ≤ (grow increase r bytes).cwnd)
  unfolding grow IsOpen
  grow-IsOpen r bytes h few small =
      let (lo, hi) = congestion_avoidance_bounds r bytes small in
      let (positive, fits, above, short, brief) = h in
      elim (Bool-cases (lt_int64 r.cwnd r.ssthresh)) [
        | inl e ↦
            let (a, b) = slow_start_bounds r bytes h few small e in
            rw e ((positive, omega arith, above, omega arith, brief), a)
        | inr e ↦ rw e ((positive, omega arith, above, hi, brief), omega arith)
      ]

  -- An acknowledgement keeps the window open. During recovery one of a packet up to the recovery
  -- point leaves the connection in recovery, and the method returns false; after every other one the
  -- connection is not in recovery, and the method returns true. In either case the window does not
  -- shrink, and the bytes leave the flight. (A packet of fewer than 2 ^ 31 bytes, a window below
  -- 2 ^ 62.)
  pub on_packet_acked-IsOpen :
      (r : NewReno) (bytes packet_number : ℕ)
      → IsOpen r
      → bytes < 2 ^ 31
      → r.cwnd < 2 ^ 62
      → let (t, updated) = on_packet_acked increase r bytes packet_number in
        IsOpen t
        × (t.bytes_in_flight ≡ sub64 r.bytes_in_flight bytes)
        × (updated ≡ not (r.in_recovery && le_int64 packet_number r.recovery_point))
        × (t.in_recovery ≡ not updated)
        × (r.cwnd ≤ t.cwnd)
  unfolding on_packet_acked IsOpen
  on_packet_acked-IsOpen r bytes packet_number h few small =
      let started : le_int64 r.cwnd 0 ≡ false = ground arith in
      let t : NewReno = record r {
        in_recovery = false;
        bytes_in_flight = sub64 r.bytes_in_flight bytes;
      } in
      let (open_still, wider) = grow-IsOpen t bytes h few small in
      elim (Bool-cases (r.in_recovery && le_int64 packet_number r.recovery_point)) [
        | inl e ↦ rw (started, e) (h, refl, refl, ground arith, omega arith)
        | inr e ↦ rw (started, e) (open_still, refl, refl, refl, wider)
      ]

-- A loss leaves the window open and does not enlarge it. It starts a recovery, in which further losses change
-- nothing: one recovery takes the window down once.
pub on_packet_lost-once :
    (r : NewReno) (first second : ℕ)
    → IsOpen r
    → let t = on_packet_lost r first in
      IsOpen t × (t.cwnd ≤ r.cwnd) × (t.in_recovery ≡ true) × (on_packet_lost t second ≡ t)
unfolding on_packet_lost IsOpen
on_packet_lost-once r first second h =
    let (a, b) = at_least_minimum_bounds r h in
    elim (Bool-cases r.in_recovery) [
      | inl e ↦ rw e (h, omega arith, refl, refl)
      | inr e ↦ rw e ((h.0, a, a, omega arith, omega arith), b, refl, refl)
    ]
