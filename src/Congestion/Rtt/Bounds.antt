-- ===== src/Congestion/Rtt/Bounds.antt =====
-- quic/utils/rtt.go: the order of the round-trip times.
use quic_test.Prelude.{
  ℕ, ◌+◌, ◌*◌, ◌^◌, ◌≤◌, ◌<◌, min, ◌≡◌, refl, ◌⊎◌, inl, inr, ◌||◌, arith, ◌==◌, if◌then◌else◌,
  if-cases, lt_int64,
}
use quic_test.Congestion.Rtt.{RttStats, adjusted_rtt, distance, smooth, update_rtt, pto}

-- Durations below 2 ^ 58 ns, with the least one at most the smoothed and the latest one; before the
-- first sample there is no smoothed one.
unfoldable pub IsTimed : RttStats → Type 0
IsTimed r =
    (r.min_rtt ≤ r.smoothed_rtt)
    × (r.min_rtt ≤ r.latest_rtt)
    × ((1 ≤ r.min_rtt) ⊎ (r.smoothed_rtt ≡ 0))
    × (r.smoothed_rtt < 2 ^ 58)
    × (r.latest_rtt < 2 ^ 58)
    × (r.rttvar < 2 ^ 58)
    × (r.max_ack_delay < 2 ^ 58)

adjusted_rtt_bounds :
    (r : RttStats) (elapsed ack_delay : ℕ)
    → r.max_ack_delay < 2 ^ 58
    → elapsed < 2 ^ 58
    → ack_delay < 2 ^ 63
    → let a = adjusted_rtt r elapsed ack_delay in (1 ≤ a) × (a < 2 ^ 58)
unfolding adjusted_rtt
adjusted_rtt_bounds r elapsed ack_delay h k l = (ground arith, ground arith)

distance_bounds : (a b : ℕ) → a < 2 ^ 58 → b < 2 ^ 58 → distance a b < 2 ^ 58
unfolding distance
distance_bounds a b h k = ground arith

abbrev IsSmooth : RttStats → ℕ → RttStats → Type 0
IsSmooth r sample t =
    (((1 ≤ r.smoothed_rtt) × (min r.smoothed_rtt sample ≤ t.smoothed_rtt))
      ⊎ (t.smoothed_rtt ≡ sample))
    × (t.smoothed_rtt < 2 ^ 58)
    × (1 ≤ t.smoothed_rtt)
    × (t.rttvar < 2 ^ 58)
    × (t.min_rtt ≡ r.min_rtt)
    × (t.latest_rtt ≡ r.latest_rtt)
    × (t.max_ack_delay ≡ r.max_ack_delay)

smooth_bounds :
    (r : RttStats) (sample : ℕ)
    → 1 ≤ sample
    → sample < 2 ^ 58
    → r.smoothed_rtt < 2 ^ 58
    → r.rttvar < 2 ^ 58
    → IsSmooth r sample (smooth r sample)
unfolding smooth
smooth_bounds r sample h k s v =
    let d = distance_bounds r.smoothed_rtt sample s k in
    if-cases (IsSmooth r sample) (r.smoothed_rtt == 0 || r.smoothed_rtt == r.initial_rtt)
      (λ e. (inr refl, k, h, ground arith, refl, refl, refl))
      (λ e. (
        inl (ground arith, ground arith),
        ground arith,
        ground arith,
        ground arith,
        refl,
        refl,
        refl,
      ))

pto_bounds :
    (r : RttStats)
    → r.smoothed_rtt < 2 ^ 58
    → r.rttvar < 2 ^ 58
    → (200000000 ≤ pto r) × (r.smoothed_rtt + 4 * r.rttvar ≤ pto r)
unfolding pto
pto_bounds r h k = (ground arith, ground arith)

-- The smoothed time is at least the new least one.
least_smoothed :
    (r : RttStats) (sample m smoothed : ℕ)
    → IsTimed r
    → ((1 ≤ r.smoothed_rtt) × (min r.smoothed_rtt sample ≤ smoothed)) ⊎ (smoothed ≡ sample)
    → m ≤ sample
    → (r.min_rtt ≡ 0) ⊎ (m ≤ r.min_rtt)
    → m ≤ smoothed
unfolding IsTimed
least_smoothed r sample m smoothed h near e d = ground arith

-- UpdateRTT with a time below 2 ^ 58 ns and a delay that is not negative keeps the round-trip times in
-- order: the least one is positive and at most the smoothed and the latest one, and it does not grow
-- once there is a sample; all stay below 2 ^ 58 ns. PTO is then at least 200 ms and does not overflow.
pub update_rtt-IsTimed :
    (r : RttStats) (elapsed ack_delay : ℕ)
    → IsTimed r
    → elapsed < 2 ^ 58
    → ack_delay < 2 ^ 63
    → let t = update_rtt r elapsed ack_delay in
      IsTimed t
      × (1 ≤ t.min_rtt)
      × ((r.min_rtt ≡ 0) ⊎ (t.min_rtt ≤ r.min_rtt))
      × (200000000 ≤ pto t)
      × (t.smoothed_rtt + 4 * t.rttvar ≤ pto t)
unfolding update_rtt IsTimed
update_rtt-IsTimed r elapsed ack_delay h k l =
    let (least, last, begun, small, brief, steady, waits) = h in
    let sample = adjusted_rtt r elapsed ack_delay in
    let (some_time, bounded) = adjusted_rtt_bounds r elapsed ack_delay waits k l in
    let m : ℕ = if r.min_rtt == 0 || lt_int64 sample r.min_rtt then sample else r.min_rtt in
    let m_pos : 1 ≤ m = ground arith in
    let m_le : m ≤ sample = ground arith in
    let m_less : (r.min_rtt ≡ 0) ⊎ (m ≤ r.min_rtt) = ground arith in
    let s : RttStats = record r { latest_rtt = sample; min_rtt = m } in
    let t = smooth s sample in
    let smoothed = smooth_bounds s sample some_time bounded small steady in
    let (near, short, positive, settled, same_min, same_last, same_delay) = smoothed in
    let above : m ≤ t.smoothed_rtt = least_smoothed r sample m t.smoothed_rtt h near m_le m_less in
    let (floor, whole) = pto_bounds t short settled in
    (
      (omega arith, omega arith, inl (omega arith), short, omega arith, settled, omega arith),
      omega arith,
      rw same_min m_less,
      floor,
      whole,
    )
