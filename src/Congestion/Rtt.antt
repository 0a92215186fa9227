-- ===== src/Congestion/Rtt.antt =====
-- quic/utils/rtt.go. A duration is an int64 pattern of nanoseconds. UpdateRTT is given the time since
-- the packet was sent; its early return for a packet without a send time is the caller's.
pub mod Bounds
use quic_test.Prelude.{ℕ, ◌+◌, ◌*◌, ◌&&◌, ◌||◌, ◌==◌, if◌then◌else◌, u64, sub64, lt_int64, le_int64}
use quic_test.Protocol.StreamId.{div_int64}

pub record RttStats : Type 0 where
  pub min_rtt : ℕ
  pub smoothed_rtt : ℕ
  pub rttvar : ℕ
  pub max_ack_delay : ℕ
  pub initial_rtt : ℕ
  pub latest_rtt : ℕ

unfoldable pub new_rtt_stats : RttStats
new_rtt_stats = record {
  min_rtt = 0;
  smoothed_rtt = 0;
  rttvar = 166000000;
  max_ack_delay = 25000000;
  initial_rtt = 333000000;
  latest_rtt = 0;
}

-- The sample, less the delay that the peer reports, up to the greatest delay.
unfoldable pub adjusted_rtt : RttStats → ℕ → ℕ → ℕ
adjusted_rtt r elapsed ack_delay =
    let sample : ℕ = if le_int64 elapsed 0 then 1000 else elapsed in
    let delay : ℕ = if lt_int64 ack_delay r.max_ack_delay then ack_delay else r.max_ack_delay in
    let adjusted = sub64 sample delay in if le_int64 adjusted 0 then sample else adjusted

unfoldable pub distance : ℕ → ℕ → ℕ
distance a b = let d = sub64 a b in if lt_int64 d 0 then sub64 0 d else d

-- The first sample, and a further one.
unfoldable pub smooth : RttStats → ℕ → RttStats
unfolding distance
smooth r sample =
    if r.smoothed_rtt == 0 || r.smoothed_rtt == r.initial_rtt
    then record r { smoothed_rtt = sample; rttvar = div_int64 sample 2 }
    else record r {
      rttvar = div_int64 (u64 (3 * r.rttvar + distance r.smoothed_rtt sample)) 4;
      smoothed_rtt = div_int64 (u64 (7 * r.smoothed_rtt + sample)) 8;
    }

unfoldable pub update_rtt : RttStats → ℕ → ℕ → RttStats
unfolding adjusted_rtt smooth
update_rtt r elapsed ack_delay =
    let sample = adjusted_rtt r elapsed ack_delay in
    smooth
      (record r {
        latest_rtt = sample;
        min_rtt = if r.min_rtt == 0 || lt_int64 sample r.min_rtt then sample else r.min_rtt;
      })
      sample

unfoldable pub pto : RttStats → ℕ
pto r = let t = u64 (r.smoothed_rtt + 4 * r.rttvar) in if lt_int64 t 200000000 then 200000000 else t

-- `nine_eighths d` stands for math.Ceil(float64(d) * 9.0 / 8.0) as a duration.
module _ (nine_eighths : ℕ → ℕ) where
  unfoldable pub loss_delay : RttStats → ℕ
  loss_delay r =
      let longest : ℕ =
        if lt_int64 r.smoothed_rtt r.latest_rtt then r.latest_rtt else r.smoothed_rtt in
      let threshold = u64 (nine_eighths longest + 4 * r.rttvar) in
      let double = u64 (2 * r.smoothed_rtt) in
      if lt_int64 threshold double && lt_int64 0 r.smoothed_rtt then double else threshold
