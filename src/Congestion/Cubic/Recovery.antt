-- ===== src/Congestion/Cubic/Recovery.antt =====
-- The recovery of CUBIC: how it begins and how it ends.
use quic_test.Prelude.{ℕ, ◌≡◌, refl, ◌∙◌, true, arith}
use quic_test.Congestion.Floats.{Floats}
use quic_test.Congestion.Cubic.{
  Cubic, slow_start, cubic_update, on_packet_sent, on_packet_acked, on_packet_lost,
  on_packet_discarded, set_rtt,
}

module _ (fl : Floats) where
  -- What is fixed by the loss that began the recovery.
  abbrev pub KeepsRecovery : Cubic → Cubic → Type 0
  KeepsRecovery c t =
      (t.in_recovery ≡ c.in_recovery)
      × (t.recovery_point ≡ c.recovery_point)
      × (t.ssthresh ≡ c.ssthresh)
      × (t.w_max ≡ c.w_max)
      × (t.last_loss_time ≡ c.last_loss_time)

  -- The calls of a connection other than the one after a timeout.
  pub data Step : Cubic → Cubic → Type 0 where
    sent : {c : Cubic} (bytes : ℕ) → Step c (on_packet_sent c bytes)
    acked : {c : Cubic} (bytes now : ℕ) → Step c (on_packet_acked fl c bytes now).0
    lost : {c : Cubic} (largest now : ℕ) → Step c (on_packet_lost fl c largest now)
    discarded : {c : Cubic} (bytes : ℕ) → Step c (on_packet_discarded c bytes)
    measured : {c : Cubic} (rtt : ℕ) → Step c (set_rtt c rtt)

  pub data Run : Cubic → Cubic → Type 0 where
    done : {c : Cubic} → Run c c
    and_then : {c d e : Cubic} → Run c d → Step d e → Run c e

  on_packet_acked-KeepsRecovery :
      (c : Cubic) (acked_bytes now : ℕ) → KeepsRecovery c (on_packet_acked fl c acked_bytes now).0
  unfolding on_packet_acked slow_start cubic_update
  on_packet_acked-KeepsRecovery c acked_bytes now = ground arith

  Step-KeepsRecovery : (c d : Cubic) → Step c d → c.in_recovery ≡ true → KeepsRecovery c d
  unfolding on_packet_sent on_packet_lost on_packet_discarded set_rtt
  Step-KeepsRecovery c _ (sent bytes) e = (refl, refl, refl, refl, refl)
  Step-KeepsRecovery c _ (acked bytes now) e = on_packet_acked-KeepsRecovery c bytes now
  Step-KeepsRecovery c _ (lost largest now) e = ground arith
  Step-KeepsRecovery c _ (discarded bytes) e = (refl, refl, refl, refl, refl)
  Step-KeepsRecovery c _ (measured rtt) e = ground arith

  keeps : (c d : Cubic) → Run c d → c.in_recovery ≡ true → KeepsRecovery c d
  keeps c _ done e = (refl, refl, refl, refl, refl)
  keeps c d (and_then {d = m} r s) e =
      let (a1, a2, a3, a4, a5) = keeps c m r e in
      let (b1, b2, b3, b4, b5) = Step-KeepsRecovery m d s (a1 ∙ e) in
      (b1 ∙ a1, b2 ∙ a2, b3 ∙ a3, b4 ∙ a4, b5 ∙ a5)

  -- Once a loss has put CUBIC into recovery, nothing but a timeout takes it out: however packets are
  -- sent, acknowledged, lost and discarded then, it stays in recovery with the recovery point, the
  -- threshold, W_max and the time of that loss. Every later loss is ignored.
  pub Run-KeepsRecovery :
      (c d : Cubic)
      → Run c d
      → c.in_recovery ≡ true
      → KeepsRecovery c d × ((largest now : ℕ) → on_packet_lost fl d largest now ≡ d)
  unfolding on_packet_lost
  Run-KeepsRecovery c d r e =
      let k = keeps c d r e in
      let still : d.in_recovery ≡ true = k.0 ∙ e in (k, λ largest now. ground (arith, still))
