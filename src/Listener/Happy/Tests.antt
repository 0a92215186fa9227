-- ===== src/Listener/Happy/Tests.antt =====
-- Two addresses: the first attempt fails, the second one connects.
use quic_test.Prelude.{◌<◌, ◌≡◌, refl, ◌⊎◌, true, none, some, [], arith}
use quic_test.Listener.Happy.{
  connected, failed, chose, Happy, new_happy, starts, dials, sends, take_result, Step, cancels,
  turns, receives, Runs, begin, later,
}
use quic_test.Listener.Happy.Answers.{Tells, Runs-Tells}
use quic_test.Listener.Happy.Progress.{work, Runs-shrinks}
use quic_test.Listener.Happy.Blocked.{blocked, blocked-Step}

-- The first attempt dials, fails and sends the error 7.
abbrev one_failed : (h : Happy) × Runs 2 h
one_failed = (
  _,
  later
      (later (later (begin (new_happy 2) refl) (turns 0 refl (starts refl)))
        (turns 0 refl (dials (failed 7))))
      (turns 0 refl (sends (failed 7))),
)

-- The second attempt connects, and the loop takes both results.
abbrev one_chosen : (h : Happy) × Runs 2 h
unfolding take_result
one_chosen = (
  _,
  later
      (later
        (later
          (later (later one_failed.1 (turns 1 refl (starts refl))) (turns 1 refl (dials connected)))
          (receives (0, failed 7) [] refl refl))
        (turns 1 refl (sends connected)))
      (receives (1, connected) [] refl refl),
)

chooses : one_chosen.0.returned ≡ some (chose 1)
unfolding take_result
chooses = refl

Runs-Tells_example : Tells one_chosen.0.attempts one_chosen.0.returned
Runs-Tells_example = Runs-Tells 2 one_chosen.0 one_chosen.1

Runs-shrinks_example :
    ((record one_failed.0 { cancelled = true } ≡ record one_failed.0 { cancelled = true })
      ⊎ (work (record one_failed.0 { cancelled = true }) < work one_failed.0))
    × ((g : Happy) × Step one_failed.0 g × (work g < work one_failed.0))
Runs-shrinks_example =
    Runs-shrinks 2 one_failed.0 (record one_failed.0 { cancelled = true }) one_failed.1 refl refl
      cancels

blocked-Step_example :
    Runs 3 (blocked 3)
    × ((blocked 3).returned ≡ none)
    × (record (blocked 3) { cancelled = true } ≡ blocked 3)
blocked-Step_example =
    blocked-Step 3 (record (blocked 3) { cancelled = true }) (omega arith) cancels
