-- ===== src/Listener/Happy/Progress.antt =====
-- The progress of DialHappy.
use quic_test.Prelude.{
  ℕ, ◌+◌, ◌<◌, ◌≡◌, refl, sym, ap, subst, ◌⊎◌, inl, inr, Bool, true, false, Option, none, some,
  List, [], ◌∷◌, arith, ◌==◌, if-cases, length, length-append,
}
use quic_test.Listener.Happy.{
  DialOutcome, connected, failed, Attempt, pausing, dialing, holding, sent, dropped, gave_up,
  Answer, Happy, Turn, starts, stops, dials, sends, drops, posted, get_elem?, turned, take_result,
  Step, cancels, turns, receives, Runs,
}
use quic_test.Listener.Happy.Attempts.{total, total-set, some-Turn}
use quic_test.Listener.Happy.Invariant.{IsAnswer, IsSound}
use quic_test.Listener.Happy.Answers.{Runs-IsSound}

-- The turns that an attempt has left, and one for taking its result.
abbrev pub rank : Attempt → ℕ
rank pausing = 4
rank dialing = 3
rank (holding o) = 2
rank (sent o) = 0
rank (dropped o) = 0
rank gave_up = 0

abbrev pub work : Happy → ℕ
work h = total rank h.attempts + length h.results

Turn-rank :
    {cancelled : Bool} {a b : Attempt} (i : ℕ)
    → Turn cancelled a b
    → rank b + length (posted i b) < rank a
Turn-rank i (starts c) = omega arith
Turn-rank i (stops c) = omega arith
Turn-rank i (dials o) = omega arith
Turn-rank i (sends o) = omega arith
Turn-rank i (drops o c) = omega arith

turned-work :
    (h : Happy) (i : ℕ) (a b : Attempt)
    → get_elem? h.attempts i ≡ some a
    → Turn h.cancelled a b
    → work (turned h i b) < work h
turned-work h i a b e turn = omega (
  arith,
  total-set rank h.attempts i a b e,
  Turn-rank i turn,
  length-append h.results (posted i b),
)

take_result-work :
    (h : Happy) (r : ℕ × DialOutcome) (rest : List (ℕ × DialOutcome))
    → h.results ≡ r ∷ rest
    → work (take_result h r rest) < work h
unfolding take_result
take_result-work h (i, connected) rest e = omega (arith, ap length e)
take_result-work h (i, failed x) rest e =
    if-cases (λ (g : Happy). work g < work h) (h.received + 1 == length h.attempts)
      (λ t. omega (arith, ap length e)) (λ t. omega (arith, ap length e))

-- A step is a cancellation, or it leaves less to do.
step-work : (h k : Happy) → Step h k → (k ≡ record h { cancelled = true }) ⊎ (work k < work h)
step-work h _ cancels = inl refl
step-work h _ (turns i {a} {b} e turn) = inr (turned-work h i a b e turn)
step-work h _ (receives r rest none_yet e) = inr (take_result-work h r rest e)

next_step :
    (n : ℕ) (h : Happy) (rs : List (ℕ × DialOutcome))
    → h.results ≡ rs
    → h.returned ≡ none
    → h.cancelled ≡ false
    → IsSound n h
    → (g : Happy) × Step h g × (work g < work h)
next_step n h (r ∷ rest) e none_yet uncancelled s =
    (take_result h r rest, receives r rest none_yet e, take_result-work h r rest e)
next_step n h [] e none_yet uncancelled s =
    let early : h.received < n =
      subst (λ (a : Option Answer). IsAnswer n h.attempts h.received a) none_yet s.answer in
    let (i, a, b, f, open_turn) =
      some-Turn h.attempts (omega (arith, s.all_sent, ap length e, early, s.size))
        (s.quiet uncancelled) in
    let turn : Turn h.cancelled a b =
      subst (λ (c : Bool). Turn c a b) (sym uncancelled) open_turn in
    (turned h i b, turns i f turn, turned-work h i a b f turn)

-- While DialHappy has not returned and the caller has not cancelled the context, it is not stuck, and it
-- does not go on for ever: there is a step that leaves less to do, and so does every step, except that
-- the caller may cancel the context.
pub Runs-shrinks :
    (n : ℕ) (h k : Happy)
    → Runs n h
    → h.returned ≡ none
    → h.cancelled ≡ false
    → Step h k
    → ((k ≡ record h { cancelled = true }) ⊎ (work k < work h))
      × ((g : Happy) × Step h g × (work g < work h))
Runs-shrinks n h k run none_yet uncancelled step =
    (step-work h k step, next_step n h h.results refl none_yet uncancelled (Runs-IsSound n h run))
