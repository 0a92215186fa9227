-- ===== src/Listener/Happy/Answers.antt =====
-- What DialHappy returns.
use quic_test.Prelude.{
  ℕ, ◌+◌, ◌<◌, ◌≡◌, refl, sym, ap, subst, Option, none, some, List, [], ◌∷◌, arith, ◌==◌, if-cases,
  length, All, length-replicate,
}
use quic_test.Listener.Happy.{
  DialOutcome, connected, failed, Attempt, pausing, sent, Answer, chose, no_connection, Happy,
  Start, no_addresses, dials_directly, concurrent, new_happy, dial_happy, get_elem?, or_first,
  take_result, cancels, turns, receives, Runs, begin, later,
}
use quic_test.Listener.Happy.Attempts.{
  total, has_sent, has_won, has_quit, total-replicate, IsFailure, total-has_sent, all_failures,
}
use quic_test.Listener.Happy.Invariant.{
  wins_of, chosen, IsError, IsFirst, IsKnown, IsAnswer, IsSound, turned-IsSound,
}

-- The first error stays, and there is one behind a failure.
or_first-IsError :
    (xs : List Attempt) (f : Option ℕ) (e : ℕ)
    → IsFirst xs f
    → IsError xs e
    → (x : ℕ) × (or_first f e ≡ some x) × IsError xs x
or_first-IsError xs none e h k = (e, refl, k)
or_first-IsError xs (some f) e h k = (f, refl, h)

take_result-IsSound :
    (n : ℕ) (h : Happy) (r : ℕ × DialOutcome) (rest : List (ℕ × DialOutcome))
    → h.returned ≡ none
    → h.results ≡ r ∷ rest
    → IsSound n h
    → IsSound n (take_result h r rest)
unfolding take_result
take_result-IsSound n h (i, connected) rest none_yet e s =
    let (k, ks) = subst (λ (rs : List (ℕ × DialOutcome)). All (IsKnown h.attempts) rs) e s.known in
    record {
      size = s.size;
      all_sent = omega (arith, s.all_sent, ap length e);
      all_won = omega (arith, s.all_won, ap wins_of e, ap chosen none_yet);
      known = ks;
      first = s.first;
      answer = k;
      quiet = λ c. cc;
    }
take_result-IsSound n h (i, failed x) rest none_yet e s =
    let (k, ks) = subst (λ (rs : List (ℕ × DialOutcome)). All (IsKnown h.attempts) rs) e s.known in
    let (y, same, error) = or_first-IsError h.attempts h.first_err x s.first (i, k) in
    let first : IsFirst h.attempts (or_first h.first_err x) =
      subst (λ (f : Option ℕ). IsFirst h.attempts f) (sym same) error in
    let early : h.received < n =
      subst (λ (a : Option Answer). IsAnswer n h.attempts h.received a) none_yet s.answer in
    let count : total has_sent h.attempts ≡ h.received + 1 + length rest =
      omega (arith, s.all_sent, ap length e) in
    let won : total has_won h.attempts ≡ wins_of rest + 0 =
      omega (arith, s.all_won, ap wins_of e, ap chosen none_yet) in
    if-cases (λ (g : Happy). IsSound n g) (h.received + 1 == length h.attempts)
      (λ t. record {
        size = s.size;
        all_sent = count;
        all_won = won;
        known = ks;
        first = first;
        answer = (ground (arith, t, s.size), (y, same, error));
        quiet = λ c. cc;
      })
      (λ t. record {
        size = s.size;
        all_sent = count;
        all_won = omega (arith, won, ap chosen none_yet);
        known = ks;
        first = first;
        answer =
            subst (λ (a : Option Answer). IsAnswer n h.attempts (h.received + 1) a) (sym none_yet)
              (ground (arith, t, s.size, early));
        quiet = s.quiet;
      })

new_happy-IsSound : (n : ℕ) → 0 < n → IsSound n (new_happy n)
new_happy-IsSound n some_address = record {
  size = length-replicate n pausing;
  all_sent = omega (arith, total-replicate has_sent n refl);
  all_won = omega (arith, total-replicate has_won n refl);
  known = tt;
  first = tt;
  answer = some_address;
  quiet = λ c. total-replicate has_quit n refl;
}

abbrev Begins : ℕ → Start → Type 0
Begins n no_addresses = Unit
Begins n dials_directly = Unit
Begins n (concurrent h) = IsSound n h

dial_happy-Begins : (n : ℕ) → Begins n (dial_happy n)
dial_happy-Begins n =
    if-cases (λ (s : Start). Begins n s) (n == 0) (λ t. tt)
      (λ t.
        if-cases (λ (s : Start). Begins n s) (n == 1) (λ u. tt)
          (λ u. new_happy-IsSound n (ground (arith, t))))

pub Runs-IsSound : (n : ℕ) (h : Happy) → Runs n h → IsSound n h
Runs-IsSound n _ (begin h e) = subst (λ (s : Start). Begins n s) e (dial_happy-Begins n)
Runs-IsSound n _ (later {h} run (cancels)) =
    let s = Runs-IsSound n h run in
    record {
      size = s.size;
      all_sent = s.all_sent;
      all_won = s.all_won;
      known = s.known;
      first = s.first;
      answer = s.answer;
      quiet = λ c. cc;
    }
Runs-IsSound n _ (later {h} run (turns i {a} {b} e turn)) =
    turned-IsSound n h i a b e turn (Runs-IsSound n h run)
Runs-IsSound n _ (later {h} run (receives r rest none_yet e)) =
    take_result-IsSound n h r rest none_yet e (Runs-IsSound n h run)

-- What DialHappy returns: a connection that an attempt has made and sent, so that nothing has closed it,
-- or an error when every attempt has failed, and then the error of one of them.
abbrev pub Tells : List Attempt → Option Answer → Type 0
Tells attempts none = Unit
Tells attempts (some (chose i)) = get_elem? attempts i ≡ some (sent connected)
Tells attempts (some (no_connection e)) =
    All IsFailure attempts × ((x : ℕ) × (e ≡ some x) × IsError attempts x)

tells :
    (n : ℕ) (h : Happy) (a : Option Answer)
    → h.returned ≡ a
    → IsSound n h
    → IsAnswer n h.attempts h.received a
    → Tells h.attempts a
tells n h none e s k = tt
tells n h (some (chose i)) e s k = k
tells n h (some (no_connection f)) e s (every, error) = (
  all_failures h.attempts (omega (arith, every, s.size, s.all_sent, total-has_sent h.attempts))
      (omega (arith, s.all_won, ap chosen e, none_waits h.results none_left)),
  error,
)
  where
    none_left : length h.results ≡ 0
    none_left = omega (arith, every, s.size, s.all_sent, total-has_sent h.attempts)

    none_waits : (rs : List (ℕ × DialOutcome)) → length rs ≡ 0 → wins_of rs ≡ 0
    none_waits [] e = refl
    none_waits (r ∷ rs) e = absurd (omega (arith, e))

-- However the goroutines of DialHappy and a cancellation by the caller follow one another: when it has
-- returned a connection, the attempt that it names has made this connection and sent it, so that nothing
-- has closed it; when it has returned an error, every attempt has failed and has said so, and the error
-- is there and is the one of an attempt.
pub Runs-Tells : (n : ℕ) (h : Happy) → Runs n h → Tells h.attempts h.returned
Runs-Tells n h run = let s = Runs-IsSound n h run in tells n h h.returned refl s s.answer
