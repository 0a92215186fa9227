-- ===== src/Listener/Happy/Attempts.antt =====
-- Weighted totals over the attempts.
use quic_test.Prelude.{
  ℕ, zero, suc, ◌+◌, ◌≤◌, ◌<◌, ◌≡◌, refl, ap, ◌≢◌, inl, inr, false, some, List, [], ◌∷◌, arith,
  ◌==◌, Bool-cases, some_injective, length, replicate, All,
}
use quic_test.Listener.Happy.{
  DialOutcome, connected, failed, Attempt, pausing, dialing, holding, sent, dropped, gave_up,
  get_elem?, set, Turn, starts, dials, sends,
}

abbrev pub total : (Attempt → ℕ) → List Attempt → ℕ
total w [] = 0
total w (a ∷ xs) = w a + total w xs

pub total-set :
    (w : Attempt → ℕ) (xs : List Attempt) (i : ℕ) (a b : Attempt)
    → get_elem? xs i ≡ some a
    → total w (set xs i b) + w a ≡ total w xs + w b
total-set w [] i a b e = absurd (cc)
total-set w (x ∷ xs) zero a b e = omega (arith, ap w (some_injective x a e))
total-set w (x ∷ xs) (suc i) a b e = omega (arith, total-set w xs i a b e)

pub length-set : (xs : List Attempt) (i : ℕ) (b : Attempt) → length (set xs i b) ≡ length xs
length-set [] i b = refl
length-set (x ∷ xs) zero b = refl
length-set (x ∷ xs) (suc i) b = ap suc (length-set xs i b)

pub get_elem?-set_self :
    (xs : List Attempt) (i : ℕ) (a b : Attempt)
    → get_elem? xs i ≡ some a
    → get_elem? (set xs i b) i ≡ some b
get_elem?-set_self [] i a b e = absurd (cc)
get_elem?-set_self (x ∷ xs) zero a b e = refl
get_elem?-set_self (x ∷ xs) (suc i) a b e = get_elem?-set_self xs i a b e

pub get_elem?-set_other :
    (xs : List Attempt) (i j : ℕ) (b : Attempt) → j ≢ i → get_elem? (set xs i b) j ≡ get_elem? xs j
get_elem?-set_other [] i j b ne = refl
get_elem?-set_other (x ∷ xs) zero zero b ne = absurd (ne refl)
get_elem?-set_other (x ∷ xs) zero (suc j) b ne = refl
get_elem?-set_other (x ∷ xs) (suc i) zero b ne = refl
get_elem?-set_other (x ∷ xs) (suc i) (suc j) b ne =
    get_elem?-set_other xs i j b (λ e. ne (ap suc e))

-- One for an attempt that has sent its outcome, that has sent a connection, or that has ended in another
-- way.
abbrev pub has_sent : Attempt → ℕ
has_sent (sent o) = 1
has_sent pausing = 0
has_sent dialing = 0
has_sent (holding o) = 0
has_sent (dropped o) = 0
has_sent gave_up = 0

abbrev pub wins : DialOutcome → ℕ
wins connected = 1
wins (failed e) = 0

abbrev pub has_won : Attempt → ℕ
has_won (sent o) = wins o
has_won pausing = 0
has_won dialing = 0
has_won (holding o) = 0
has_won (dropped o) = 0
has_won gave_up = 0

abbrev pub has_quit : Attempt → ℕ
has_quit (sent o) = 0
has_quit pausing = 0
has_quit dialing = 0
has_quit (holding o) = 0
has_quit (dropped o) = 1
has_quit gave_up = 1

pub total-replicate : (w : Attempt → ℕ) (n : ℕ) → w pausing ≡ 0 → total w (replicate n pausing) ≡ 0
total-replicate w zero e = refl
total-replicate w (suc n) e = omega (arith, e, total-replicate w n e)

-- The attempt has sent an error.
abbrev pub IsFailure : Attempt → Type 0
IsFailure a = (e : ℕ) × (a ≡ sent (failed e))

has_sent-le : (a : Attempt) → has_sent a ≤ 1
has_sent-le pausing = omega arith
has_sent-le dialing = omega arith
has_sent-le (holding o) = omega arith
has_sent-le (sent o) = omega arith
has_sent-le (dropped o) = omega arith
has_sent-le gave_up = omega arith

pub total-has_sent : (xs : List Attempt) → total has_sent xs ≤ length xs
total-has_sent [] = omega arith
total-has_sent (a ∷ xs) = omega (arith, has_sent-le a, total-has_sent xs)

failure : (a : Attempt) → has_sent a ≡ 1 → has_won a ≡ 0 → IsFailure a
failure (sent connected) s w = absurd (omega (arith, w))
failure (sent (failed e)) s w = (e, refl)
failure pausing s w = absurd (omega (arith, s))
failure dialing s w = absurd (omega (arith, s))
failure (holding o) s w = absurd (omega (arith, s))
failure (dropped o) s w = absurd (omega (arith, s))
failure gave_up s w = absurd (omega (arith, s))

pub all_failures :
    (xs : List Attempt) → total has_sent xs ≡ length xs → total has_won xs ≡ 0 → All IsFailure xs
all_failures [] s w = tt
all_failures (a ∷ xs) s w =
    let one = has_sent-le a in
    let rest = total-has_sent xs in
    (
      failure a (omega (arith, s, one, rest)) (omega (arith, w)),
      all_failures xs (omega (arith, s, one, rest)) (omega (arith, w)),
    )

-- An attempt that has not ended has a turn, where the context is not cancelled.
has-Turn : (a : Attempt) → has_sent a ≡ 0 → has_quit a ≡ 0 → (b : Attempt) × Turn false a b
has-Turn pausing s q = (dialing, starts refl)
has-Turn dialing s q = (holding connected, dials connected)
has-Turn (holding o) s q = (sent o, sends o)
has-Turn (sent o) s q = absurd (omega (arith, s))
has-Turn (dropped o) s q = absurd (omega (arith, q))
has-Turn gave_up s q = absurd (omega (arith, q))

pub some-Turn :
    (xs : List Attempt)
    → total has_sent xs < length xs
    → total has_quit xs ≡ 0
    → (i : ℕ) × (a : Attempt) × (b : Attempt) × (get_elem? xs i ≡ some a) × Turn false a b
some-Turn [] s q = absurd (omega (arith, s))
some-Turn (a ∷ xs) s q = elim (Bool-cases (has_sent a == 0)) [
  | inl t ↦
      let (b, turn) = has-Turn a (ground (arith, t)) (omega (arith, q)) in (0, a, b, refl, turn)
  | inr t ↦
      let one = has_sent-le a in
      let some_sent : has_sent a ≡ 1 = ground (arith, t, one) in
      let (i, c, b, e, turn) = some-Turn xs (omega (arith, s, some_sent)) (omega (arith, q)) in
      (suc i, c, b, e, turn)
]
