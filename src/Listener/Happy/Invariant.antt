-- ===== src/Listener/Happy/Invariant.antt =====
-- What holds in every state of DialHappy.
use quic_test.Prelude.{
  ℕ, ◌+◌, ◌<◌, ◌≡◌, refl, sym, ap, ◌∙◌, inl, inr, Bool, false, Option, none, some, List, [], ◌∷◌,
  ◌++◌, arith, ◌==◌, Bool-cases, some_injective, length, All, length-append, All-append,
}
use quic_test.Listener.Happy.{
  DialOutcome, connected, failed, Attempt, pausing, dialing, holding, sent, dropped, gave_up,
  Answer, chose, no_connection, Happy, Turn, starts, stops, dials, sends, drops, posted, get_elem?,
  set, turned,
}
use quic_test.Listener.Happy.Attempts.{
  total, total-set, length-set, get_elem?-set_self, get_elem?-set_other, has_sent, wins, has_won,
  has_quit,
}

abbrev pub wins_of : List (ℕ × DialOutcome) → ℕ
wins_of [] = 0
wins_of (r ∷ rs) = wins r.1 + wins_of rs

wins_of-append : (rs ts : List (ℕ × DialOutcome)) → wins_of (rs ++ ts) ≡ wins_of rs + wins_of ts
wins_of-append [] ts = omega arith
wins_of-append (r ∷ rs) ts = omega (arith, wins_of-append rs ts)

abbrev pub chosen : Option Answer → ℕ
chosen none = 0
chosen (some (chose i)) = 1
chosen (some (no_connection e)) = 0

-- The error is the outcome of an attempt.
abbrev pub IsError : List Attempt → ℕ → Type 0
IsError attempts e = (i : ℕ) × (get_elem? attempts i ≡ some (sent (failed e)))

abbrev pub IsFirst : List Attempt → Option ℕ → Type 0
IsFirst attempts none = Unit
IsFirst attempts (some e) = IsError attempts e

abbrev pub IsKnown : List Attempt → ℕ × DialOutcome → Type 0
IsKnown attempts r = get_elem? attempts r.0 ≡ some (sent r.1)

-- What the answer tells of the attempts.
abbrev pub IsAnswer : ℕ → List Attempt → ℕ → Option Answer → Type 0
IsAnswer n attempts received none = received < n
IsAnswer n attempts received (some (chose i)) = get_elem? attempts i ≡ some (sent connected)
IsAnswer n attempts received (some (no_connection e)) =
    (received ≡ n) × ((x : ℕ) × (e ≡ some x) × IsError attempts x)

pub record IsSound (n : ℕ) (h : Happy) : Type 0 where
  pub size : length h.attempts ≡ n
  pub all_sent : total has_sent h.attempts ≡ h.received + length h.results
  pub all_won : total has_won h.attempts ≡ wins_of h.results + chosen h.returned
  pub known : All (IsKnown h.attempts) h.results
  pub first : IsFirst h.attempts h.first_err
  pub answer : IsAnswer n h.attempts h.received h.returned
  pub quiet : h.cancelled ≡ false → total has_quit h.attempts ≡ 0

-- What a turn makes of an attempt.
record Turns (cancelled : Bool) (i : ℕ) (a b : Attempt) : Type 0 where
  pub unsent : has_sent a ≡ 0
  pub unwon : has_won a ≡ 0
  pub posts : length (posted i b) ≡ has_sent b
  pub wins_posted : wins_of (posted i b) ≡ has_won b
  pub stays : cancelled ≡ false → has_quit b ≡ has_quit a

Turn-Turns : {cancelled : Bool} {a b : Attempt} (i : ℕ) → Turn cancelled a b → Turns cancelled i a b
Turn-Turns i (starts c) = record {
  unsent = refl;
  unwon = refl;
  posts = refl;
  wins_posted = refl;
  stays = λ e. refl;
}
Turn-Turns i (stops c) = record {
  unsent = refl;
  unwon = refl;
  posts = refl;
  wins_posted = refl;
  stays = λ e. cc (c, e);
}
Turn-Turns i (dials o) = record {
  unsent = refl;
  unwon = refl;
  posts = refl;
  wins_posted = refl;
  stays = λ e. refl;
}
Turn-Turns i (sends o) = record {
  unsent = refl;
  unwon = refl;
  posts = refl;
  wins_posted = omega arith;
  stays = λ e. refl;
}
Turn-Turns i (drops o c) = record {
  unsent = refl;
  unwon = refl;
  posts = refl;
  wins_posted = refl;
  stays = λ e. cc (c, e);
}

-- An attempt that has sent its outcome has no more turns.
sent-stays :
    (xs : List Attempt) (i j : ℕ) (a b : Attempt) (o : DialOutcome)
    → get_elem? xs i ≡ some a
    → has_sent a ≡ 0
    → get_elem? xs j ≡ some (sent o)
    → get_elem? (set xs i b) j ≡ some (sent o)
sent-stays xs i j a b o e unsent f = elim (Bool-cases (j == i)) [
  | inl t ↦
      let same : j ≡ i = ground (arith, t) in
      let g : some a ≡ some (sent o) = sym e ∙ ap (get_elem? xs) (sym same) ∙ f in
      absurd (omega (arith, unsent, ap has_sent (some_injective a (sent o) g)))
  | inr t ↦ get_elem?-set_other xs i j b (λ s. absurd (ground (arith, t, s))) ∙ f
]

module _ (n : ℕ) (xs : List Attempt) (i : ℕ) (a b : Attempt) (e : get_elem? xs i ≡ some a)
    (unsent : has_sent a ≡ 0) where
  IsError-stays : (x : ℕ) → IsError xs x → IsError (set xs i b) x
  IsError-stays x (j, f) = (j, sent-stays xs i j a b (failed x) e unsent f)

  IsFirst-stays : (x : Option ℕ) → IsFirst xs x → IsFirst (set xs i b) x
  IsFirst-stays none h = tt
  IsFirst-stays (some x) h = IsError-stays x h

  IsKnown-stays :
      (rs : List (ℕ × DialOutcome)) → All (IsKnown xs) rs → All (IsKnown (set xs i b)) rs
  IsKnown-stays [] h = tt
  IsKnown-stays (r ∷ rs) (h, hs) = (sent-stays xs i r.0 a b r.1 e unsent h, IsKnown-stays rs hs)

  IsAnswer-stays : (k : ℕ) (r : Option Answer) → IsAnswer n xs k r → IsAnswer n (set xs i b) k r
  IsAnswer-stays k none h = h
  IsAnswer-stays k (some (chose j)) h = sent-stays xs i j a b connected e unsent h
  IsAnswer-stays k (some (no_connection x)) (all, (y, f, g)) = (all, (y, f, IsError-stays y g))

posted-IsKnown :
    (xs : List Attempt) (i : ℕ) (a b : Attempt)
    → get_elem? xs i ≡ some a
    → All (IsKnown (set xs i b)) (posted i b)
posted-IsKnown xs i a pausing e = tt
posted-IsKnown xs i a dialing e = tt
posted-IsKnown xs i a (holding o) e = tt
posted-IsKnown xs i a (sent o) e = (get_elem?-set_self xs i a (sent o) e, tt)
posted-IsKnown xs i a (dropped o) e = tt
posted-IsKnown xs i a gave_up e = tt

pub turned-IsSound :
    (n : ℕ) (h : Happy) (i : ℕ) (a b : Attempt)
    → get_elem? h.attempts i ≡ some a
    → Turn h.cancelled a b
    → IsSound n h
    → IsSound n (turned h i b)
turned-IsSound n h i a b e turn s =
    let t = Turn-Turns i turn in
    let xs = h.attempts in
    record {
      size = length-set xs i b ∙ s.size;
      all_sent = omega (
        arith,
        total-set has_sent xs i a b e,
        s.all_sent,
        t.unsent,
        t.posts,
        length-append h.results (posted i b),
      );
      all_won = omega (
        arith,
        total-set has_won xs i a b e,
        s.all_won,
        t.unwon,
        t.wins_posted,
        wins_of-append h.results (posted i b),
      );
      known =
          All-append (IsKnown (set xs i b)) h.results (posted i b)
            (IsKnown-stays n xs i a b e t.unsent h.results s.known) (posted-IsKnown xs i a b e);
      first = IsFirst-stays n xs i a b e t.unsent h.first_err s.first;
      answer = IsAnswer-stays n xs i a b e t.unsent h.received h.returned s.answer;
      quiet = λ c. omega (arith, total-set has_quit xs i a b e, s.quiet c, t.stays c);
    }
