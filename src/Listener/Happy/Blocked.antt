-- ===== src/Listener/Happy/Blocked.antt =====
-- A context that is cancelled before the attempts begin.
use quic_test.Prelude.{
  ℕ, zero, suc, ◌≤◌, ◌≡◌, refl, sym, ap, subst, Bool, true, false, none, some, List, [], ◌∷◌, ◌++◌,
  append_assoc, arith, ◌==◌, some_injective, length, replicate,
}
use quic_test.Listener.Happy.{
  Attempt, pausing, dialing, holding, sent, dropped, gave_up, Happy, concurrent, new_happy,
  dial_happy, Turn, starts, stops, dials, sends, drops, get_elem?, set, Step, cancels, turns,
  receives, Runs, begin, later,
}

abbrev cancelled_with : List Attempt → Happy
cancelled_with attempts = record {
  attempts = attempts;
  results = [];
  received = 0;
  first_err = none;
  cancelled = true;
  returned = none;
}

-- Every attempt has returned without a result.
abbrev pub blocked : ℕ → Happy
blocked n = cancelled_with (replicate n gave_up)

get_elem?-append :
    (xs : List Attempt) (a : Attempt) (ys : List Attempt)
    → get_elem? (xs ++ (a ∷ ys)) (length xs) ≡ some a
get_elem?-append [] a ys = refl
get_elem?-append (x ∷ xs) a ys = get_elem?-append xs a ys

set-append :
    (xs : List Attempt) (a b : Attempt) (ys : List Attempt)
    → set (xs ++ (a ∷ ys)) (length xs) b ≡ (xs ++ (b ∷ [])) ++ ys
set-append [] a b ys = refl
set-append (x ∷ xs) a b ys = ap (λ (zs : List Attempt). x ∷ zs) (set-append xs a b ys)

all_stop :
    (n : ℕ) (xs : List Attempt) (m : ℕ)
    → Runs n (cancelled_with (xs ++ replicate m pausing))
    → Runs n (cancelled_with (xs ++ replicate m gave_up))
all_stop n xs zero run = run
all_stop n xs (suc m) run =
    let one : Runs n (cancelled_with ((xs ++ (gave_up ∷ [])) ++ replicate m pausing)) =
      subst (λ (xs : List Attempt). Runs n (cancelled_with xs))
        (set-append xs pausing gave_up (replicate m pausing))
        (later run
          (turns (length xs) (get_elem?-append xs pausing (replicate m pausing)) (stops refl))) in
    subst (λ (xs : List Attempt). Runs n (cancelled_with xs))
      (append_assoc xs (gave_up ∷ []) (replicate m gave_up))
      (all_stop n (xs ++ (gave_up ∷ [])) m one)

blocked-Runs : (n : ℕ) → 2 ≤ n → Runs n (blocked n)
blocked-Runs n many = all_stop n [] n (later (begin (new_happy n) starts_all) cancels)
  where
    starts_all : dial_happy n ≡ concurrent (new_happy n)
    starts_all =
        let not_none : (n == 0) ≡ false = ground (arith, many) in
        let not_one : (n == 1) ≡ false = ground (arith, many) in rw (not_none, not_one) refl

is_over : Attempt → Bool
is_over gave_up = true
is_over pausing = false
is_over dialing = false
is_over (holding o) = false
is_over (sent o) = false
is_over (dropped o) = false

Turn-is_over : {c : Bool} {a b : Attempt} → Turn c a b → is_over a ≡ false
unfolding is_over
Turn-is_over (starts c) = refl
Turn-is_over (stops c) = refl
Turn-is_over (dials o) = refl
Turn-is_over (sends o) = refl
Turn-is_over (drops o c) = refl

over : (n i : ℕ) (a : Attempt) → get_elem? (replicate n gave_up) i ≡ some a → is_over a ≡ true
unfolding is_over
over zero i a e = absurd (cc)
over (suc n) zero a e = ap is_over (sym (some_injective gave_up a e))
over (suc n) (suc i) a e = over n i a e

-- When the caller cancels the context before the attempts have begun, DialHappy may come to a state in
-- which it has not returned, and which no step changes: it waits for results that nobody sends. (There
-- are two addresses or more.)
pub blocked-Step :
    (n : ℕ) (k : Happy)
    → 2 ≤ n
    → Step (blocked n) k
    → Runs n (blocked n) × ((blocked n).returned ≡ none) × (k ≡ blocked n)
blocked-Step n _ many cancels = (blocked-Runs n many, refl, refl)
blocked-Step n _ many (turns i {a} e turn) =
    absurd (ground (arith, over n i a e, Turn-is_over turn))
blocked-Step n _ many (receives r rest none_yet e) = absurd (omega (arith, ap length e))
