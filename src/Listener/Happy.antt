-- ===== src/Listener/Happy.antt =====
-- quic/listener.go: DialHappy, as steps of its goroutines in any order. An attempt is known by its place
-- in the list of addresses, and an error by a number. The delays are left out: an attempt may start at
-- any time.
use quic_test.Prelude.{
  ℕ, zero, suc, ◌+◌, ◌≡◌, Bool, true, false, Option, none, some, List, [], ◌∷◌, ◌++◌, ◌==◌,
  if◌then◌else◌, length, replicate,
}
pub mod Attempts
pub mod Invariant
pub mod Answers
pub mod Progress
pub mod Blocked
mod Tests

-- What dialOne returns.
pub data DialOutcome : Type 0 where
  connected : DialOutcome
  failed : ℕ → DialOutcome

-- Where the goroutine of an attempt is: it waits for its delay, it dials, it has an outcome, it has sent
-- it, it has closed the connection of it, or it has returned before it dialled.
pub data Attempt : Type 0 where
  pausing dialing : Attempt
  holding sent dropped : DialOutcome → Attempt
  gave_up : Attempt

-- A connection, by the attempt that made it, or the first error.
pub data Answer : Type 0 where
  chose : ℕ → Answer
  no_connection : Option ℕ → Answer

-- `results` is what waits in the channel, `received` counts the rounds of the loop at the end.
pub record Happy : Type 0 where
  pub attempts : List Attempt
  pub results : List (ℕ × DialOutcome)
  pub received : ℕ
  pub first_err : Option ℕ
  pub cancelled : Bool
  pub returned : Option Answer

pub data Start : Type 0 where
  no_addresses : Start
  dials_directly : Start
  concurrent : Happy → Start

abbrev pub new_happy : ℕ → Happy
new_happy n = record {
  attempts = replicate n pausing;
  results = [];
  received = 0;
  first_err = none;
  cancelled = false;
  returned = none;
}

-- For `n` addresses.
abbrev pub dial_happy : ℕ → Start
dial_happy n =
    if n == 0 then no_addresses else if n == 1 then dials_directly else concurrent (new_happy n)

-- What a goroutine does next. When the context is cancelled, its `select` may take either way.
pub data Turn : Bool → Attempt → Attempt → Type 0 where
  starts : {cancelled : Bool} → cancelled ≡ false → Turn cancelled pausing dialing
  stops : {cancelled : Bool} → cancelled ≡ true → Turn cancelled pausing gave_up
  dials : {cancelled : Bool} (o : DialOutcome) → Turn cancelled dialing (holding o)
  sends : {cancelled : Bool} (o : DialOutcome) → Turn cancelled (holding o) (sent o)
  drops :
      {cancelled : Bool} (o : DialOutcome)
      → cancelled ≡ true
      → Turn cancelled (holding o) (dropped o)

-- What the goroutine puts into the channel with a turn.
abbrev pub posted : ℕ → Attempt → List (ℕ × DialOutcome)
posted i (sent o) = (i, o) ∷ []
posted i pausing = []
posted i dialing = []
posted i (holding o) = []
posted i (dropped o) = []
posted i gave_up = []

abbrev pub get_elem? : List Attempt → ℕ → Option Attempt
get_elem? [] i = none
get_elem? (a ∷ xs) zero = some a
get_elem? (a ∷ xs) (suc i) = get_elem? xs i

abbrev pub set : List Attempt → ℕ → Attempt → List Attempt
set [] i b = []
set (a ∷ xs) zero b = b ∷ xs
set (a ∷ xs) (suc i) b = a ∷ set xs i b

abbrev pub turned : Happy → ℕ → Attempt → Happy
turned h i b = record h { attempts = set h.attempts i b; results = h.results ++ posted i b }

abbrev pub or_first : Option ℕ → ℕ → Option ℕ
or_first none e = some e
or_first (some f) e = some f

-- A round of the loop, with the result that it takes from the channel. `defer cancel()` ends the other
-- attempts when DialHappy returns.
unfoldable pub take_result : Happy → ℕ × DialOutcome → List (ℕ × DialOutcome) → Happy
take_result h (i, connected) rest = record h {
  results = rest;
  received = h.received + 1;
  cancelled = true;
  returned = some (chose i);
}
take_result h (i, failed e) rest =
    let first = or_first h.first_err e in
    let next : Happy = record h { results = rest; received = h.received + 1; first_err = first } in
    if h.received + 1 == length h.attempts
    then record next { cancelled = true; returned = some (no_connection first) }
    else next

-- The caller cancels the context, a goroutine has a turn, or the loop takes a result.
pub data Step (h : Happy) : Happy → Type 0 where
  cancels : Step h (record h { cancelled = true })
  turns :
      (i : ℕ) {a b : Attempt}
      → get_elem? h.attempts i ≡ some a
      → Turn h.cancelled a b
      → Step h (turned h i b)
  receives :
      (r : ℕ × DialOutcome) (rest : List (ℕ × DialOutcome))
      → h.returned ≡ none
      → h.results ≡ r ∷ rest
      → Step h (take_result h r rest)

-- The states that a call with `n` addresses reaches.
pub data Runs (n : ℕ) : Happy → Type 0 where
  begin : (h : Happy) → dial_happy n ≡ concurrent h → Runs n h
  later : {h k : Happy} → Runs n h → Step h k → Runs n k
