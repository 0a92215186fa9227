-- ===== src/Congestion/Floats.antt =====
-- Go's float64, as a parameter: the numbers and the operations that quic/utils uses of them.
use quic_test.Prelude.{ℕ, Bool}

pub record Floats : Type 1 where
  pub Float : Type 0
  -- float64(n) and int64(x), of int64 patterns.
  pub of_int : ℕ → Float
  pub to_int : Float → ℕ
  -- The literal with that numerator and denominator.
  pub ratio : ℕ → ℕ → Float
  -- Seconds of a duration.
  pub seconds : ℕ → Float
  pub add : Float → Float → Float
  pub sub : Float → Float → Float
  pub mul : Float → Float → Float
  pub quot : Float → Float → Float
  pub lt : Float → Float → Bool
  pub eq : Float → Float → Bool
  -- math.Cbrt and math.Ceil
  pub cbrt : Float → Float
  pub ceil : Float → Float
