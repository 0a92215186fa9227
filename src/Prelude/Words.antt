-- ===== src/Prelude/Words.antt =====
-- Machine words as native numbers. A word of w bits is a number below 2 ^ w; a signed integer is
-- the number of its two's complement pattern, so a conversion between int64 and uint64 is no step.
use Prim.Native.Nat.{ℕ, ◌+◌, ◌-◌, ◌%◌, ◌^◌, ◌<◌}
use mathlib.Core.Bool.{Bool, not}
use quic_test.Prelude.Compare.{ltb}
use mathlib.Core.List.{List}

abbrev pub IsByte : ℕ → Type 0
IsByte b = b < 256

abbrev pub IsU64 : ℕ → Type 0
IsU64 v = v < 2 ^ 64

abbrev pub Bytes : Type 0
Bytes = List ℕ

-- The conversions byte(n), uint32(n) and uint64(n).
abbrev pub u8 : ℕ → ℕ
u8 n = n % 256

abbrev pub u32 : ℕ → ℕ
u32 n = n % 2 ^ 32

abbrev pub u64 : ℕ → ℕ
u64 n = n % 2 ^ 64

-- int64 and uint64 sums and differences, which wrap alike on the patterns.
abbrev pub add64 : ℕ → ℕ → ℕ
add64 a b = (a + b) % 2 ^ 64

abbrev pub sub64 : ℕ → ℕ → ℕ
sub64 a b = (a + 2 ^ 64 - b) % 2 ^ 64

-- `a < b` on the int64s of two patterns: flipping the sign bit keeps the order.
abbrev pub lt_int64 : ℕ → ℕ → Bool
lt_int64 a b = ltb ((a + 2 ^ 63) % 2 ^ 64) ((b + 2 ^ 63) % 2 ^ 64)

-- `a <= b` on the int64s of two patterns.
abbrev pub le_int64 : ℕ → ℕ → Bool
le_int64 a b = not (lt_int64 b a)
