-- ===== src/Prelude/Bits/Step.antt =====
-- The lowest binary digit of a native `&` and `|`. The library computes them digit by digit on
-- fuel, of which any amount from the first number on gives the same.
use Prim.Native.Nat.{
  ℕ, zero, suc, ◌+◌, ◌-◌, ◌*◌, ◌/◌, ◌%◌, ◌≤◌, min, max, digits, bitwise, bit_and, bit_or,
  bit_and-bitwise, bit_or-bitwise,
}
use mathlib.Core.Path.{◌≡◌, refl, ◌∙◌}
use native.Mathlib.Omega.{arith}

-- What a bitwise operation does when the first number has run out, and on one digit of each.
module _ (rest : ℕ → ℕ) (on_digits : ℕ → ℕ → ℕ) where
  abbrev run : ℕ → ℕ → ℕ → ℕ
  run fuel x y = digits rest on_digits fuel x y

  one_more : (fuel x y : ℕ) → x ≤ fuel → run (suc fuel) x y ≡ run fuel x y
  one_more zero zero y enough = refl
  one_more (suc fuel) zero y enough = refl
  one_more zero (suc x) y enough = absurd (omega arith)
  one_more (suc fuel) (suc x) y enough =
      let halved = one_more fuel (suc x / 2) (y / 2) (omega arith) in omega (arith, halved)

  spare : (k fuel x y : ℕ) → fuel ≡ k + x → run fuel x y ≡ run x x y
  spare zero fuel x y e = let same : fuel ≡ x = omega arith in rw same refl
  spare (suc k) zero x y e = absurd (omega arith)
  spare (suc k) (suc fuel) x y e = one_more fuel x y (omega arith) ∙ spare k fuel x y (omega arith)

  lowest_digit :
      (x y : ℕ)
      → bitwise rest on_digits (suc x) y
        ≡ bitwise rest on_digits (suc x / 2) (y / 2) * 2 + on_digits (suc x % 2) (y % 2)
  lowest_digit x y =
      let half = suc x / 2 in
      let halves = spare (x - half) x half (y / 2) (omega arith) in omega (arith, halves)

pub bit_and_step : (x y : ℕ) → bit_and x y ≡ bit_and (x / 2) (y / 2) * 2 + min (x % 2) (y % 2)
bit_and_step zero y = simp bit_and-bitwise (omega arith)
bit_and_step (suc x) y = simp bit_and-bitwise (lowest_digit (λ _. 0) min x y)

pub bit_or_step : (x y : ℕ) → bit_or x y ≡ bit_or (x / 2) (y / 2) * 2 + max (x % 2) (y % 2)
bit_or_step zero y = simp bit_or-bitwise (omega arith)
bit_or_step (suc x) y = simp bit_or-bitwise (lowest_digit (λ r. r) max x y)
