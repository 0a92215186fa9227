-- ===== src/Prelude/Bits.antt =====
-- `|` of disjoint fields and `&` with a low mask as arithmetic, at every width, and the other
-- masks of one byte as tables checked by evaluation.
mod Step
use Step.{bit_or_step, bit_and_step}
use Prim.Native.Nat.{ℕ, zero, suc, ◌+◌, ◌-◌, ◌*◌, ◌/◌, ◌%◌, ◌^◌, ◌≤◌, ◌<◌, bit_and, bit_or}
use mathlib.Core.Path.{◌≡◌, refl, ap, ◌∙◌}
use mathlib.Core.Bool.{Bool, true, false}
use mathlib.Core.Logic.{ite}
use native.Mathlib.Nat.{pow-suc, one-le-pow, mod-eq_of_lt}
use native.Mathlib.Decide.{ℕ_discrete}
use native.Mathlib.Omega.{arith}

bit_or_nothing : (bound x : ℕ) → x < suc bound → bit_or x 0 ≡ x
bit_or_nothing zero x h = let e : x ≡ 0 = omega arith in rw e refl
bit_or_nothing (suc bound) x h =
    omega (arith, bit_or_step x 0, bit_or_nothing bound (x / 2) (omega arith))

bit_and_nothing : (bound x : ℕ) → x < suc bound → bit_and x 0 ≡ 0
bit_and_nothing zero x h = let e : x ≡ 0 = omega arith in rw e refl
bit_and_nothing (suc bound) x h =
    omega (arith, bit_and_step x 0, bit_and_nothing bound (x / 2) (omega arith))

double-pow : (q k : ℕ) → q * 2 ^ suc k ≡ 2 * (q * 2 ^ k)
double-pow q k = omega (arith, ap (λ (t : ℕ). q * t) (pow-suc 2 k))

-- (q << k) | r is a sum when r fits k bits.
pub bit_or_fields : (k q r : ℕ) → r < 2 ^ k → bit_or (q * 2 ^ k) r ≡ q * 2 ^ k + r
bit_or_fields zero q r fits = ground (arith, bit_or_nothing q q)
bit_or_fields (suc k) q r fits = ground (
  arith,
  bit_or_step (q * 2 ^ suc k) r,
  double-pow q k,
  bit_or_fields k q (r / 2) (omega (arith, pow-suc 2 k)),
)

bit_and_fields : (k q r : ℕ) → r < 2 ^ k → bit_and (q * 2 ^ k + r) (2 ^ k - 1) ≡ r
bit_and_fields zero q r fits = ground (arith, bit_and_nothing (q * 2 ^ 0 + r) (q * 2 ^ 0 + r))
bit_and_fields (suc k) q r fits = ground (
  arith,
  bit_and_step (q * 2 ^ suc k + r) (2 ^ suc k - 1),
  double-pow q k,
  pow-suc 2 k,
  one-le-pow k 2,
  bit_and_fields k q (r / 2) (omega (arith, pow-suc 2 k)),
)

-- A mask of k low bits is the remainder by 2 ^ k.
pub bit_and_mask : (k a : ℕ) → bit_and a (2 ^ k - 1) ≡ a % 2 ^ k
bit_and_mask k a = ground (arith, one-le-pow k 2, bit_and_fields k (a / 2 ^ k) (a % 2 ^ k))

-- Two functions that agree on every number below n by evaluation.
module _ (f g : ℕ → ℕ) where
  unfoldable pub agree_below : ℕ → Bool
  unfolding ℕ_discrete
  agree_below zero = true
  agree_below (suc n) = ite (ℕ_discrete (f n) (g n)) (agree_below n) false

  pub agree_below→eq : (n : ℕ) → agree_below n ≡ true → (i : ℕ) → i < n → f i ≡ g i
  unfolding agree_below
  agree_below→eq zero e i h = absurd (omega arith)
  agree_below→eq (suc n) e i h = ground (arith, agree_below→eq n (ground arith) i)

-- A mask of the high bits clears the low ones.
bit_and_shifted :
    (k q m r : ℕ) → r < 2 ^ k → bit_and (q * 2 ^ k + r) (m * 2 ^ k) ≡ bit_and q m * 2 ^ k
bit_and_shifted zero q m r fits =
    let e : q * 2 ^ 0 + r ≡ q = omega arith in
    let d : m * 2 ^ 0 ≡ m = omega arith in rw (e, d) (omega arith)
bit_and_shifted (suc k) q m r fits = ground (
  arith,
  bit_and_step (q * 2 ^ suc k + r) (m * 2 ^ suc k),
  double-pow q k,
  double-pow m k,
  double-pow (bit_and q m) k,
  pow-suc 2 k,
  bit_and_shifted k q m (r / 2) (omega (arith, pow-suc 2 k)),
)

pub bit_and_high :
    (k n a : ℕ) → a / 2 ^ k < 2 ^ n → bit_and a ((2 ^ n - 1) * 2 ^ k) ≡ a / 2 ^ k * 2 ^ k
bit_and_high k n a h =
    let split : a ≡ a / 2 ^ k * 2 ^ k + a % 2 ^ k = omega (arith, one-le-pow k 2) in
    ap (λ (x : ℕ). bit_and x ((2 ^ n - 1) * 2 ^ k)) split
    ∙ bit_and_shifted k (a / 2 ^ k) (2 ^ n - 1) (a % 2 ^ k) (omega (arith, one-le-pow k 2))
    ∙ ap (λ (x : ℕ). x * 2 ^ k) (bit_and_mask n (a / 2 ^ k) ∙ mod-eq_of_lt h)
