-- ===== src/Stream/Slice.antt =====
-- The data that a peer writes on a stream, and its slices.
use quic_test.Prelude.{
  ℕ, zero, suc, ◌+◌, ◌-◌, ◌≤◌, ◌≡◌, refl, ap, [], ◌∷◌, ◌++◌, arith, length, take, drop, Bytes,
}

-- `n` bytes of the data from an offset on, where the data has a byte at each offset.
unfoldable pub slice : (ℕ → ℕ) → ℕ → ℕ → Bytes
slice sent o zero = []
slice sent o (suc n) = sent o ∷ slice sent (suc o) n

pub slice-append :
    (sent : ℕ → ℕ) (o m n : ℕ) → slice sent o (m + n) ≡ slice sent o m ++ slice sent (o + m) n
unfolding slice
slice-append sent o zero n =
    let e : o + 0 ≡ o = omega arith in let d : 0 + n ≡ n = omega arith in rw (e, d) refl
slice-append sent o (suc m) n =
    let e : suc m + n ≡ suc (m + n) = omega arith in
    let d : o + suc m ≡ suc o + m = omega arith in
    rw (e, d) (ap (λ (t : Bytes). sent o ∷ t) (slice-append sent (suc o) m n))

pub take-slice : (sent : ℕ → ℕ) (o n m : ℕ) → n ≤ m → take n (slice sent o m) ≡ slice sent o n
unfolding slice
take-slice sent o zero m h = refl
take-slice sent o (suc n) zero h = absurd (omega arith)
take-slice sent o (suc n) (suc m) h =
    ap (λ (t : Bytes). sent o ∷ t) (take-slice sent (suc o) n m (omega arith))

pub drop-slice :
    (sent : ℕ → ℕ) (o n m : ℕ) → n ≤ m → drop n (slice sent o m) ≡ slice sent (o + n) (m - n)
unfolding slice
drop-slice sent o zero m h =
    let e : o + 0 ≡ o = omega arith in let d : m - 0 ≡ m = omega arith in rw (e, d) refl
drop-slice sent o (suc n) zero h = absurd (omega arith)
drop-slice sent o (suc n) (suc m) h =
    let e : o + suc n ≡ suc o + n = omega arith in
    let d : suc m - suc n ≡ m - n = omega arith in
    rw (e, d) (drop-slice sent (suc o) n m (omega arith))

pub length-slice : (sent : ℕ → ℕ) (o n : ℕ) → length (slice sent o n) ≡ n
unfolding slice
length-slice sent o zero = refl
length-slice sent o (suc n) = ap suc (length-slice sent (suc o) n)
