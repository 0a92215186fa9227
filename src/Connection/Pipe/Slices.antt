-- ===== src/Connection/Pipe/Slices.antt =====
-- The data that Write has taken, as the function of the offset that the reader's theorems speak of.
use quic_test.Prelude.{
  ℕ, zero, suc, ◌+◌, ◌^◌, ◌<◌, ◌≡◌, refl, sym, ap, ◌∙◌, [], ◌∷◌, ◌++◌, arith, length, get_or, take,
  drop, Bytes,
}
use quic_test.Stream.Slice.{slice}
use quic_test.Stream.Invariant.{IsPiece}

-- The data as a function of the offset, with a byte `d` behind its end.
abbrev pub byte_at : ℕ → Bytes → ℕ → ℕ
byte_at d xs i = get_or xs i d

pub slice-later :
    (d x : ℕ) (xs : Bytes) (o n : ℕ)
    → slice (byte_at d (x ∷ xs)) (suc o) n ≡ slice (byte_at d xs) o n
unfolding slice
slice-later d x xs o zero = refl
slice-later d x xs o (suc n) = ap (λ (t : Bytes). get_or xs o d ∷ t) (slice-later d x xs (suc o) n)

pub slice-here : (d : ℕ) (ys zs : Bytes) → slice (byte_at d (ys ++ zs)) 0 (length ys) ≡ ys
unfolding slice
slice-here d [] zs = refl
slice-here d (y ∷ ys) zs =
    ap (λ (t : Bytes). y ∷ t) (slice-later d y (ys ++ zs) 0 (length ys) ∙ slice-here d ys zs)

pub slice-middle :
    (d : ℕ) (xs ys zs : Bytes) → slice (byte_at d (xs ++ (ys ++ zs))) (length xs) (length ys) ≡ ys
slice-middle d [] ys zs = slice-here d ys zs
slice-middle d (x ∷ xs) ys zs =
    slice-later d x (xs ++ (ys ++ zs)) (length xs) (length ys) ∙ slice-middle d xs ys zs

-- Data that does not depend on the byte behind the end lies before the end.
pub before_end :
    (xs : Bytes) (m : ℕ)
    → slice (byte_at 0 xs) 0 m ≡ slice (byte_at 1 xs) 0 m
    → slice (byte_at 0 xs) 0 m ≡ take m xs
unfolding slice
before_end xs zero e = refl
before_end [] (suc m) e = absurd (ground (arith, e))
before_end (x ∷ xs) (suc m) e =
    let tails : slice (byte_at 0 (x ∷ xs)) 1 m ≡ slice (byte_at 1 (x ∷ xs)) 1 m = ap (drop 1) e in
    ap (λ (t : Bytes). x ∷ t)
      (slice-later 0 x xs 0 m
        ∙ before_end xs m (sym (slice-later 0 x xs 0 m) ∙ tails ∙ slice-later 1 x xs 0 m))

pub no_bytes-IsPiece : (sent : ℕ → ℕ) (o : ℕ) → o < 2 ^ 63 → IsPiece sent o []
unfolding IsPiece slice
no_bytes-IsPiece sent o h = (refl, omega arith)

pub taken-IsPiece :
    (d : ℕ) (xs ys zs : Bytes)
    → length xs + length ys < 2 ^ 63
    → IsPiece (byte_at d (xs ++ (ys ++ zs))) (length xs) ys
unfolding IsPiece
taken-IsPiece d xs ys zs h = (sym (slice-middle d xs ys zs), h)
