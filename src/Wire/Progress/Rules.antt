-- ===== src/Wire/Progress/Rules.antt =====
-- When a parser moves forward inside its input, and the rules by which its parts show it.
use quic_test.Prelude.{
  ℕ, ◌+◌, ◌≤◌, ◌≡◌, refl, inl, inr, Bool, true, false, arith, ltb, if◌then◌else◌, length, drop, All,
  length-drop, All-drop, IsByte, Bytes, Error, Result, ok, err, panics, ◌>>=◌, Result-cases,
}
use quic_test.Varint
use quic_test.Varint.{at}
use quic_test.Varint.Bounds.{parse_bounds, parse-ne-panics}
use quic_test.Wire.Field.{next_varint, take_bytes}
use quic_test.Wire.Frame.{Frame, as_frame}

-- The result of a parser that stood at `offset`: an error, or a new offset from there to the end.
unfoldable pub Advances : {A : Type 0} → Bytes → ℕ → Result (A × ℕ) → Type 0
Advances input offset (ok (a, next)) = (offset ≤ next) × (next ≤ length input)
Advances input offset (err e) = Unit {0}
Advances input offset panics = ⊥

module _ (input : Bytes) where
  pub Advances-mono :
      {A : Type 0} (p q : ℕ) (r : Result (A × ℕ)) → p ≤ q → Advances input q r → Advances input p r
  unfolding Advances
  Advances-mono p q (ok (a, next)) h (lo, hi) = (omega arith, hi)
  Advances-mono p q (err e) h v = tt
  Advances-mono p q panics h v = v

  pub Advances-bind :
      {A B : Type 0} (offset : ℕ) (m : Result (A × ℕ)) (k : A × ℕ → Result (B × ℕ))
      → Advances input offset m
      → ((a : A) (p : ℕ) → p ≤ length input → Advances input p (k (a, p)))
      → Advances input offset (m >>= k)
  unfolding Advances
  Advances-bind offset (ok (a, p)) k v h = Advances-mono offset p (k (a, p)) v.0 (h a p v.1)
  Advances-bind offset (err e) k v h = tt
  Advances-bind offset panics k v h = v

  pub Advances-if :
      {A : Type 0} (offset : ℕ) (c : Bool) (x y : Result (A × ℕ))
      → (c ≡ true → Advances input offset x)
      → (c ≡ false → Advances input offset y)
      → Advances input offset (if c then x else y)
  unfolding Advances
  Advances-if offset true x y hx hy = hx refl
  Advances-if offset false x y hx hy = hy refl

  -- A choice that moves nothing and does not panic.
  pub Advances-choice :
      {A B : Type 0} (offset : ℕ) (c d : Bool) (x y : A) (e : Error) (k : A → Result (B × ℕ))
      → ((a : A) → Advances input offset (k a))
      → Advances input offset ((if c then ok x else if d then ok y else err e) >>= k)
  unfolding Advances
  Advances-choice offset true d x y e k h = h x
  Advances-choice offset false true x y e k h = h y
  Advances-choice offset false false x y e k h = tt

  pub Advances-as_frame :
      {A : Type 0} (offset : ℕ) (c : A → Frame) (r : Result (A × ℕ))
      → Advances input offset r
      → Advances input offset (as_frame c r)
  unfolding Advances
  Advances-as_frame offset c (ok (a, p)) v = v
  Advances-as_frame offset c (err e) v = tt
  Advances-as_frame offset c panics v = v

  pub Advances-take_bytes : (offset n : ℕ) → Advances input offset (take_bytes input offset n)
  unfolding take_bytes Advances
  Advances-take_bytes offset n =
      Advances-if offset (ltb (length input) (offset + n)) _ _ (λ e. tt) (λ e. ground arith)

  pub Advances-err : (A : Type 0) (offset : ℕ) (x : Error) → Advances {A = A} input offset (err x)
  unfolding Advances
  Advances-err A offset x = tt

module _ (input : Bytes) (bytes : All IsByte input) where
  pub Advances-next_varint : (offset : ℕ) → Advances input offset (next_varint input offset)
  unfolding next_varint Advances
  Advances-next_varint offset = elim (Result-cases (Varint.parse (drop offset input))) [
    | inl ((v, n), e) ↦ rw e (
        ground (
          arith,
          parse_bounds (drop offset input) v n (All-drop IsByte offset input bytes) e,
          length-drop offset input,
        ))
    | inr (inl (x, e)) ↦ rw e tt
    | inr (inr e) ↦ absurd (parse-ne-panics (drop offset input) e)
  ]
